-- ===== src/Identity.antt =====
-- `SessionId` of src/audio_session.cpp and `DeviceId` of src/device_discovery.cpp: 16 bytes, of which
-- not all are 0 when the identity is valid. The two classes have the same members.
pub mod Laws
use distributed_audio_system.Bytes.{append_bytes}
use distributed_audio_system.Prelude.{
  Bool, List, [], ap, false, list_eq, list_eq_iff, ltb, not, replicate, true, ℕ, ◌&&◌, ◌++◌, ◌==◌,
  ◌||◌, ◌↔◌, ◌∷◌, ◌≡◌,
}
use distributed_audio_system.Prelude.Map.{Key}

pub record DeviceId : Type 0 where
  pub bytes : List ℕ

pub record SessionId : Type 0 where
  pub bytes : List ℕ

-- `std::any_of(…, byte != 0)`.
unfoldable pub any_nonzero : List ℕ → Bool
any_nonzero [] = false
any_nonzero (b ∷ bs) = not (b == 0) || any_nonzero bs

unfoldable pub device_valid : DeviceId → Bool
device_valid id = any_nonzero id.bytes

unfoldable pub session_valid : SessionId → Bool
session_valid id = any_nonzero id.bytes

-- The first byte tells the kind; the loop fills the last 8 bytes, the most significant first.
unfoldable pub bytes_from_u64 : ℕ → ℕ → List ℕ
bytes_from_u64 kind value = kind ∷ (replicate 7 0 ++ append_bytes 8 [] value)

unfoldable pub device_from_u64 : ℕ → DeviceId
device_from_u64 value = record { bytes = bytes_from_u64 0xDA value }

unfoldable pub session_from_u64 : ℕ → SessionId
session_from_u64 value = record { bytes = bytes_from_u64 0x53 value }

-- `operator<` of two arrays.
unfoldable pub bytes_less : List ℕ → List ℕ → Bool
bytes_less xs [] = false
bytes_less [] (y ∷ ys) = true
bytes_less (x ∷ xs) (y ∷ ys) = ltb x y || x == y && bytes_less xs ys

abbrev pub device_eq : DeviceId → DeviceId → Bool
device_eq a b = list_eq a.bytes b.bytes

abbrev pub session_eq : SessionId → SessionId → Bool
session_eq a b = list_eq a.bytes b.bytes

pub device_eq_iff : (a b : DeviceId) → (device_eq a b ≡ true) ↔ (a ≡ b)
device_eq_iff a b =
    let (to, from) = list_eq_iff a.bytes b.bytes in
    (λ h. ap (λ bs. record { bytes = bs }) (to h), λ e. from (ap (λ (d : DeviceId). d.bytes) e))

pub session_eq_iff : (a b : SessionId) → (session_eq a b ≡ true) ↔ (a ≡ b)
session_eq_iff a b =
    let (to, from) = list_eq_iff a.bytes b.bytes in
    (λ h. ap (λ bs. record { bytes = bs }) (to h), λ e. from (ap (λ (d : SessionId). d.bytes) e))

instance abbrev pub device_key : Key DeviceId
device_key = record {
  beq = device_eq;
  less = λ a b. bytes_less a.bytes b.bytes;
  beq_iff = device_eq_iff;
}

instance abbrev pub session_key : Key SessionId
session_key = record {
  beq = session_eq;
  less = λ a b. bytes_less a.bytes b.bytes;
  beq_iff = session_eq_iff;
}
