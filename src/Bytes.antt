-- ===== src/Bytes.antt =====
-- The byte writers and readers that src/packet_serializer.cpp, src/audio_session.cpp and
-- src/device_discovery.cpp each declare. A byte vector is a list of numbers below 256.
pub mod Laws
pub mod Reads
pub mod Codec
use Prim.Native.Nat.{bit_or}
use distributed_audio_system.Prelude.{
  ℕ, zero, suc, ◌+◌, ◌*◌, ◌/◌, ◌%◌, ◌^◌, ◌<◌, Option, none, some, List, [], ◌∷◌, ◌++◌,
}

abbrev pub IsByte : ℕ → Type 0
IsByte b = b < 256

-- `for (int shift = 8 * (k - 1); shift >= 0; shift -= 8) output.push_back(uint8_t(value >> shift))`
unfoldable pub append_bytes : ℕ → List ℕ → ℕ → List ℕ
append_bytes zero out value = out
append_bytes (suc k) out value = append_bytes k (out ++ value / 2 ^ (8 * k) % 256 ∷ []) value

unfoldable pub append_u8 : List ℕ → ℕ → List ℕ
append_u8 out value = out ++ value ∷ []

unfoldable pub append_u16 : List ℕ → ℕ → List ℕ
append_u16 out value = out ++ value / 256 % 256 ∷ value % 256 ∷ []

unfoldable pub append_u32 : List ℕ → ℕ → List ℕ
append_u32 out value = append_bytes 4 out value

unfoldable pub append_u64 : List ℕ → ℕ → List ℕ
append_u64 out value = append_bytes 8 out value

-- A reader's state is the part of the packet from `offset` on, so `packet.size() - offset` is its
-- length. `none` is a read past the end of the packet.
abbrev pub Reader : Type 0 → Type 0
Reader A = List ℕ → Option (A × List ℕ)

infixl 5 ◌>>=◌
abbrev pub ◌>>=◌ : {A B : Type 0} → Reader A → (A → Reader B) → Reader B
◌>>=◌ r f packet = elim (r packet) [ none ↦ none | some (a, rest) ↦ f a rest ]

abbrev pub return : {A : Type 0} → A → Reader A
return a packet = some (a, packet)

unfoldable pub read_u8 : Reader ℕ
read_u8 [] = none
read_u8 (b ∷ rest) = some (b, rest)

-- `value = (value << 8U) | packet[offset++]`, k times, in an unsigned type of the modulus given.
unfoldable pub read_bytes : ℕ → ℕ → ℕ → Reader ℕ
read_bytes modulus zero value packet = some (value, packet)
read_bytes modulus (suc k) value [] = none
read_bytes modulus (suc k) value (b ∷ rest) =
    read_bytes modulus k (bit_or (value * 256 % modulus) b) rest

unfoldable pub read_u16 : Reader ℕ
read_u16 [] = none
read_u16 (a ∷ []) = none
read_u16 (a ∷ b ∷ rest) = some (bit_or (a * 256) b, rest)

unfoldable pub read_u32 : Reader ℕ
read_u32 = read_bytes (2 ^ 32) 4 0

unfoldable pub read_u64 : Reader ℕ
read_u64 = read_bytes (2 ^ 64) 8 0

-- `std::copy_n(packet.begin() + offset, n, …); offset += n;`
unfoldable pub read_n : ℕ → Reader (List ℕ)
read_n zero packet = some ([], packet)
read_n (suc n) [] = none
read_n (suc n) (b ∷ rest) = elim (read_n n rest) [
  | none ↦ none
  | some (bs, rest') ↦ some (b ∷ bs, rest')
]
