-- ===== src/Discovery/Message/Shape.antt =====
-- The bytes of a device in a discovery packet, and how they are read.
use mathlib.Core.List.{append_assoc}
use distributed_audio_system.Bytes.{Reader, read_n, read_u16}
use distributed_audio_system.Bytes.Laws.{
  big_endian, length-big_endian, read_n-append, read_u16-big_endian,
}
use distributed_audio_system.Discovery.Device.{DeviceInfo}
use distributed_audio_system.Discovery.Message.{Ports, discovery_max_capabilities}
use distributed_audio_system.Discovery.Message.Layout.{ports_codec}
use distributed_audio_system.Discovery.Message.Read.{
  read_capabilities, read_string, read_values, taken,
}
use distributed_audio_system.Identity.Laws.{IsIdentity}
use distributed_audio_system.Prelude.{
  All, List, [], ap, arith, length, length-append, refl, some, ℕ, ◌++◌, ◌+◌, ◌<◌, ◌^◌, ◌∙◌, ◌∷◌,
  ◌≡◌, ◌≤◌,
}

-- A list or a string with its length in front.
abbrev pub counted : List ℕ → List ℕ → List ℕ
counted values bytes = big_endian 2 (length values) ++ bytes

-- The values one after the other, in `k` bytes each.
unfoldable pub values_bytes : ℕ → List ℕ → List ℕ
values_bytes k [] = []
values_bytes k (v ∷ vs) = big_endian k v ++ values_bytes k vs

abbrev pub ports_of : DeviceInfo → Ports
ports_of info = record {
  protocol_version = info.protocol_version;
  audio_port = info.audio_port;
  discovery_port = info.discovery_port;
}

abbrev pub lists_bytes : DeviceInfo → List ℕ
lists_bytes info =
    counted info.sample_rates (values_bytes 4 info.sample_rates)
    ++ (counted info.channel_counts (values_bytes 2 info.channel_counts)
        ++ counted info.bits_per_sample (values_bytes 2 info.bits_per_sample))

abbrev pub numbers_bytes : DeviceInfo → List ℕ
numbers_bytes info = ports_codec.write (ports_of info) ++ lists_bytes info

unfoldable pub device_bytes : DeviceInfo → List ℕ
device_bytes info =
    info.id.bytes
    ++ (counted info.name info.name ++ (counted info.address info.address ++ numbers_bytes info))

-- The types of the fields.
pub record DeviceFits (info : DeviceInfo) : Type 0 where
  pub id_fits : IsIdentity info.id.bytes
  pub version_fits : info.protocol_version < 2 ^ 16
  pub audio_fits : info.audio_port < 2 ^ 16
  pub discovery_fits : info.discovery_port < 2 ^ 16
  pub rates_fit : All (λ v. v < 2 ^ 32) info.sample_rates
  pub channels_fit : All (λ v. v < 2 ^ 16) info.channel_counts
  pub bits_fit : All (λ v. v < 2 ^ 16) info.bits_per_sample

pub read_string-counted :
    (limit : ℕ) (s rest : List ℕ)
    → length s ≤ limit
    → limit ≤ 1_000
    → read_string limit (counted s s ++ rest) ≡ taken s rest
unfolding read_string
read_string-counted limit s rest h small =
    let size : length (counted s s ++ rest) ≡ 2 + (length s + length rest) =
      length-append (counted s s) rest
      ∙ ap (λ (n : ℕ). n + length rest)
          (length-append (big_endian 2 (length s)) s
            ∙ ap (λ (n : ℕ). n + length s) (length-big_endian 2 (length s)))
      ∙ omega arith in
    let read_size : read_u16 (counted s s ++ rest) ≡ some (length s, s ++ rest) =
      ap read_u16 (append_assoc (big_endian 2 (length s)) s rest)
      ∙ read_u16-big_endian (length s) (s ++ rest) (omega arith) in
    let after : length (s ++ rest) ≡ length s + length rest = length-append s rest in
    let read_bytes_ : read_n (length s) (s ++ rest) ≡ some (s, rest) =
      read_n-append (length s) s rest refl in
    ground (arith, read_size, after, read_bytes_)

-- A reader that reads back `k` bytes of a value below `bound`.
abbrev pub ReadsBack : Reader ℕ → ℕ → ℕ → Type 0
ReadsBack reader k bound =
    (v : ℕ) (rest : List ℕ) → v < bound → reader (big_endian k v ++ rest) ≡ some (v, rest)

read_values-bytes :
    (reader : Reader ℕ) (k bound : ℕ) (vs rest : List ℕ)
    → ReadsBack reader k bound
    → All (λ v. v < bound) vs
    → read_values reader k (length vs) (values_bytes k vs ++ rest) ≡ taken vs rest
unfolding read_values values_bytes
read_values-bytes reader k bound [] rest r a = refl
read_values-bytes reader k bound (v ∷ vs) rest r a =
    let size : length ((big_endian k v ++ values_bytes k vs) ++ rest)
        ≡ k + length (values_bytes k vs ++ rest) =
      ap length (append_assoc (big_endian k v) (values_bytes k vs) rest)
      ∙ length-append (big_endian k v) _
      ∙ ap (λ (n : ℕ). n + length (values_bytes k vs ++ rest)) (length-big_endian k v) in
    let read : reader ((big_endian k v ++ values_bytes k vs) ++ rest)
        ≡ some (v, values_bytes k vs ++ rest) =
      ap reader (append_assoc (big_endian k v) (values_bytes k vs) rest) ∙ r v _ a.0 in
    ground (arith, read, read_values-bytes reader k bound vs rest r a.1)

pub read_capabilities-counted :
    (reader : Reader ℕ) (k bound : ℕ) (vs rest : List ℕ)
    → ReadsBack reader k bound
    → All (λ v. v < bound) vs
    → 0 < length vs
    → length vs ≤ discovery_max_capabilities
    → read_capabilities reader k (counted vs (values_bytes k vs) ++ rest) ≡ taken vs rest
unfolding read_capabilities
read_capabilities-counted reader k bound vs rest r a lo hi =
    let front = append_assoc (big_endian 2 (length vs)) (values_bytes k vs) rest in
    let size : length (counted vs (values_bytes k vs) ++ rest)
        ≡ 2 + length (values_bytes k vs ++ rest) =
      ap length front
      ∙ length-append (big_endian 2 (length vs)) _
      ∙ ap (λ (n : ℕ). n + length (values_bytes k vs ++ rest)) (length-big_endian 2 (length vs)) in
    let read : read_u16 (counted vs (values_bytes k vs) ++ rest)
        ≡ some (length vs, values_bytes k vs ++ rest) =
      ap read_u16 front ∙ read_u16-big_endian (length vs) _ (omega arith) in
    ground (arith, read, read_values-bytes reader k bound vs rest r a)
