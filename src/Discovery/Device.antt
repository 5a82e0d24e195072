-- ===== src/Discovery/Device.antt =====
-- `DeviceInfo` and `check_compatibility` of src/device_discovery.cpp. A string is the list of its bytes.
use distributed_audio_system.Identity.{DeviceId}
use distributed_audio_system.Prelude.{
  Bool, Bool-cases, List, Option, [], arith, false, has_value, if◌then◌else◌, inl, inr, none, some,
  true, ℕ, ◌&&◌, ◌==◌, ◌||◌, ◌∷◌, ◌≡◌,
}

pub record DeviceInfo : Type 0 where
  pub id : DeviceId
  pub name : List ℕ
  pub protocol_version : ℕ
  pub address : List ℕ
  pub sample_rates : List ℕ
  pub channel_counts : List ℕ
  pub bits_per_sample : List ℕ
  pub audio_port : ℕ
  pub discovery_port : ℕ

-- `contains_rate`, `contains_channel` and the `std::find` of `supported`.
unfoldable pub contains : List ℕ → ℕ → Bool
contains [] value = false
contains (v ∷ values) value = v == value || contains values value

-- The loops of `check_compatibility`: the first value of `mine` (`first` in the source) that `theirs`
-- (`second`) has.
unfoldable pub first_common : List ℕ → List ℕ → Option ℕ
first_common [] theirs = none
first_common (v ∷ mine) theirs = if contains theirs v then some v else first_common mine theirs

-- The text of the reason is left out.
pub record CompatibilityResult : Type 0 where
  pub compatible : Bool
  pub sample_rate : Option ℕ
  pub channels : Option ℕ
  pub bits_per_sample : Option ℕ

unfoldable pub check_compatibility : DeviceInfo → DeviceInfo → CompatibilityResult
check_compatibility mine theirs =
    let sample_rate = first_common mine.sample_rates theirs.sample_rates in
    let channels = first_common mine.channel_counts theirs.channel_counts in
    let bits_per_sample = first_common mine.bits_per_sample theirs.bits_per_sample in
    record {
      compatible = has_value sample_rate && has_value channels && has_value bits_per_sample;
      sample_rate = sample_rate;
      channels = channels;
      bits_per_sample = bits_per_sample;
    }

pub first_common_lem :
    (mine theirs : List ℕ) (v : ℕ)
    → first_common mine theirs ≡ some v
    → (contains mine v ≡ true) × (contains theirs v ≡ true)
unfolding first_common contains
first_common_lem [] theirs v e = cc
first_common_lem (x ∷ mine) theirs v e = elim (Bool-cases (contains theirs x)) [
  | inl found ↦ (ground (arith, found), ground (arith, found))
  | inr other ↦
      let (a, b) = first_common_lem mine theirs v (ground (arith, other)) in (ground (arith, a), b)
]

pub first_common-none :
    (mine theirs : List ℕ) (v : ℕ)
    → first_common mine theirs ≡ none
    → contains mine v ≡ true
    → contains theirs v ≡ false
unfolding first_common contains
first_common-none [] theirs v e h = cc
first_common-none (x ∷ mine) theirs v e h = elim (Bool-cases (contains theirs x)) [
  | inl found ↦ absurd (ground (arith, found))
  | inr other ↦ ground (arith, other, first_common-none mine theirs v)
]
