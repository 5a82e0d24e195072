-- ===== src/Samples/Stereo.antt =====
-- The conversions of channels of src/channel_mixer.cpp, one after the other.
use distributed_audio_system.Audio.{AudioFormat, format_is_valid}
use distributed_audio_system.Float.{Float}
use distributed_audio_system.Float.Laws.{FloatLaws, Normalized}
use distributed_audio_system.Prelude.{
  All, List, [], ap, ap₂, arith, length, ok, refl, true, ◌%◌, ◌*◌, ◌∙◌, ◌∷◌, ◌≡◌,
}
use distributed_audio_system.Samples.{clamp_normalized_sample}
use distributed_audio_system.Samples.Channels.{averaged, convert_channels, doubled}
use distributed_audio_system.Samples.Range.{clamp_normalized_sample_kept}

stereo_valid :
    (format : AudioFormat)
    → format_is_valid format ≡ true
    → format_is_valid (record format { channel_count = 2 }) ≡ true
unfolding format_is_valid
stereo_valid format valid = ground (arith, valid)

module _ {ℓ} {F : Type ℓ} ⦃f : Float F⦄ where
  pub length-doubled : (xs : List F) → length (doubled xs) ≡ 2 * length xs
  unfolding doubled
  length-doubled [] = refl
  length-doubled (x ∷ xs) = omega (arith, length-doubled xs)

  pub length-averaged : (xs : List F) → length xs % 2 ≡ 0 → 2 * length (averaged xs) ≡ length xs
  unfolding averaged
  length-averaged [] h = refl
  length-averaged (x ∷ []) h = absurd (omega (arith, h))
  length-averaged (x ∷ y ∷ xs) h = omega (arith, length-averaged xs (omega (arith, h)))

  module _ ⦃laws : FloatLaws F⦄ where
    averaged-doubled : (xs : List F) → All Normalized xs → averaged (doubled xs) ≡ xs
    unfolding averaged doubled
    averaged-doubled [] h = refl
    averaged-doubled (x ∷ xs) h =
        ap₂ ◌∷◌
          (ap clamp_normalized_sample (laws.half_of_double x h.0.above h.0.under)
            ∙ clamp_normalized_sample_kept x h.0)
          (averaged-doubled xs h.1)

    -- Samples between -1 and 1 that are brought from one channel to two, and back to one, are what they were.
    -- The format of the samples is valid, and the floating-point type has the laws of `FloatLaws`.
    pub convert_channels-convert_channels :
        (samples : List F) (format : AudioFormat)
        → format_is_valid format ≡ true
        → format.channel_count ≡ 1
        → All Normalized samples
        → (wide : List F) × (convert_channels samples format 2 ≡ ok wide)
          × (length wide ≡ 2 * length samples)
          × (convert_channels wide (record format { channel_count = 2 }) 1 ≡ ok samples)
    unfolding convert_channels
    convert_channels-convert_channels samples format valid mono h =
        let size = length-doubled samples in
        let one_whole : length samples % 1 ≡ 0 = omega arith in
        let two_whole : length (doubled samples) % 2 ≡ 0 = omega (arith, size) in
        let stereo : format_is_valid (record format { channel_count = 2 }) ≡ true =
          stereo_valid format valid in
        (
          doubled samples,
          rw (valid, mono, one_whole) refl,
          size,
          rw (stereo, two_whole, averaged-doubled samples h) refl,
        )
