-- ===== src/Samples/Mixer.antt =====
-- src/audio_mixer.cpp.
use distributed_audio_system.Audio.{AudioFormat, format_eq, format_is_valid}
use distributed_audio_system.Float.{Float, zero_float}
use distributed_audio_system.Prelude.{
  List, Option, Result, [], err, if◌then◌else◌, length, map, none, not, ok, replicate, some, ℕ,
  ◌==◌, ◌||◌, ◌∷◌,
}
use distributed_audio_system.Prelude.Int.{ℤ}
use distributed_audio_system.Samples.{
  SampleError, clamp_normalized_sample, incompatible_inputs, invalid_format,
}

pub record ProcessedAudio {ℓ} (F : Type ℓ) : Type ℓ where
  pub format : AudioFormat
  pub sequence_number : ℕ
  pub timestamp : ℤ
  pub samples : List F

module _ {ℓ} {F : Type ℓ} ⦃f : Float F⦄ where
  -- The samples of an input are added one by one; the lists have the same length.
  unfoldable pub add_samples : List F → List F → List F
  add_samples [] ys = []
  add_samples (x ∷ xs) [] = x ∷ xs
  add_samples (x ∷ xs) (y ∷ ys) = f.plus x y ∷ add_samples xs ys

  -- The loop over the inputs, from the sums of those before.
  unfoldable pub sum_inputs :
      ProcessedAudio F → List F → List (ProcessedAudio F) → Result SampleError (List F)
  sum_inputs head sums [] = ok sums
  sum_inputs head sums (input ∷ rest) =
      let total = sum_inputs head (add_samples sums input.samples) rest in
      if not (format_eq input.format head.format)
        || not (length input.samples == length head.samples)
      then err incompatible_inputs
      else total

  unfoldable pub mix : List (ProcessedAudio F) → Result SampleError (Option (ProcessedAudio F))
  mix [] = ok none
  mix (head ∷ rest) =
      if not (format_is_valid head.format)
      then err invalid_format
      else elim (sum_inputs head (replicate (length head.samples) zero_float) (head ∷ rest)) [
        | err e ↦ err e
        | ok sums ↦ ok (some (record head { samples = map clamp_normalized_sample sums }))
      ]
