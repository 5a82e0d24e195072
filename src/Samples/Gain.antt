-- ===== src/Samples/Gain.antt =====
-- src/gain_processor.cpp.
use distributed_audio_system.Float.{Float, number, zero_float}
use distributed_audio_system.Prelude.{
  Bool, List, Result, err, false, if◌then◌else◌, map, not, ok, ◌||◌,
}
use distributed_audio_system.Samples.{SampleError, clamp_normalized_sample, invalid_gain}

pub record GainProcessor {ℓ} (F : Type ℓ) : Type ℓ where
  pub linear_gain : F
  pub bypassed : Bool

module _ {ℓ} {F : Type ℓ} ⦃f : Float F⦄ where
  unfoldable pub set_linear_gain : GainProcessor F → F → Result SampleError (GainProcessor F)
  set_linear_gain g linear_gain =
      if not (f.is_finite linear_gain) || f.below linear_gain zero_float
      then err invalid_gain
      else ok (record g { linear_gain = linear_gain })

  unfoldable pub gain_processor : F → Result SampleError (GainProcessor F)
  gain_processor linear_gain =
      set_linear_gain (record { linear_gain = linear_gain; bypassed = false }) linear_gain

  unfoldable pub decibels_to_linear : F → F
  decibels_to_linear decibels = f.power (number 10) (f.over decibels (number 20))

  unfoldable pub set_decibels : GainProcessor F → F → Result SampleError (GainProcessor F)
  set_decibels g decibels = set_linear_gain g (decibels_to_linear decibels)

  unfoldable pub set_bypass : GainProcessor F → Bool → GainProcessor F
  set_bypass g bypass = record g { bypassed = bypass }

  -- `process`.
  unfoldable pub apply_gain : GainProcessor F → List F → List F
  apply_gain g samples =
      if g.bypassed
      then samples
      else map (λ sample. clamp_normalized_sample (f.times sample g.linear_gain)) samples
