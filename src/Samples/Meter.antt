-- ===== src/Samples/Meter.antt =====
-- src/audio_meter.cpp.
use distributed_audio_system.Audio.{AudioFormat, format_is_valid}
use distributed_audio_system.Float.{Float, larger, zero_float}
use distributed_audio_system.Prelude.{
  List, Result, [], err, if◌then◌else◌, length, not, ok, replicate, suc, zero, ℕ, ◌%◌, ◌+◌, ◌==◌,
  ◌||◌, ◌∷◌,
}
use distributed_audio_system.Samples.{SampleError, invalid_format}

pub record PeakLevels {ℓ} (F : Type ℓ) : Type ℓ where
  pub per_channel : List F
  pub overall : F

module _ {ℓ} {F : Type ℓ} ⦃f : Float F⦄ where
  -- The level of one channel is raised.
  unfoldable pub raise_at : ℕ → F → List F → List F
  raise_at n level [] = []
  raise_at zero level (x ∷ xs) = larger x level ∷ xs
  raise_at (suc n) level (x ∷ xs) = x ∷ raise_at n level xs

  -- The loop of `measure` from an index on.
  unfoldable pub measure_from : ℕ → ℕ → List F → PeakLevels F → PeakLevels F
  measure_from channels index [] levels = levels
  measure_from channels index (sample ∷ rest) levels =
      measure_from channels (index + 1) rest (record {
        per_channel = raise_at (index % channels) (f.magnitude sample) levels.per_channel;
        overall = larger levels.overall (f.magnitude sample);
      })

  unfoldable pub measure : List F → AudioFormat → Result SampleError (PeakLevels F)
  measure samples format =
      if not (format_is_valid format) || not (length samples % format.channel_count == 0)
      then err invalid_format
      else ok (
          measure_from format.channel_count 0 samples (record {
            per_channel = replicate format.channel_count zero_float;
            overall = zero_float;
          }))
