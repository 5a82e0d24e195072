-- ===== src/Samples/Tests.antt =====
-- Samples with a fixed point: 0.5, -0.25, and one out of range.
use distributed_audio_system.Audio.{
  AudioFormat, AudioFrame, audio_frame, bytes_per_frame, format_is_valid,
}
use distributed_audio_system.Audio.Laws.{IsFrame}
use distributed_audio_system.Bytes.{IsByte}
use distributed_audio_system.Float.{zero_float}
use distributed_audio_system.Float.Fixed.{fixed_float}
use distributed_audio_system.Float.Fixed.Laws.{fixed_laws}
use distributed_audio_system.Float.Laws.{Normalized}
use distributed_audio_system.Prelude.{
  All, List, [], arith, false, inl, inr, length, ok, refl, some, true, ℕ, ◌*◌, ◌<◌, ◌∷◌, ◌≡◌,
}
use distributed_audio_system.Prelude.Int.{negsuc, pos, ℤ, ◌*ℤ◌, ◌-ℤ◌}
use distributed_audio_system.Samples.{
  clamp_normalized_sample, float_to_pcm16, payload_of, pcm16_to_float, samples_of, scaled_sample,
}
use distributed_audio_system.Samples.Channels.{convert_channels}
use distributed_audio_system.Samples.Levels.{Overall}
use distributed_audio_system.Samples.Meter.{PeakLevels}
use distributed_audio_system.Samples.Mixer.{ProcessedAudio, mix}
use distributed_audio_system.Samples.Output.{process-Overall}
use distributed_audio_system.Samples.Payload.{float_to_pcm16-audio_frame}
use distributed_audio_system.Samples.Pipeline.{DspPipeline, process}
use distributed_audio_system.Samples.Stereo.{convert_channels-convert_channels}
use distributed_audio_system.Samples.Sums.{column_sum, mix-Compatible, sample_at}

abbrev half_up : ℤ
half_up = pos 16_384_000

abbrev quarter_down : ℤ
quarter_down = negsuc 8_191_999

abbrev mono : AudioFormat
mono = record { sample_rate = 48_000; channel_count = 1; bits_per_sample = 16 }

abbrev stereo : AudioFormat
stereo = record { sample_rate = 48_000; channel_count = 2; bits_per_sample = 16 }

written :
    float_to_pcm16 (half_up ∷ quarter_down ∷ pos 40_000_000 ∷ negsuc 32_767_999 ∷ []) mono
    ≡ ok (0 ∷ 64 ∷ 0 ∷ 224 ∷ 255 ∷ 127 ∷ 0 ∷ 128 ∷ [])
unfolding float_to_pcm16 payload_of scaled_sample clamp_normalized_sample format_is_valid ◌*ℤ◌ ◌-ℤ◌
written = refl

read_back :
    pcm16_to_float {F = ℤ} (record {
      format = mono;
      sequence_number = 0;
      timestamp = pos 0;
      payload = 0 ∷ 64 ∷ 0 ∷ 224 ∷ [];
    })
    ≡ ok (half_up ∷ quarter_down ∷ [])
unfolding pcm16_to_float samples_of format_is_valid ◌*ℤ◌ ◌-ℤ◌
read_back = refl

mono_valid : format_is_valid mono ≡ true
unfolding format_is_valid
mono_valid = refl

abbrev stereo_frame : AudioFrame
stereo_frame = record {
  format = stereo;
  sequence_number = 7;
  timestamp = pos 0;
  payload = 0 ∷ 64 ∷ 0 ∷ 224 ∷ [];
}

stereo_frame-IsFrame : IsFrame stereo_frame
unfolding format_is_valid bytes_per_frame
stereo_frame-IsFrame = record { valid = refl; whole = λ e. omega (arith, e); aligned = refl }

half-Normalized : Normalized half_up
unfolding ◌*ℤ◌ ◌-ℤ◌
half-Normalized = record { not_nan = refl; above = refl; under = refl }

quarter-Normalized : Normalized quarter_down
unfolding ◌*ℤ◌ ◌-ℤ◌
quarter-Normalized = record { not_nan = refl; above = refl; under = refl }

float_to_pcm16-audio_frame_example :
    (payload : List ℕ) × (float_to_pcm16 (half_up ∷ quarter_down ∷ []) mono ≡ ok payload)
    × (length payload ≡ 2 * length (half_up ∷ quarter_down ∷ []))
    × All IsByte payload
    × (audio_frame mono 1 (pos 0) payload
        ≡ ok (record { format = mono; sequence_number = 1; timestamp = pos 0; payload = payload }))
float_to_pcm16-audio_frame_example =
    float_to_pcm16-audio_frame (half_up ∷ quarter_down ∷ []) mono 1 (pos 0) mono_valid refl refl

convert_channels-convert_channels_example :
    (wide : List ℤ) × (convert_channels (half_up ∷ quarter_down ∷ []) mono 2 ≡ ok wide)
    × (length wide ≡ 2 * length (half_up ∷ quarter_down ∷ []))
    × (convert_channels wide (record mono { channel_count = 2 }) 1
        ≡ ok (half_up ∷ quarter_down ∷ []))
convert_channels-convert_channels_example =
    convert_channels-convert_channels (half_up ∷ quarter_down ∷ []) mono mono_valid refl
      (half-Normalized, (quarter-Normalized, tt))

-- One sample of a recording.
abbrev recorded : ℤ → ProcessedAudio ℤ
recorded level = record {
  format = mono;
  sequence_number = 1;
  timestamp = pos 0;
  samples = level ∷ [];
}

mix-Compatible_example :
    (samples : List ℤ) × (mix (recorded half_up ∷ recorded (pos 30_000_000) ∷ [])
      ≡ ok (some (record (recorded half_up) { samples = samples })))
    × (length samples ≡ 1)
    × All Normalized samples
    × ((i : ℕ)
        → i < 1
        → sample_at i samples
          ≡ clamp_normalized_sample
              (column_sum i zero_float (recorded half_up ∷ recorded (pos 30_000_000) ∷ [])))
mix-Compatible_example =
    mix-Compatible (recorded half_up) (recorded (pos 30_000_000) ∷ []) mono_valid
      (record { format = refl; size = refl }, tt)

abbrev to_mono : DspPipeline ℤ
to_mono = record {
  gain = record { linear_gain = pos 98_304_000; bypassed = false };
  output_channels = some 1;
}

process-Overall_example :
    (samples : List ℤ) × (peaks : PeakLevels ℤ) × (process to_mono stereo_frame
      ≡ ok (record {
        audio = record {
          format = record stereo_frame.format { channel_count = 1 };
          sequence_number = stereo_frame.sequence_number;
          timestamp = stereo_frame.timestamp;
          samples = samples;
        };
        peaks = peaks;
      }))
    × (2 * (stereo_frame.format.channel_count * length samples) ≡ 1 * length stereo_frame.payload)
    × All Normalized samples
    × Overall peaks
    × All (λ x. fixed_float.at_most (fixed_float.magnitude x) peaks.overall ≡ true) samples
    × (length peaks.per_channel ≡ 1)
process-Overall_example =
    process-Overall to_mono stereo_frame stereo_frame-IsFrame refl refl (inr refl) (inl refl)
