-- ===== src/Samples/Pipeline.antt =====
-- src/dsp_pipeline.cpp.
use distributed_audio_system.Audio.{AudioFrame}
use distributed_audio_system.Float.{Float}
use distributed_audio_system.Prelude.{Option, Result, err, if◌then◌else◌, none, ok, some, ℕ, ◌==◌}
use distributed_audio_system.Samples.{SampleError, pcm16_to_float}
use distributed_audio_system.Samples.Channels.{convert_channels}
use distributed_audio_system.Samples.Gain.{GainProcessor, apply_gain}
use distributed_audio_system.Samples.Meter.{PeakLevels, measure}
use distributed_audio_system.Samples.Mixer.{ProcessedAudio}

pub record DspPipeline {ℓ} (F : Type ℓ) : Type ℓ where
  pub gain : GainProcessor F
  pub output_channels : Option ℕ

pub record DspResult {ℓ} (F : Type ℓ) : Type ℓ where
  pub audio : ProcessedAudio F
  pub peaks : PeakLevels F

module _ {ℓ} {F : Type ℓ} ⦃f : Float F⦄ where
  -- The number of channels is changed, if another one is asked for.
  unfoldable pub with_channels : Option ℕ → ProcessedAudio F → Result SampleError (ProcessedAudio F)
  with_channels none audio = ok audio
  with_channels (some channels) audio =
      if channels == audio.format.channel_count
      then ok audio
      else elim (convert_channels audio.samples audio.format channels) [
        | err e ↦ err e
        | ok samples ↦ ok (record audio {
          samples = samples;
          format = record audio.format { channel_count = channels };
        })
      ]

  -- The gain is applied and the levels are measured.
  unfoldable pub amplify : GainProcessor F → ProcessedAudio F → Result SampleError (DspResult F)
  amplify gain audio =
      let samples = apply_gain gain audio.samples in
      elim (measure samples audio.format) [
        | err e ↦ err e
        | ok peaks ↦ ok (record { audio = record audio { samples = samples }; peaks = peaks })
      ]

  unfoldable pub process : DspPipeline F → AudioFrame → Result SampleError (DspResult F)
  process p frame = elim (pcm16_to_float {F = F} frame) [
    | err e ↦ err e
    | ok samples ↦
        elim (with_channels p.output_channels (record {
          format = frame.format;
          sequence_number = frame.sequence_number;
          timestamp = frame.timestamp;
          samples = samples;
        })) [ err e ↦ err e | ok audio ↦ amplify p.gain audio ]
  ]
