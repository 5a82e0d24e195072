-- ===== src/Samples/Output.antt =====
-- What comes out of the pipeline of src/dsp_pipeline.cpp.
pub mod Sizes
use distributed_audio_system.Audio.{AudioFormat, AudioFrame, format_is_valid}
use distributed_audio_system.Audio.Laws.{IsFrame}
use distributed_audio_system.Float.{Float, zero_float}
use distributed_audio_system.Float.Laws.{FloatLaws, Normalized}
use distributed_audio_system.Prelude.{
  All, Bool-cases, List, ap, false, inl, inr, length, length-replicate, ok, refl, replicate, true,
  ◌%◌, ◌*◌, ◌∙◌, ◌≡◌,
}
use distributed_audio_system.Samples.{clamp_normalized_sample, pcm16_to_float, samples_of}
use distributed_audio_system.Samples.Gain.{GainProcessor, apply_gain}
use distributed_audio_system.Samples.Levels.{Overall, measure_from-Overall, zero-Overall}
use distributed_audio_system.Samples.Meter.{PeakLevels, measure, measure_from}
use distributed_audio_system.Samples.Mixer.{ProcessedAudio}
use distributed_audio_system.Samples.Output.Sizes.{
  MonoOrStereo, even_length, length-samples_of, samples_whole, sizes_lem, valid_channels, wanted,
  with_channels-Brought,
}
use distributed_audio_system.Samples.Pipeline.{DspPipeline, amplify, process}
use distributed_audio_system.Samples.Range.{length-map, map_clamp-Normalized}

module _ {ℓ} {F : Type ℓ} ⦃f : Float F⦄ where
  pub pcm16_to_float_lem :
      (frame : AudioFrame)
      → format_is_valid frame.format ≡ true
      → frame.format.bits_per_sample ≡ 16
      → length frame.payload % 2 ≡ 0
      → pcm16_to_float {F = F} frame ≡ ok (samples_of frame.payload)
  unfolding pcm16_to_float
  pcm16_to_float_lem frame valid bits even = rw (valid, bits, even) refl

  length-apply_gain : (g : GainProcessor F) (xs : List F) → length (apply_gain g xs) ≡ length xs
  unfolding apply_gain
  length-apply_gain g xs = elim (Bool-cases g.bypassed) [
    | inl off ↦ rw off refl
    | inr on ↦ rw on (length-map (λ x. clamp_normalized_sample (f.times x g.linear_gain)) xs)
  ]

  measure_lem :
      (samples : List F) (format : AudioFormat)
      → format_is_valid format ≡ true
      → length samples % format.channel_count ≡ 0
      → measure samples format
        ≡ ok (
            measure_from format.channel_count 0 samples (record {
              per_channel = replicate format.channel_count zero_float;
              overall = zero_float;
            }))
  unfolding measure
  measure_lem samples format valid whole = rw (valid, whole) refl

  module _ ⦃laws : FloatLaws F⦄ where
    apply_gain-Normalized :
        (g : GainProcessor F) (xs : List F) → g.bypassed ≡ false → All Normalized (apply_gain g xs)
    unfolding apply_gain
    apply_gain-Normalized g xs on = rw on (map_clamp-Normalized (λ x. f.times x g.linear_gain) xs)

    amplify-Overall :
        (g : GainProcessor F) (audio : ProcessedAudio F)
        → g.bypassed ≡ false
        → format_is_valid audio.format ≡ true
        → length audio.samples % audio.format.channel_count ≡ 0
        → (samples : List F) × (peaks : PeakLevels F) × (amplify g audio
            ≡ ok (record { audio = record audio { samples = samples }; peaks = peaks }))
          × (length samples ≡ length audio.samples)
          × All Normalized samples
          × Overall peaks
          × All (λ x. f.at_most (f.magnitude x) peaks.overall ≡ true) samples
          × (length peaks.per_channel ≡ audio.format.channel_count)
    unfolding amplify
    amplify-Overall g audio on valid whole =
        let gained = apply_gain g audio.samples in
        let size = length-apply_gain g audio.samples in
        let range = apply_gain-Normalized g audio.samples on in
        let channels = audio.format.channel_count in
        let zeros : PeakLevels F = record {
          per_channel = replicate channels zero_float;
          overall = zero_float;
        } in
        let (peaks, rises, over, width) =
          measure_from-Overall channels 0 gained zeros range (zero-Overall channels) in
        let aligned : length gained % channels ≡ 0 = ap (λ n. n % channels) size ∙ whole in
        (
          gained,
          measure_from channels 0 gained zeros,
          rw (measure_lem gained audio.format valid aligned, amplify) refl,
          size,
          range,
          peaks,
          over,
          width ∙ length-replicate channels zero_float,
        )

    -- A frame of 16-bit samples in one or two channels, which the constructor of a frame let through, passes the
    -- pipeline, when that is to hand out as many channels as the frame has, or one or two, and its gain is not
    -- bypassed: the result has the wanted channels, and as many samples for each of them as the frame has; whatever
    -- the gain is, the samples are between -1 and 1; and the overall level is not below any of them and not
    -- below the level of any of the channels, and at most 1. The floating-point type has the laws of `FloatLaws`.
    pub process-Overall :
        (p : DspPipeline F) (frame : AudioFrame)
        → IsFrame frame
        → frame.format.bits_per_sample ≡ 16
        → p.gain.bypassed ≡ false
        → MonoOrStereo frame.format.channel_count
        → MonoOrStereo (wanted p.output_channels frame.format.channel_count)
        → let n = wanted p.output_channels frame.format.channel_count in
          (samples : List F) × (peaks : PeakLevels F) × (process p frame
            ≡ ok (record {
              audio = record {
                format = record frame.format { channel_count = n };
                sequence_number = frame.sequence_number;
                timestamp = frame.timestamp;
                samples = samples;
              };
              peaks = peaks;
            }))
          × (2 * (frame.format.channel_count * length samples) ≡ n * length frame.payload)
          × All Normalized samples
          × Overall peaks
          × All (λ x. f.at_most (f.magnitude x) peaks.overall ≡ true) samples
          × (length peaks.per_channel ≡ n)
    unfolding process
    process-Overall p frame v bits on c d =
        let valid = v.valid in
        let channels = frame.format.channel_count in
        let even : length frame.payload % 2 ≡ 0 = even_length frame v bits in
        let size = length-samples_of F frame.payload even in
        let first_samples : List F = samples_of frame.payload in
        let whole : length first_samples % channels ≡ 0 =
          samples_whole frame (length first_samples) v bits size in
        let audio : ProcessedAudio F = record {
          format = frame.format;
          sequence_number = frame.sequence_number;
          timestamp = frame.timestamp;
          samples = first_samples;
        } in
        let (brought, with_eq, sizes, aligned) =
          with_channels-Brought p.output_channels audio valid whole c d in
        let n = wanted p.output_channels channels in
        let changed : ProcessedAudio F = record audio {
          samples = brought;
          format = record frame.format { channel_count = n };
        } in
        let (samples, peaks, amp_eq, kept, range, rises, over, width) =
          amplify-Overall p.gain changed on (valid_channels frame.format n valid d) aligned in
        (
          samples,
          peaks,
          rw (pcm16_to_float_lem frame valid bits even, process) (rw with_eq amp_eq),
          sizes_lem channels (length samples) (length brought) n (length first_samples)
              (length frame.payload) kept sizes size,
          range,
          rises,
          over,
          width,
        )
