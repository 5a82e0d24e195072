-- ===== src/Samples/Output/Sizes.antt =====
-- The numbers of samples and channels in the pipeline of src/dsp_pipeline.cpp.
use native.Mathlib.Nat.{mod-add-div', mul-mod_left}
use distributed_audio_system.Audio.{AudioFormat, AudioFrame, bytes_per_frame, format_is_valid}
use distributed_audio_system.Audio.Laws.{IsFrame}
use distributed_audio_system.Float.{Float}
use distributed_audio_system.Prelude.{
  Bool-cases, List, Option, Result, [], ap, arith, inl, inr, length, none, ok, refl, some, sym,
  true, ℕ, ◌%◌, ◌*◌, ◌/◌, ◌==◌, ◌∙◌, ◌∷◌, ◌≡◌, ◌⊎◌,
}
use distributed_audio_system.Samples.{SampleError, samples_of}
use distributed_audio_system.Samples.Channels.{averaged, convert_channels, doubled}
use distributed_audio_system.Samples.Mixer.{ProcessedAudio}
use distributed_audio_system.Samples.Pipeline.{with_channels}
use distributed_audio_system.Samples.Stereo.{length-averaged, length-doubled}

-- The number of channels that a pipeline hands out.
abbrev pub wanted : Option ℕ → ℕ → ℕ
wanted none channels = channels
wanted (some n) channels = n

abbrev pub MonoOrStereo : ℕ → Type 0
MonoOrStereo channels = (channels ≡ 1) ⊎ (channels ≡ 2)

pub length-samples_of {ℓ} :
    (F : Type ℓ) ⦃f : Float F⦄ (bytes : List ℕ)
    → length bytes % 2 ≡ 0
    → 2 * length (samples_of {F = F} bytes) ≡ length bytes
unfolding samples_of
length-samples_of F [] h = refl
length-samples_of F (low ∷ []) h = absurd (omega (arith, h))
length-samples_of F (low ∷ high ∷ rest) h =
    omega (arith, length-samples_of F rest (omega (arith, h)))

-- The bytes of a frame of 16-bit samples are a multiple of the channels, twice over.
frame_parts :
    (frame : AudioFrame)
    → IsFrame frame
    → frame.format.bits_per_sample ≡ 16
    → let c = frame.format.channel_count in
      length frame.payload / (c * 2) * (c * 2) ≡ length frame.payload
unfolding bytes_per_frame
frame_parts frame v bits =
    let c = frame.format.channel_count in
    let aligned : length frame.payload % (c * 2) ≡ 0 =
      ap (λ b. length frame.payload % (c * (b / 8))) (sym bits) ∙ v.aligned in
    omega (arith, aligned, mod-add-div' (length frame.payload) (c * 2))

pub even_length :
    (frame : AudioFrame)
    → IsFrame frame
    → frame.format.bits_per_sample ≡ 16
    → length frame.payload % 2 ≡ 0
even_length frame v bits = omega (arith, frame_parts frame v bits)

pub samples_whole :
    (frame : AudioFrame) (n : ℕ)
    → IsFrame frame
    → frame.format.bits_per_sample ≡ 16
    → 2 * n ≡ length frame.payload
    → n % frame.format.channel_count ≡ 0
samples_whole frame n v bits e =
    let c = frame.format.channel_count in
    let sets = length frame.payload / (c * 2) in
    let twice : 2 * n ≡ sets * (c * 2) = e ∙ sym (frame_parts frame v bits) in
    let once : n ≡ sets * c = omega (arith, twice) in rw once (mul-mod_left sets c)

pub sizes_lem : (c k l n m b : ℕ) → k ≡ l → c * l ≡ n * m → 2 * m ≡ b → 2 * (c * k) ≡ n * b
sizes_lem c k l n m b p q r = rw (p, ← r) (omega (arith, q))

pub valid_channels :
    (format : AudioFormat) (n : ℕ)
    → format_is_valid format ≡ true
    → MonoOrStereo n
    → format_is_valid (record format { channel_count = n }) ≡ true
unfolding format_is_valid
valid_channels format n valid (inl e) = ground (arith, valid, e)
valid_channels format n valid (inr e) = ground (arith, valid, e)

module _ {ℓ} {F : Type ℓ} ⦃f : Float F⦄ where
  -- The samples of an audio whose number of channels is `channels`, brought to `n` channels.
  abbrev Brought : ProcessedAudio F → ℕ → Result SampleError (List F) → Type ℓ
  Brought audio n result =
      (samples : List F) × (result ≡ ok samples)
      × (audio.format.channel_count * length samples ≡ n * length audio.samples)
      × (length samples % n ≡ 0)

  convert_channels-Brought :
      (audio : ProcessedAudio F) (n : ℕ)
      → format_is_valid audio.format ≡ true
      → length audio.samples % audio.format.channel_count ≡ 0
      → MonoOrStereo audio.format.channel_count
      → MonoOrStereo n
      → Brought audio n (convert_channels audio.samples audio.format n)
  unfolding convert_channels
  convert_channels-Brought audio n valid whole (inl c) (inl d) =
      let every : length audio.samples % 1 ≡ 0 = omega arith in
      (audio.samples, rw (valid, c, d, every) refl, rw (c, d) refl, omega arith)
  convert_channels-Brought audio n valid whole (inl c) (inr d) =
      let every : length audio.samples % 1 ≡ 0 = omega arith in
      let size = length-doubled audio.samples in
      (
        doubled audio.samples,
        rw (valid, c, d, every) refl,
        rw (c, d) (omega (arith, size)),
        rw d (omega (arith, size)),
      )
  convert_channels-Brought audio n valid whole (inr c) (inl d) =
      let even : length audio.samples % 2 ≡ 0 =
        ap (λ k. length audio.samples % k) (sym c) ∙ whole in
      let size = length-averaged audio.samples even in
      (
        averaged audio.samples,
        rw (valid, c, d, even) refl,
        rw (c, d) (omega (arith, size)),
        rw d (omega arith),
      )
  convert_channels-Brought audio n valid whole (inr c) (inr d) =
      let even : length audio.samples % 2 ≡ 0 =
        ap (λ k. length audio.samples % k) (sym c) ∙ whole in
      (audio.samples, rw (valid, c, d, even) refl, rw (c, d) refl, rw d even)

  pub with_channels-Brought :
      (o : Option ℕ) (audio : ProcessedAudio F)
      → format_is_valid audio.format ≡ true
      → length audio.samples % audio.format.channel_count ≡ 0
      → MonoOrStereo audio.format.channel_count
      → MonoOrStereo (wanted o audio.format.channel_count)
      → let n = wanted o audio.format.channel_count in
        (samples : List F) × (with_channels o audio
          ≡ ok (record audio {
            samples = samples;
            format = record audio.format { channel_count = n };
          }))
        × (audio.format.channel_count * length samples ≡ n * length audio.samples)
        × (length samples % n ≡ 0)
  unfolding with_channels
  with_channels-Brought none audio valid whole c d = (audio.samples, refl, refl, whole)
  with_channels-Brought (some n) audio valid whole c d =
      elim (Bool-cases (n == audio.format.channel_count)) [
        | inl same ↦
            let e : n ≡ audio.format.channel_count = ground (arith, same) in
            (
              audio.samples,
              rw same (
                  ap (λ k. ok (record audio { format = record audio.format { channel_count = k } }))
                    (sym e)),
              ap (λ k. k * length audio.samples) (sym e),
              ap (λ k. length audio.samples % k) e ∙ whole,
            )
        | inr other ↦
            let (samples, e, size, aligned) = convert_channels-Brought audio n valid whole c d in
            (samples, rw (other, e) refl, size, aligned)
      ]
