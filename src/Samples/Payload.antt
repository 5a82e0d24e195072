-- ===== src/Samples/Payload.antt =====
-- The bytes that `float_to_pcm16` of src/pcm_conversion.cpp writes.
use native.Mathlib.Nat.{mod-add-div', mul-mod_left}
use distributed_audio_system.Audio.{AudioFormat, audio_frame, bytes_per_frame, format_is_valid}
use distributed_audio_system.Bytes.{IsByte}
use distributed_audio_system.Float.{Float}
use distributed_audio_system.Prelude.{
  All, List, [], arith, length, ok, refl, true, ℕ, ◌%◌, ◌*◌, ◌/◌, ◌∷◌, ◌≡◌,
}
use distributed_audio_system.Prelude.Int.{ℤ}
use distributed_audio_system.Samples.{float_to_pcm16, payload_of}

doubled_aligned : (n m c : ℕ) → n % c ≡ 0 → m ≡ 2 * n → m % (c * 2) ≡ 0
doubled_aligned n m c h e =
    let divided_ : n / c * c ≡ n = omega (arith, h, mod-add-div' n c) in
    let whole : m ≡ n / c * (c * 2) = omega (arith, divided_, e) in
    rw whole (mul-mod_left (n / c) (c * 2))

module _ {ℓ} {F : Type ℓ} ⦃f : Float F⦄ where
  pub length-payload_of : (samples : List F) → length (payload_of samples) ≡ 2 * length samples
  unfolding payload_of
  length-payload_of [] = refl
  length-payload_of (sample ∷ rest) = omega (arith, length-payload_of rest)

  payload_of-IsByte : (samples : List F) → All IsByte (payload_of samples)
  unfolding payload_of
  payload_of-IsByte [] = tt
  payload_of-IsByte (sample ∷ rest) = (omega arith, (omega arith, payload_of-IsByte rest))

  -- For a valid format of 16 bits and samples that fill its channels, the conversion to bytes succeeds,
  -- whatever the samples are: it writes two bytes for each sample, its own test of the alignment never fails,
  -- and the constructor of a frame takes what it wrote.
  pub float_to_pcm16-audio_frame :
      (samples : List F) (format : AudioFormat) (sequence : ℕ) (timestamp : ℤ)
      → format_is_valid format ≡ true
      → format.bits_per_sample ≡ 16
      → length samples % format.channel_count ≡ 0
      → (payload : List ℕ) × (float_to_pcm16 samples format ≡ ok payload)
        × (length payload ≡ 2 * length samples)
        × All IsByte payload
        × (audio_frame format sequence timestamp payload
            ≡ ok (record {
              format = format;
              sequence_number = sequence;
              timestamp = timestamp;
              payload = payload;
            }))
  unfolding float_to_pcm16 audio_frame format_is_valid bytes_per_frame
  float_to_pcm16-audio_frame samples format sequence timestamp valid bits whole =
      let size = length-payload_of samples in
      let aligned : length (payload_of samples) % (format.channel_count * 2) ≡ 0 =
        doubled_aligned (length samples) (length (payload_of samples)) format.channel_count whole
          size in
      let two : format.bits_per_sample / 8 ≡ 2 = rw bits refl in
      (
        payload_of samples,
        ground (arith, valid, bits, whole, aligned),
        size,
        payload_of-IsByte samples,
        ground (arith, valid, bits, two, aligned),
      )
