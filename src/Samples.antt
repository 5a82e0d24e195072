-- ===== src/Samples.antt =====
-- src/pcm_conversion.cpp: samples as 16-bit integers and as floating-point numbers, of a type that is a
-- parameter.
pub mod Channels
pub mod Gain
pub mod Mixer
pub mod Meter
pub mod Pipeline
pub mod Payload
pub mod Range
pub mod Stereo
pub mod Sums
pub mod Levels
pub mod Output
mod Tests
use Prim.Native.Nat.{bit_or}
use distributed_audio_system.Audio.{AudioFormat, AudioFrame, format_is_valid}
use distributed_audio_system.Float.{Float, clamp, number, one_float, zero_float}
use distributed_audio_system.Prelude.{
  List, Result, [], err, if◌then◌else◌, length, ltb, not, ok, ℕ, ◌%◌, ◌*◌, ◌++◌, ◌-◌, ◌/◌, ◌==◌,
  ◌^◌, ◌||◌, ◌∷◌,
}
use distributed_audio_system.Prelude.Int.{ltb_ℤ, negsuc, pos, ℤ}

-- The exceptions of the functions on samples.
pub data SampleError : Type 0 where
  invalid_format incomplete_samples unaligned_payload : SampleError
  unsupported_conversion invalid_gain incompatible_inputs : SampleError

-- The conversion of an integer to `std::uint16_t`.
abbrev pub to_u16 : ℤ → ℕ
to_u16 (pos n) = n % 2 ^ 16
to_u16 (negsuc n) = 2 ^ 16 - 1 - n % 2 ^ 16

-- The conversion of a `std::uint16_t` to `std::int16_t`.
abbrev pub to_i16 : ℕ → ℤ
to_i16 n = if ltb n (2 ^ 15) then pos n else negsuc (2 ^ 16 - 1 - n)

-- The conversion of a `long` to `int`.
abbrev pub to_int : ℤ → ℤ
to_int (pos n) =
    let low = n % 2 ^ 32 in if ltb low (2 ^ 31) then pos low else negsuc (2 ^ 32 - 1 - low)
to_int (negsuc n) =
    let low = n % 2 ^ 32 in if ltb low (2 ^ 31) then negsuc low else pos (2 ^ 32 - 1 - low)

-- std::clamp on `int`.
abbrev pub clamp_int : ℤ → ℤ → ℤ → ℤ
clamp_int a low high = if ltb_ℤ a low then low else if ltb_ℤ high a then high else a

-- Two bytes, the lower one first, as a sample.
abbrev pub sample_of : ℕ → ℕ → ℤ
sample_of low high = to_i16 (bit_or low (high * 2 ^ 8) % 2 ^ 16)

abbrev pub bytes_of : ℤ → List ℕ
bytes_of value = to_u16 value % 256 ∷ to_u16 value / 2 ^ 8 % 256 ∷ []

module _ {ℓ} {F : Type ℓ} ⦃f : Float F⦄ where
  unfoldable pub clamp_normalized_sample : F → F
  clamp_normalized_sample sample =
      if f.is_nan sample then zero_float else clamp sample (f.literal (negsuc 0) 0) one_float

  -- The loop of `pcm16_to_float`; the number of bytes is even.
  unfoldable pub samples_of : List ℕ → List F
  samples_of [] = []
  samples_of (low ∷ []) = []
  samples_of (low ∷ high ∷ rest) =
      f.over (f.of_int (sample_of low high)) (number 32_768) ∷ samples_of rest

  unfoldable pub pcm16_to_float : AudioFrame → Result SampleError (List F)
  pcm16_to_float frame =
      if not (format_is_valid frame.format) || not (frame.format.bits_per_sample == 16)
      then err invalid_format
      else if not (length frame.payload % 2 == 0)
      then err incomplete_samples
      else ok (samples_of frame.payload)

  -- A sample as an `std::int16_t`.
  unfoldable pub scaled_sample : F → ℤ
  scaled_sample sample =
      let clamped = clamp_normalized_sample sample in
      let scaled =
        if f.at_most clamped (f.literal (negsuc 0) 0)
        then negsuc 32_767
        else to_int (f.rounded (f.times clamped (number 32_767))) in
      clamp_int scaled (negsuc 32_767) (pos 32_767)

  -- The loop of `float_to_pcm16`.
  unfoldable pub payload_of : List F → List ℕ
  payload_of [] = []
  payload_of (sample ∷ rest) = bytes_of (scaled_sample sample) ++ payload_of rest

  unfoldable pub float_to_pcm16 : List F → AudioFormat → Result SampleError (List ℕ)
  float_to_pcm16 samples format =
      let payload = payload_of samples in
      if not (format_is_valid format) || not (format.bits_per_sample == 16)
      then err invalid_format
      else if not (length samples % format.channel_count == 0)
      then err incomplete_samples
      else if not (length payload % (format.channel_count * 2) == 0)
      then err unaligned_payload
      else ok payload
