-- ===== src/Samples/Channels.antt =====
-- src/channel_mixer.cpp.
use distributed_audio_system.Audio.{AudioFormat, format_is_valid}
use distributed_audio_system.Float.{Float}
use distributed_audio_system.Prelude.{
  List, Result, [], err, if◌then◌else◌, length, not, ok, ℕ, ◌%◌, ◌&&◌, ◌==◌, ◌||◌, ◌∷◌,
}
use distributed_audio_system.Prelude.Int.{pos}
use distributed_audio_system.Samples.{SampleError, clamp_normalized_sample, unsupported_conversion}

module _ {ℓ} {F : Type ℓ} ⦃f : Float F⦄ where
  -- Every sample twice.
  unfoldable pub doubled : List F → List F
  doubled [] = []
  doubled (sample ∷ rest) = sample ∷ sample ∷ doubled rest

  -- The mean of every two samples; their number is even.
  unfoldable pub averaged : List F → List F
  averaged [] = []
  averaged (left ∷ []) = []
  averaged (left ∷ right ∷ rest) =
      clamp_normalized_sample (f.times (f.plus left right) (f.literal (pos 5) 1)) ∷ averaged rest

  unfoldable pub convert_channels : List F → AudioFormat → ℕ → Result SampleError (List F)
  convert_channels samples input_format output_channels =
      let channels = input_format.channel_count in
      if not (format_is_valid input_format)
        || output_channels == 0
        || not (channels == 1) && not (channels == 2)
        || not (length samples % channels == 0)
      then err unsupported_conversion
      else if channels == output_channels
      then ok samples
      else if channels == 1 && output_channels == 2
      then ok (doubled samples)
      else if channels == 2 && output_channels == 1
      then ok (averaged samples)
      else err unsupported_conversion
