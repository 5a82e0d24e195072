-- ===== src/AudioIo.antt =====
-- include/distributed_audio/audio_io.hpp and src/audio_io.cpp: the audio devices. The texts of the errors
-- are left out, a result is its error code.
pub mod Capture
pub mod Playback
pub mod Mock
use distributed_audio_system.Audio.{AudioFormat, AudioFrame, bytes_per_frame, format_is_valid}
use distributed_audio_system.Impairment.{contains}
use distributed_audio_system.Prelude.{Bool, List, leb, length, max, ℕ, ◌&&◌, ◌/◌, ◌==◌}

-- `no_error` is the source's `none`.
pub data AudioIoError : Type 0 where
  no_error backend_unavailable no_device invalid_device : AudioIoError
  unsupported_format device_open_failed stream_start_failed stream_stopped : AudioIoError

-- The strings are their bytes.
pub record AudioDeviceInfo : Type 0 where
  pub id : List ℕ
  pub name : List ℕ
  pub input_channels : ℕ
  pub output_channels : ℕ
  pub sample_rates : List ℕ
  pub default_input : Bool
  pub default_output : Bool

unfoldable pub supports_format : AudioDeviceInfo → AudioFormat → Bool
supports_format device format =
    format_is_valid format
    && leb format.channel_count (max device.input_channels device.output_channels)
    && contains device.sample_rates format.sample_rate
    && format.bits_per_sample == 16

-- The samples of each channel that a frame holds; the constructor of a frame makes the divisor positive.
abbrev pub samples_per_channel : AudioFrame → ℕ
samples_per_channel frame = length frame.payload / bytes_per_frame frame.format
