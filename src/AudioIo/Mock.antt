-- ===== src/AudioIo/Mock.antt =====
-- The mock devices and backend of src/audio_io.cpp.
pub mod Loopback
mod Tests
use distributed_audio_system.Audio.{AudioFormat, AudioFrame, FrameError, audio_frame, format_eq}
use distributed_audio_system.AudioIo.{
  AudioDeviceInfo, AudioIoError, device_open_failed, no_error, stream_stopped, supports_format,
  unsupported_format,
}
use distributed_audio_system.Prelude.{
  Bool, List, Option, Result, [], false, if◌then◌else◌, list_eq, none, not, replicate, some, true,
  ℕ, ◌*◌, ◌||◌, ◌∷◌,
}
use distributed_audio_system.Prelude.Int.{pos}
use distributed_audio_system.Sequence.{add_u64}

pub record MockInput : Type 0 where
  pub info : AudioDeviceInfo
  pub format : AudioFormat
  pub sequence : ℕ
  pub opened : Bool
  pub running : Bool

pub record MockOutput : Type 0 where
  pub info : AudioDeviceInfo
  pub format : AudioFormat
  pub played_frames : ℕ
  pub opened : Bool
  pub running : Bool

-- The format of a device that was not opened yet.
abbrev pub default_format : AudioFormat
default_format = record { sample_rate = 44_100; channel_count = 2; bits_per_sample = 16 }

abbrev pub mock_input : AudioDeviceInfo → MockInput
mock_input info = record {
  info = info;
  format = default_format;
  sequence = 0;
  opened = false;
  running = false;
}

abbrev pub mock_output : AudioDeviceInfo → MockOutput
mock_output info = record {
  info = info;
  format = default_format;
  played_frames = 0;
  opened = false;
  running = false;
}

unfoldable pub open_input : MockInput → AudioFormat → MockInput × AudioIoError
open_input d format =
    if not (supports_format d.info format)
    then (d, unsupported_format)
    else (record d { format = format; opened = true }, no_error)

unfoldable pub start_input : MockInput → MockInput × AudioIoError
start_input d =
    if not d.opened then (d, device_open_failed) else (record d { running = true }, no_error)

-- There is no frame while the device is stopped; `err` is an exception of the constructor of frames.
unfoldable pub capture : MockInput → MockInput × Option (Result FrameError AudioFrame)
capture d = if not d.running then (d, none) else (
  d,
  some (
      audio_frame d.format d.sequence (pos (d.sequence * 5_000_000))
        (replicate (d.format.channel_count * 2 * 240) 0)),
)

unfoldable pub stop_input : MockInput → MockInput × AudioIoError
stop_input d = (record d { running = false; opened = false }, no_error)

unfoldable pub open_output : MockOutput → AudioFormat → MockOutput × AudioIoError
open_output d format =
    if not (supports_format d.info format)
    then (d, unsupported_format)
    else (record d { format = format; opened = true }, no_error)

unfoldable pub start_output : MockOutput → MockOutput × AudioIoError
start_output d =
    if not d.opened then (d, device_open_failed) else (record d { running = true }, no_error)

unfoldable pub write : MockOutput → AudioFrame → MockOutput × AudioIoError
write d frame =
    if not d.running
    then (d, stream_stopped)
    else if not (format_eq frame.format d.format)
    then (d, unsupported_format)
    else (record d { played_frames = add_u64 d.played_frames 1 }, no_error)

unfoldable pub stop_output : MockOutput → MockOutput × AudioIoError
stop_output d = (record d { running = false; opened = false }, no_error)

-- "mock-input" and "mock-output".
abbrev pub input_id : List ℕ
input_id = 109 ∷ 111 ∷ 99 ∷ 107 ∷ 45 ∷ 105 ∷ 110 ∷ 112 ∷ 117 ∷ 116 ∷ []

abbrev pub output_id : List ℕ
output_id = 109 ∷ 111 ∷ 99 ∷ 107 ∷ 45 ∷ 111 ∷ 117 ∷ 116 ∷ 112 ∷ 117 ∷ 116 ∷ []

-- The two devices of the backend, by their names.
abbrev pub input_device : List ℕ → AudioDeviceInfo
input_device name = record {
  id = input_id;
  name = name;
  input_channels = 2;
  output_channels = 0;
  sample_rates = 44_100 ∷ 48_000 ∷ [];
  default_input = true;
  default_output = false;
}

abbrev pub output_device : List ℕ → AudioDeviceInfo
output_device name = record {
  id = output_id;
  name = name;
  input_channels = 0;
  output_channels = 2;
  sample_rates = 44_100 ∷ 48_000 ∷ [];
  default_input = false;
  default_output = true;
}

pub record MockAudioBackend : Type 0 where
  pub first_device : AudioDeviceInfo
  pub second_device : AudioDeviceInfo
  pub initialized : Bool

abbrev pub mock_backend : List ℕ → List ℕ → MockAudioBackend
mock_backend input_name output_name = record {
  first_device = input_device input_name;
  second_device = output_device output_name;
  initialized = false;
}

unfoldable pub initialize : MockAudioBackend → MockAudioBackend × AudioIoError
initialize b = (record b { initialized = true }, no_error)

unfoldable pub shutdown : MockAudioBackend → MockAudioBackend
shutdown b = record b { initialized = false }

unfoldable pub enumerate : MockAudioBackend → List AudioDeviceInfo
enumerate b = if b.initialized then b.first_device ∷ b.second_device ∷ [] else []

unfoldable pub default_input_device : MockAudioBackend → Option AudioDeviceInfo
default_input_device b = if b.initialized then some b.first_device else none

unfoldable pub default_output_device : MockAudioBackend → Option AudioDeviceInfo
default_output_device b = if b.initialized then some b.second_device else none

unfoldable pub create_input : MockAudioBackend → List ℕ → Option MockInput
create_input b id =
    if not b.initialized || not (list_eq id b.first_device.id)
    then none
    else some (mock_input b.first_device)

unfoldable pub create_output : MockAudioBackend → List ℕ → Option MockOutput
create_output b id =
    if not b.initialized || not (list_eq id b.second_device.id)
    then none
    else some (mock_output b.second_device)
