-- ===== src/Session/Config.antt =====
-- `AudioSessionConfig` of src/audio_session.cpp.
use distributed_audio_system.Audio.{AudioFormat, format_eq, format_is_valid}
use distributed_audio_system.Identity.{DeviceId, device_eq, device_valid}
use distributed_audio_system.Prelude.{
  Bool, if◌then◌else◌, leb, ltb, not, ℕ, ◌%◌, ◌&&◌, ◌*◌, ◌/◌, ◌==◌, ◌^◌,
}
use distributed_audio_system.Prelude.Int.{pos, ℤ}

pub record AudioSessionConfig : Type 0 where
  pub format : AudioFormat
  pub samples_per_frame : ℕ
  pub sender : DeviceId
  pub receiver : DeviceId
  pub sender_audio_port : ℕ
  pub receiver_audio_port : ℕ

unfoldable pub config_is_valid : AudioSessionConfig → Bool
unfolding format_is_valid
config_is_valid c =
    format_is_valid c.format
    && c.format.bits_per_sample == 16
    && ltb 0 c.samples_per_frame
    && leb c.samples_per_frame 4_096
    && device_valid c.sender
    && device_valid c.receiver
    && not (c.sender_audio_port == 0)
    && not (c.receiver_audio_port == 0)

-- `AudioSessionConfig::frame_duration`.
unfoldable pub config_frame_duration : AudioSessionConfig → ℤ
config_frame_duration c =
    if not (config_is_valid c)
    then pos 0
    else pos (c.samples_per_frame * 1_000_000_000 % 2 ^ 64 / c.format.sample_rate)

unfoldable pub config_eq : AudioSessionConfig → AudioSessionConfig → Bool
config_eq a b =
    format_eq a.format b.format
    && a.samples_per_frame == b.samples_per_frame
    && device_eq a.sender b.sender
    && device_eq a.receiver b.receiver
    && a.sender_audio_port == b.sender_audio_port
    && a.receiver_audio_port == b.receiver_audio_port
