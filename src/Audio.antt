-- ===== src/Audio.antt =====
-- include/distributed_audio/audio_format.hpp, src/audio_frame.cpp and `frame_duration` of
-- src/timing_utils.cpp. A `std::chrono::nanoseconds` is an integer.
pub mod Laws
mod Tests
use distributed_audio_system.Prelude.{
  ℕ, ◌+◌, ◌-◌, ◌*◌, ◌/◌, ◌%◌, ◌^◌, ◌≤◌, ◌<◌, Bool, ◌&&◌, ◌||◌, not, Option, none, some, List,
  length, All, Result, ok, err, ltb, ◌==◌, if◌then◌else◌,
}
use distributed_audio_system.Prelude.Int.{ℤ, pos}
use distributed_audio_system.Bytes.{IsByte}

pub record AudioFormat : Type 0 where
  pub sample_rate : ℕ
  pub channel_count : ℕ
  pub bits_per_sample : ℕ

unfoldable pub format_is_valid : AudioFormat → Bool
format_is_valid f =
    ltb 0 f.sample_rate
    && ltb 0 f.channel_count
    && ltb 0 f.bits_per_sample
    && f.bits_per_sample % 8 == 0

unfoldable pub format_eq : AudioFormat → AudioFormat → Bool
format_eq a b =
    a.sample_rate == b.sample_rate
    && a.channel_count == b.channel_count
    && a.bits_per_sample == b.bits_per_sample

pub record AudioFrame : Type 0 where
  pub format : AudioFormat
  pub sequence_number : ℕ
  pub timestamp : ℤ
  pub payload : List ℕ

-- The two exceptions of the constructor.
pub data FrameError : Type 0 where
  invalid_format unaligned_payload : FrameError

-- The types `std::uint32_t` and `std::uint16_t` of the fields.
pub record FormatFits (f : AudioFormat) : Type 0 where
  pub rate_fits : f.sample_rate < 2 ^ 32
  pub channels_fit : f.channel_count < 2 ^ 16
  pub bits_fit : f.bits_per_sample < 2 ^ 16

unfoldable pub bytes_per_frame : AudioFormat → ℕ
bytes_per_frame f = f.channel_count * (f.bits_per_sample / 8)

-- The constructor `AudioFrame::AudioFrame`.
unfoldable pub audio_frame : AudioFormat → ℕ → ℤ → List ℕ → Result FrameError AudioFrame
unfolding format_is_valid bytes_per_frame
audio_frame format sequence_number timestamp payload =
    if not (format_is_valid format)
    then err invalid_format
    else if bytes_per_frame format == 0 || not (length payload % bytes_per_frame format == 0)
    then err unaligned_payload
    else ok (record {
      format = format;
      sequence_number = sequence_number;
      timestamp = timestamp;
      payload = payload;
    })

abbrev pub u64_max : ℕ
u64_max = 2 ^ 64 - 1

abbrev pub i64_max : ℕ
i64_max = 2 ^ 63 - 1

-- The product does not wrap, because of the test before it.
unfoldable pub frame_duration : AudioFrame → Option ℤ
unfolding format_is_valid bytes_per_frame
frame_duration frame =
    let format = frame.format in
    let samples_per_channel = length frame.payload / bytes_per_frame format in
    let duration_ns = samples_per_channel * 1_000_000_000 % 2 ^ 64 / format.sample_rate in
    if not (format_is_valid format) || format.channel_count == 0 || format.bits_per_sample == 0
    then none
    else if bytes_per_frame format == 0 || not (length frame.payload % bytes_per_frame format == 0)
    then none
    else if ltb (u64_max / 1_000_000_000) samples_per_channel
    then none
    else if ltb i64_max duration_ns
    then none
    else some (pos duration_ns)
