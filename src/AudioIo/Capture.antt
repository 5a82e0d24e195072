-- ===== src/AudioIo/Capture.antt =====
-- `CaptureBuffer` of src/audio_io.cpp. The mutex makes each operation one step.
pub mod Calls
pub mod Steps
pub mod Accounts
mod Tests
use distributed_audio_system.Audio.{AudioFrame}
use distributed_audio_system.AudioIo.{samples_per_channel}
use distributed_audio_system.Prelude.{
  Bool, List, Option, [], false, if◌then◌else◌, leb, length, none, some, true, ℕ, ◌++◌, ◌==◌, ◌||◌,
  ◌∷◌,
}
use distributed_audio_system.Sequence.{add_u64}

pub record CaptureStatistics : Type 0 where
  pub captured_frames : ℕ
  pub dropped_frames : ℕ
  pub captured_samples : ℕ

pub record CaptureBuffer : Type 0 where
  pub capacity : ℕ
  pub frames : List AudioFrame
  pub statistics : CaptureStatistics
  pub closed : Bool

-- The constructor; `none` is its exception.
unfoldable pub capture_buffer : ℕ → Option CaptureBuffer
capture_buffer capacity =
    if capacity == 0
    then none
    else some (record {
      capacity = capacity;
      frames = [];
      statistics = record { captured_frames = 0; dropped_frames = 0; captured_samples = 0 };
      closed = false;
    })

-- The frame goes in and is counted.
abbrev pub captured : CaptureBuffer → AudioFrame → CaptureBuffer
captured b frame = record b {
  statistics = record b.statistics {
    captured_samples = add_u64 b.statistics.captured_samples (samples_per_channel frame);
    captured_frames = add_u64 b.statistics.captured_frames 1;
  };
  frames = b.frames ++ frame ∷ [];
}

abbrev pub dropped : CaptureBuffer → CaptureBuffer
dropped b = record b {
  statistics = record b.statistics { dropped_frames = add_u64 b.statistics.dropped_frames 1 };
}

unfoldable pub push : CaptureBuffer → AudioFrame → CaptureBuffer × Bool
push b frame =
    if b.closed || leb b.capacity (length b.frames)
    then (dropped b, false)
    else (captured b frame, true)

unfoldable pub pop : CaptureBuffer → CaptureBuffer × Option AudioFrame
pop b = elim b.frames [ [] ↦ (b, none) | frame ∷ rest ↦ (record b { frames = rest }, some frame) ]

unfoldable pub close : CaptureBuffer → CaptureBuffer
close b = record b { closed = true; frames = [] }
