-- ===== src/AudioIo/Playback.antt =====
-- `PlaybackBuffer` of src/audio_io.cpp. The mutex makes each operation one step.
pub mod Equivalence
mod Tests
use distributed_audio_system.Audio.{AudioFrame}
use distributed_audio_system.AudioIo.{samples_per_channel}
use distributed_audio_system.Prelude.{
  Bool, List, Option, [], false, if◌then◌else◌, leb, length, none, some, true, ℕ, ◌++◌, ◌==◌, ◌||◌,
  ◌∷◌,
}
use distributed_audio_system.Sequence.{add_u64}

pub record PlaybackStatistics : Type 0 where
  pub played_frames : ℕ
  pub played_samples : ℕ
  pub underruns : ℕ

pub record PlaybackBuffer : Type 0 where
  pub capacity : ℕ
  pub frames : List AudioFrame
  pub statistics : PlaybackStatistics
  pub closed : Bool

-- The constructor; `none` is its exception.
unfoldable pub playback_buffer : ℕ → Option PlaybackBuffer
playback_buffer capacity =
    if capacity == 0
    then none
    else some (record {
      capacity = capacity;
      frames = [];
      statistics = record { played_frames = 0; played_samples = 0; underruns = 0 };
      closed = false;
    })

unfoldable pub push : PlaybackBuffer → AudioFrame → PlaybackBuffer × Bool
push b frame =
    if b.closed || leb b.capacity (length b.frames)
    then (b, false)
    else (record b { frames = b.frames ++ frame ∷ [] }, true)

unfoldable pub pop : PlaybackBuffer → PlaybackBuffer × Option AudioFrame
pop b = elim b.frames [
  | [] ↦ (
    record b { statistics = record b.statistics { underruns = add_u64 b.statistics.underruns 1 } },
    none,
  )
  | frame ∷ rest ↦ (
    record b {
      frames = rest;
      statistics = record b.statistics {
        played_frames = add_u64 b.statistics.played_frames 1;
        played_samples = add_u64 b.statistics.played_samples (samples_per_channel frame);
      };
    },
    some frame,
  )
]

unfoldable pub close : PlaybackBuffer → PlaybackBuffer
close b = record b { closed = true; frames = [] }
