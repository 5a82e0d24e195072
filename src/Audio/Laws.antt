-- ===== src/Audio/Laws.antt =====
-- The constructor and the duration of a frame (src/audio_frame.cpp, src/timing_utils.cpp).
use native.Mathlib.Nat.{div-le_self, le_trans}
use distributed_audio_system.Prelude.{
  ℕ, ◌*◌, ◌/◌, ◌%◌, ◌≤◌, ◌≡◌, ◌≢◌, true, some, List, length, ok, arith,
}
use distributed_audio_system.Prelude.Int.{ℤ, pos}
use distributed_audio_system.Audio.{
  AudioFormat, AudioFrame, format_is_valid, format_eq, audio_frame, bytes_per_frame, frame_duration,
}

-- What holds of every frame that the constructor lets through.
pub record IsFrame (f : AudioFrame) : Type 0 where
  pub valid : format_is_valid f.format ≡ true
  pub whole : bytes_per_frame f.format ≢ 0
  pub aligned : length f.payload % bytes_per_frame f.format ≡ 0

pub audio_frame-IsFrame :
    (format : AudioFormat) (sequence : ℕ) (timestamp : ℤ) (payload : List ℕ) (f : AudioFrame)
    → audio_frame format sequence timestamp payload ≡ ok f
    → IsFrame f
unfolding audio_frame
audio_frame-IsFrame format sequence timestamp payload f e = ground arith

pub format_eq→eq : (a b : AudioFormat) → format_eq a b ≡ true → a ≡ b
unfolding format_eq
format_eq→eq a b e = ground arith

pub format_eq_refl : (a : AudioFormat) → format_eq a a ≡ true
unfolding format_eq
format_eq_refl a = ground arith

-- The duration of a frame that the constructor lets through, with at most 9,000,000,000 bytes, is
-- that of its samples at the sample rate, rounded down to a nanosecond.
frame_duration_lem :
    (f : AudioFrame)
    → IsFrame f
    → length f.payload ≤ 9_000_000_000
    → frame_duration f
      ≡ some
          (pos (length f.payload / bytes_per_frame f.format * 1_000_000_000 / f.format.sample_rate))
unfolding frame_duration
frame_duration_lem f v h =
    let n = length f.payload / bytes_per_frame f.format in
    let few : n ≤ 9_000_000_000 = le_trans (div-le_self (length f.payload) _) h in
    let short : n * 1_000_000_000 / f.format.sample_rate ≤ n * 1_000_000_000 =
      div-le_self (n * 1_000_000_000) _ in
    ground (arith, v.valid, v.whole, v.aligned)
