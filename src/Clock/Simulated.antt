-- ===== src/Clock/Simulated.antt =====
-- src/simulated_playback.cpp.
pub mod Totals
pub mod Playable
mod Tests
use distributed_audio_system.Audio.{AudioFrame}
use distributed_audio_system.Float.{Float, larger, zero_float}
use distributed_audio_system.Jitter.{PlaybackItem, PullStatus, missing, playing}
use distributed_audio_system.Prelude.{
  Bool, List, Option, Result, [], err, false, if◌then◌else◌, length, none, ok, some, true, ℕ, ◌%◌,
  ◌*◌, ◌++◌, ◌+◌, ◌^◌, ◌∷◌,
}
use distributed_audio_system.Samples.{SampleError, pcm16_to_float}
use distributed_audio_system.Sequence.{add_u64}

pub record SimulatedPlayback {ℓ} (F : Type ℓ) : Type ℓ where
  pub real_frames_played : ℕ
  pub concealed_frames_played : ℕ
  pub late_frames : ℕ
  pub underruns : ℕ
  pub total_frames_processed : ℕ
  pub samples_played : ℕ
  pub first_sequence : ℕ
  pub last_sequence : ℕ
  pub peak_level : F
  pub payload_checksum : ℕ
  pub has_sequence : Bool
  pub playback_sequence : List ℕ

-- The checksum goes on over the bytes of a frame.
unfoldable pub checksum : ℕ → List ℕ → ℕ
checksum sum [] = sum
checksum sum (byte ∷ rest) = checksum ((sum * 1_099_511_628_211 + byte) % 2 ^ 64) rest

module _ {ℓ} {F : Type ℓ} ⦃f : Float F⦄ where
  -- The initial values, and `reset`.
  abbrev pub new_playback : SimulatedPlayback F
  new_playback = record {
    real_frames_played = 0;
    concealed_frames_played = 0;
    late_frames = 0;
    underruns = 0;
    total_frames_processed = 0;
    samples_played = 0;
    first_sequence = 0;
    last_sequence = 0;
    peak_level = zero_float;
    payload_checksum = 0;
    has_sequence = false;
    playback_sequence = [];
  }

  -- The largest magnitude so far.
  unfoldable pub peak_of : F → List F → F
  peak_of peak [] = peak
  peak_of peak (sample ∷ rest) = peak_of (larger peak (f.magnitude sample)) rest

  -- An item with a frame or a substitute is counted.
  abbrev pub count_item : SimulatedPlayback F → PlaybackItem → SimulatedPlayback F
  count_item p item = record p {
    total_frames_processed = add_u64 p.total_frames_processed 1;
    playback_sequence = p.playback_sequence ++ item.sequence_number ∷ [];
    first_sequence = if p.has_sequence then p.first_sequence else item.sequence_number;
    has_sequence = true;
    last_sequence = item.sequence_number;
  }

  -- The samples of its frame are counted.
  abbrev pub count_samples : SimulatedPlayback F → AudioFrame → List F → SimulatedPlayback F
  count_samples p frame samples = record p {
    samples_played = add_u64 p.samples_played (length samples);
    payload_checksum = checksum p.payload_checksum frame.payload;
    peak_level = peak_of p.peak_level samples;
  }

  unfoldable pub play_frame :
      SimulatedPlayback F → Option AudioFrame → Result SampleError (SimulatedPlayback F)
  play_frame p none = ok p
  play_frame p (some frame) = elim (pcm16_to_float {F = F} frame) [
    | err e ↦ err e
    | ok samples ↦ ok (count_samples p frame samples)
  ]

  abbrev pub count_kind : SimulatedPlayback F → Bool → SimulatedPlayback F
  count_kind p true = record p { concealed_frames_played = add_u64 p.concealed_frames_played 1 }
  count_kind p false = record p { real_frames_played = add_u64 p.real_frames_played 1 }

  abbrev pub play_item :
      SimulatedPlayback F → PlaybackItem → Result SampleError (SimulatedPlayback F)
  play_item p item = elim (play_frame (count_item p item) item.frame) [
    | err e ↦ err e
    | ok q ↦ ok (count_kind q item.concealed)
  ]

  -- `err` is the exception of the conversion.
  unfoldable pub consume :
      SimulatedPlayback F → PlaybackItem → Result SampleError (SimulatedPlayback F)
  consume p item = elim item.status [
    | PullStatus.not_ready ↦ ok (record p { underruns = add_u64 p.underruns 1 })
    | PullStatus.stopped ↦ ok p
    | playing ↦ play_item p item
    | missing ↦ play_item p item
  ]
