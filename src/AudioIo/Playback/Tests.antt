-- ===== src/AudioIo/Playback/Tests.antt =====
-- A playback buffer and a queue of one frame, side by side.
use distributed_audio_system.Audio.{AudioFrame}
use distributed_audio_system.AudioIo.Playback.{PlaybackBuffer, playback_buffer, pop, push}
use distributed_audio_system.AudioIo.Playback.Equivalence.{
  Call, Counts, Same, playback_calls, playback_calls-queue_calls, popped, popping, pushed, pushing,
  queue_calls,
}
use distributed_audio_system.Prelude.{List, [], arith, false, none, refl, some, true, ℕ, ◌∷◌, ◌≡◌}
use distributed_audio_system.Prelude.Int.{pos}
use distributed_audio_system.Queue.{AudioBuffer}

abbrev tone : ℕ → AudioFrame
tone n = record {
  format = record { sample_rate = 48_000; channel_count = 1; bits_per_sample = 16 };
  sequence_number = n;
  timestamp = pos 0;
  payload = 1 ∷ 2 ∷ [];
}

abbrev small_buffer : PlaybackBuffer
small_buffer = record {
  capacity = 1;
  frames = [];
  statistics = record { played_frames = 0; played_samples = 0; underruns = 0 };
  closed = false;
}

built : playback_buffer 1 ≡ some small_buffer
unfolding playback_buffer
built = refl

abbrev small_queue : AudioBuffer
small_queue = record { capacity = 1; frames = []; closed = false }

abbrev playback_run : List Call
playback_run = popping ∷ pushing (tone 1) ∷ pushing (tone 2) ∷ popping ∷ []

run_answers :
    (playback_calls small_buffer playback_run).1
    ≡ popped none ∷ pushed true ∷ pushed false ∷ popped (some (tone 1)) ∷ []
unfolding playback_calls push pop
run_answers = refl

playback_calls-queue_calls_example :
    ((playback_calls small_buffer playback_run).1 ≡ (queue_calls small_queue playback_run).1)
    × Same (playback_calls small_buffer playback_run).0 (queue_calls small_queue playback_run).0
    × Counts small_buffer
        (playback_calls small_buffer playback_run).0
        (playback_calls small_buffer playback_run).1
playback_calls-queue_calls_example =
    playback_calls-queue_calls small_buffer small_queue playback_run
      (record { capacity = refl; frames = refl; closed = refl }) (omega arith, omega arith)
