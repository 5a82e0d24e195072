-- ===== src/Queue/Tests.antt =====
-- A short run of a queue of two, on which the theorems are used.
use distributed_audio_system.Audio.{AudioFrame}
use distributed_audio_system.Prelude.{
  List, [], arith, false, length, refl, some, ℕ, ◌++◌, ◌∷◌, ◌≡◌, ◌≤◌,
}
use distributed_audio_system.Prelude.Int.{pos}
use distributed_audio_system.Queue.{AudioBuffer, audio_buffer, close, pop, push, try_pop, try_push}
use distributed_audio_system.Queue.Fifo.{
  Call, accepted, after, calls_fifo, closing, delivered, popping, pushing, try_popping, try_pushing,
}

abbrev frame_number : ℕ → AudioFrame
frame_number n = record {
  format = record { sample_rate = 8_000; channel_count = 1; bits_per_sample = 16 };
  sequence_number = n;
  timestamp = pos 0;
  payload = [];
}

abbrev empty_queue : AudioBuffer
empty_queue = record { capacity = 2; frames = []; closed = false }

built : audio_buffer 2 ≡ some empty_queue
unfolding audio_buffer
built = refl

-- The third push waits, and `try_push` is refused while the queue is full.
abbrev sample_calls : List Call
sample_calls =
    pushing (frame_number 1)
    ∷ pushing (frame_number 2)
    ∷ pushing (frame_number 3)
    ∷ try_pushing (frame_number 4)
    ∷ popping
    ∷ try_pushing (frame_number 5)
    ∷ closing
    ∷ try_popping
    ∷ []

accepted-sample :
    accepted empty_queue sample_calls ≡ frame_number 1 ∷ frame_number 2 ∷ frame_number 5 ∷ []
unfolding accepted push try_push pop try_pop close
accepted-sample = refl

calls_fifo_example :
    (empty_queue.frames ++ accepted empty_queue sample_calls
      ≡ delivered empty_queue sample_calls ++ (after empty_queue sample_calls).frames)
    × (length (after empty_queue sample_calls).frames ≤ 2)
calls_fifo_example = calls_fifo empty_queue sample_calls (omega arith)
