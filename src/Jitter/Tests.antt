-- ===== src/Jitter/Tests.antt =====
-- A short run of a buffer of src/jitter_buffer.cpp, on which the theorems are used.
use distributed_audio_system.Audio.{
  AudioFrame, bytes_per_frame, format_eq, format_is_valid, frame_duration,
}
use distributed_audio_system.Audio.Laws.{IsFrame}
use distributed_audio_system.Jitter.{
  JitterBuffer, JitterConfig, close, empty_buffer, insert, insert_checked, inserted, jitter_buffer,
  make_concealed_frame, matches_stream, pop, pop_found, pop_missing, positive_duration, ready,
  refresh_state, silence, store_frame, zero_statistics,
}
use distributed_audio_system.Jitter.Insert.{insert-Inv}
use distributed_audio_system.Jitter.Invariant.{Inv, jitter_buffer-Inv}
use distributed_audio_system.Jitter.Playback.{Pops, pop-Pops}
use distributed_audio_system.Jitter.Trace.{
  Op, OpFits, count_from, finish, offer, played, played-count_from, pull, reachable-Inv, run,
}
use distributed_audio_system.Prelude.{
  All, List, [], ap, arith, length, refl, some, subst, true, ℕ, ◌-◌, ◌^◌, ◌∷◌, ◌≡◌,
}
use distributed_audio_system.Prelude.Int.{pos, ◌+ℤ◌}
use distributed_audio_system.Prelude.Map.{emplace, erase, find, nat_key, place}

abbrev settings : JitterConfig
settings = record {
  capacity = 4;
  prebuffer_target = 1;
  missing_wait = pos 10;
  concealment = silence;
}

abbrev frame_number : ℕ → AudioFrame
frame_number n = record {
  format = record { sample_rate = 1_000; channel_count = 1; bits_per_sample = 16 };
  sequence_number = n;
  timestamp = pos 0;
  payload = 1 ∷ 2 ∷ [];
}

-- The buffer once it has the frame with the last 64-bit number, which it starts from.
abbrev started : JitterBuffer
started = record (empty_buffer settings) {
  frames = (2 ^ 64 - 1, frame_number (2 ^ 64 - 1)) ∷ [];
  format = some (record { sample_rate = 1_000; channel_count = 1; bits_per_sample = 16 });
  duration = some (pos 1_000_000);
  next_sequence = 2 ^ 64 - 1;
  sequence_initialized = true;
  state = ready;
  statistics = record zero_statistics {
    packets_inserted = 1;
    current_depth = 1;
    maximum_depth = 1;
  };
}

fresh : jitter_buffer settings ≡ some (empty_buffer settings)
unfolding jitter_buffer
fresh = refl

insert_first : insert (empty_buffer settings) (frame_number (2 ^ 64 - 1)) ≡ (started, inserted)
unfolding insert frame_duration format_is_valid bytes_per_frame matches_stream insert_checked
    store_frame find emplace place
insert_first = refl

frame_number-IsFrame : (n : ℕ) → IsFrame (frame_number n)
unfolding format_is_valid bytes_per_frame
frame_number-IsFrame n = record { valid = refl; whole = λ e. omega arith; aligned = refl }

-- The frame after the next one is lost: a wait, a substitute, and the one after it.
abbrev ops : List Op
ops =
    pull (pos 0)
    ∷ offer (frame_number 1)
    ∷ pull (pos 5)
    ∷ pull (pos 15)
    ∷ pull (pos 20)
    ∷ finish
    ∷ []

ops-OpFits : All OpFits ops
ops-OpFits = (tt, ((frame_number-IsFrame 1, omega arith), (tt, (tt, (tt, (tt, tt))))))

played-ops : played started ops ≡ (2 ^ 64 - 1) ∷ 0 ∷ 1 ∷ []
unfolding played pop pop_found pop_missing refresh_state insert frame_duration format_is_valid
    bytes_per_frame matches_stream insert_checked store_frame find emplace place erase
    make_concealed_frame close ◌+ℤ◌ format_eq
played-ops = refl

started-Inv : Inv started
started-Inv = subst Inv (ap (λ r. r.0) insert_first) (
    insert-Inv (empty_buffer settings) (frame_number (2 ^ 64 - 1))
      (jitter_buffer-Inv settings (empty_buffer settings) fresh) (frame_number-IsFrame (2 ^ 64 - 1))
      (omega arith))

reachable-Inv_example : Inv (run (empty_buffer settings) (offer (frame_number (2 ^ 64 - 1)) ∷ ops))
reachable-Inv_example =
    reachable-Inv settings (empty_buffer settings) (offer (frame_number (2 ^ 64 - 1)) ∷ ops) fresh
      ((frame_number-IsFrame (2 ^ 64 - 1), omega arith), ops-OpFits)

played-count_from_example :
    played started ops ≡ count_from started.next_sequence (length (played started ops))
played-count_from_example = played-count_from started ops started-Inv refl ops-OpFits

pop-Pops_example : Pops started (pop started (pos 0)).0 (pop started (pos 0)).1
pop-Pops_example = pop-Pops started (pos 0) started-Inv

duration_lem : positive_duration (frame_duration (frame_number 1)) ≡ some (pos 1_000_000)
unfolding frame_duration
duration_lem = refl

matching : matches_stream started (frame_number 1).format (pos 1_000_000) ≡ true
unfolding matches_stream format_eq
matching = refl
