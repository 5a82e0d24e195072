-- ===== src/Jitter/Playback.antt =====
-- What a listener hears of the buffer of src/jitter_buffer.cpp.
use distributed_audio_system.Audio.{AudioFrame}
use distributed_audio_system.Jitter.{
  JitterBuffer, PlaybackItem, PullStatus, is_stopped, make_concealed_frame, missing, playing, pop,
  pop_found, pop_missing, refresh_state,
}
use distributed_audio_system.Jitter.Invariant.{InWindow, Inv}
use distributed_audio_system.Jitter.Pop.{concealed-IsFrame}
use distributed_audio_system.Prelude.{
  Bool, Bool-cases, Option, Option-cases, arith, false, if◌then◌else◌, inl, inr, length, none, refl,
  some, sym, true, ◌&&◌, ◌==◌, ◌↔◌, ◌≡◌,
}
use distributed_audio_system.Prelude.Int.{ℤ}
use distributed_audio_system.Prelude.Map.{All-find, find, nat_key}
use distributed_audio_system.Sequence.{add_u64}

-- The items that are played: a frame, or a substitute for one.
abbrev pub is_played : PullStatus → Bool
is_played playing = true
is_played missing = true
is_played _ = false

-- The frame that `pop` hands out, by its status.
abbrev pub expected_frame : JitterBuffer → PullStatus → Option AudioFrame
expected_frame b playing = find b.next_sequence b.frames
expected_frame b missing = make_concealed_frame b
expected_frame b _ = none

-- One call of `pop`: its item carries the next number and the frame for it, and the next number
-- moves on by one exactly when the item is played.
pub record Pops (b : JitterBuffer) (b' : JitterBuffer) (item : PlaybackItem) : Type 0 where
  pub number : item.sequence_number ≡ b.next_sequence
  pub moves :
      b'.next_sequence
      ≡ (if is_played item.status then add_u64 b.next_sequence 1 else b.next_sequence)
  pub content : item.frame ≡ expected_frame b item.status
  pub substitute : item.status ≡ missing → find b.next_sequence b.frames ≡ none
  pub flag : item.concealed ≡ true ↔ (item.status ≡ missing)
  pub keeps_started : b'.sequence_initialized ≡ b.sequence_initialized

pop_found-Pops :
    (b : JitterBuffer) (f : AudioFrame)
    → Inv b
    → find b.next_sequence b.frames ≡ some f
    → Pops b (pop_found b f).0 (pop_found b f).1
unfolding pop_found refresh_state
pop_found-Pops b f v e = record {
  number = (All-find (InWindow b.next_sequence) b.next_sequence b.frames v.map_inv.window e).0;
  moves = refl;
  content = sym e;
  substitute = λ q. cc;
  flag = (λ q. cc, λ q. cc);
  keeps_started = refl;
}

pop_missing-Pops :
    (b : JitterBuffer) (now : ℤ)
    → Inv b
    → find b.next_sequence b.frames ≡ none
    → Pops b (pop_missing b now).0 (pop_missing b now).1
unfolding pop_missing refresh_state
pop_missing-Pops b now v absent = elim (Option-cases (make_concealed_frame b)) [
  | inl nothing ↦ ground (arith, nothing)
  | inr (f, e) ↦ ground (arith, e, concealed-IsFrame b f v.map_inv.previous e)
]

-- On a buffer with the invariant `pop` hands out an item with the number `next_sequence`. A played
-- item moves that number on by one, any other leaves it. The frame in it is the one filed under the
-- number, or the substitute for it with the status `missing`, for which no frame may be filed; the
-- item is flagged as concealed exactly then.
pub pop-Pops : (b : JitterBuffer) (now : ℤ) → Inv b → Pops b (pop b now).0 (pop b now).1
unfolding pop
pop-Pops b now v = elim (Option-cases (find b.next_sequence b.frames)) [
  | inl absent ↦ ground (arith, absent, pop_missing-Pops b now v absent)
  | inr (f, present) ↦ ground (arith, present, pop_found-Pops b f v present)
]

-- Nothing is played before the first frame.
pub pop_uninitialized :
    (b : JitterBuffer) (now : ℤ)
    → b.sequence_initialized ≡ false
    → is_played (pop b now).1.status ≡ false
unfolding pop
pop_uninitialized b now h = elim (Bool-cases (is_stopped b.state && length b.frames == 0)) [
  | inl over_ ↦ rw over_ refl
  | inr open_ ↦ simp (open_, h) refl
]
