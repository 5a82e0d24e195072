-- ===== src/Jitter/Trace.antt =====
-- Runs of the buffer: frames arrive and are asked for in any order, until it is closed.
use distributed_audio_system.Audio.{AudioFrame, frame_duration}
use distributed_audio_system.Audio.Laws.{IsFrame}
use distributed_audio_system.Jitter.{
  JitterBuffer, JitterConfig, PlaybackItem, adopt, close, insert, insert_checked, jitter_buffer,
  pop, positive_duration, refresh_state, store_frame,
}
use distributed_audio_system.Jitter.Insert.{insert-Inv}
use distributed_audio_system.Jitter.Invariant.{Inv, jitter_buffer-Inv}
use distributed_audio_system.Jitter.Playback.{is_played, pop-Pops}
use distributed_audio_system.Jitter.Pop.{close-Inv, pop-Inv}
use distributed_audio_system.Prelude.{
  All, Bool-cases, List, Option, Option-cases, [], ap, ap₂, arith, if◌then◌else◌, inl, inr, length,
  none, refl, some, suc, true, zero, ℕ, ◌<◌, ◌^◌, ◌∙◌, ◌∷◌, ◌≡◌,
}
use distributed_audio_system.Prelude.Int.{ℤ}
use distributed_audio_system.Sequence.{add_u64}

-- What the program does with the buffer: `insert`, `pop` and `close`.
pub data Op : Type 0 where
  offer : AudioFrame → Op
  pull : ℤ → Op
  finish : Op

-- The buffer and the item, if one is handed out.
abbrev pub step : JitterBuffer → Op → JitterBuffer × Option PlaybackItem
step b (offer f) = ((insert b f).0, none)
step b (pull now) = ((pop b now).0, some (pop b now).1)
step b finish = (close b, none)

-- Frames as the decoder builds them.
abbrev pub OpFits : Op → Type 0
OpFits (offer f) = IsFrame f × (f.sequence_number < 2 ^ 64)
OpFits (pull now) = Unit
OpFits finish = Unit

pub run : JitterBuffer → List Op → JitterBuffer
run b [] = b
run b (op ∷ ops) = run (step b op).0 ops

-- The item's number in front of the later ones, if it is played.
abbrev pub with_item : Option PlaybackItem → List ℕ → List ℕ
with_item none rest = rest
with_item (some item) rest = if is_played item.status then item.sequence_number ∷ rest else rest

-- The numbers of the played items, in the order of playing.
unfoldable pub played : JitterBuffer → List Op → List ℕ
played b [] = []
played b (op ∷ ops) = with_item (step b op).1 (played (step b op).0 ops)

-- `n` numbers in a row, modulo 2 ^ 64.
unfoldable pub count_from : ℕ → ℕ → List ℕ
count_from start zero = []
count_from start (suc n) = start ∷ count_from (add_u64 start 1) n

step-Inv : (b : JitterBuffer) (op : Op) → Inv b → OpFits op → Inv (step b op).0
step-Inv b (offer f) v h = insert-Inv b f v h.0 h.1
step-Inv b (pull now) v h = pop-Inv b now v
step-Inv b finish v h = close-Inv b v

-- Whatever arrives and whenever it is asked for, the invariant holds at the end.
pub run-Inv : (b : JitterBuffer) (ops : List Op) → Inv b → All OpFits ops → Inv (run b ops)
unfolding run
run-Inv b [] v h = v
run-Inv b (op ∷ ops) v h = run-Inv (step b op).0 ops (step-Inv b op v h.0) h.1

insert_checked_keeps :
    (b : JitterBuffer) (f : AudioFrame)
    → ((insert_checked b f).0.next_sequence ≡ b.next_sequence)
      × ((insert_checked b f).0.sequence_initialized ≡ b.sequence_initialized)
unfolding insert_checked store_frame
insert_checked_keeps b f = (ground arith, ground arith)

-- A started buffer keeps its next number when a frame arrives.
pub insert_keeps :
    (b : JitterBuffer) (f : AudioFrame)
    → b.sequence_initialized ≡ true
    → ((insert b f).0.next_sequence ≡ b.next_sequence)
      × ((insert b f).0.sequence_initialized ≡ true)
unfolding insert
insert_keeps b f init = elim (Option-cases (positive_duration (frame_duration f))) [
  | inl nothing ↦ (ground (arith, nothing), ground (arith, nothing))
  | inr (d, e) ↦
      let (next, started) = insert_checked_keeps (adopt b f d) f in
      (ground (arith, e), ground (arith, e))
]

close_keeps :
    (b : JitterBuffer)
    → ((close b).next_sequence ≡ b.next_sequence)
      × ((close b).sequence_initialized ≡ b.sequence_initialized)
unfolding close refresh_state
close_keeps b = (refl, refl)

step_keeps_started :
    (b : JitterBuffer) (op : Op)
    → Inv b
    → b.sequence_initialized ≡ true
    → (step b op).0.sequence_initialized ≡ true
step_keeps_started b (offer f) v init = (insert_keeps b f init).1
step_keeps_started b (pull now) v init = (pop-Pops b now v).keeps_started ∙ init
step_keeps_started b finish v init = (close_keeps b).1 ∙ init

-- What is played after a step goes on from the next number.
pub step_counts :
    (b : JitterBuffer) (op : Op) (rest : List ℕ)
    → Inv b
    → b.sequence_initialized ≡ true
    → rest ≡ count_from (step b op).0.next_sequence (length rest)
    → with_item (step b op).1 rest
      ≡ count_from b.next_sequence (length (with_item (step b op).1 rest))
unfolding count_from
step_counts b (offer f) rest v init h =
    h ∙ ap (λ n. count_from n (length rest)) (insert_keeps b f init).0
step_counts b finish rest v init h = h ∙ ap (λ n. count_from n (length rest)) (close_keeps b).0
step_counts b (pull now) rest v init h =
    let p = pop-Pops b now v in
    elim (Bool-cases (is_played (pop b now).1.status)) [
      | inl plays ↦
          let next : (pop b now).0.next_sequence ≡ add_u64 b.next_sequence 1 =
            p.moves ∙ rw plays refl in
          rw plays (ap₂ ◌∷◌ p.number (h ∙ ap (λ n. count_from n (length rest)) next))
      | inr waits ↦
          let next : (pop b now).0.next_sequence ≡ b.next_sequence = p.moves ∙ rw waits refl in
          rw waits (h ∙ ap (λ n. count_from n (length rest)) next)
    ]

-- A buffer with the invariant that has its first frame plays the numbers from its next one on,
-- each once and none left out, whatever frames arrive in whatever order, and whenever it is asked
-- for an item. The frames are such as the constructor of a frame lets through, with 64-bit
-- sequence numbers.
pub played-count_from :
    (b : JitterBuffer) (ops : List Op)
    → Inv b
    → b.sequence_initialized ≡ true
    → All OpFits ops
    → played b ops ≡ count_from b.next_sequence (length (played b ops))
unfolding played count_from
played-count_from b [] v init h = refl
played-count_from b (op ∷ ops) v init h =
    step_counts b op (played (step b op).0 ops) v init (
      played-count_from (step b op).0 ops (step-Inv b op v h.0) (step_keeps_started b op v init)
        h.1)

-- From the constructor on, the invariant holds after any sequence of `insert`, `pop` and `close` on
-- frames that the constructor of a frame let through, with 64-bit sequence numbers.
pub reachable-Inv :
    (c : JitterConfig) (b : JitterBuffer) (ops : List Op)
    → jitter_buffer c ≡ some b
    → All OpFits ops
    → Inv (run b ops)
reachable-Inv c b ops e h = run-Inv b ops (jitter_buffer-Inv c b e) h
