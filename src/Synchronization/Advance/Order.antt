-- ===== src/Synchronization/Advance/Order.antt =====
-- What an endpoint of src/multi_device_sync.cpp plays when it is advanced to some times.
use distributed_audio_system.Audio.{AudioFrame}
use distributed_audio_system.Jitter.{JitterBuffer, insert, pop}
use distributed_audio_system.Jitter.Invariant.{Inv}
use distributed_audio_system.Jitter.Pcm.{PcmFrame}
use distributed_audio_system.Jitter.Playback.{is_played, pop-Pops, pop_uninitialized}
use distributed_audio_system.Jitter.Trace.{count_from, insert_keeps}
use distributed_audio_system.Prelude.{
  Bool-cases, List, [], ap, arith, false, if◌then◌else◌, inl, inr, length, length-append, refl, suc,
  true, ℕ, ◌++◌, ◌∙◌, ◌∷◌, ◌≡◌,
}
use distributed_audio_system.Prelude.Int.{ℤ}
use distributed_audio_system.Resilience.Frames.{FrameOk}
use distributed_audio_system.Sequence.{add_u64}

-- A frame as the constructor of frames builds it, of 16 bits, with a number of 64 bits.
abbrev pub Playable : AudioFrame → Type 0
Playable f = FrameOk f × PcmFrame f

-- The numbers that were played, and the next one of the buffer, follow one another.
pub record InOrder (b : JitterBuffer) (played : List ℕ) : Type 0 where
  pub started :
      b.sequence_initialized ≡ true
      → (k : ℕ) × (played ++ b.next_sequence ∷ [] ≡ count_from k (suc (length played)))
  pub silent : b.sequence_initialized ≡ false → played ≡ []

-- A number and the one after it go on from the numbers before.
count_on :
    (xs : List ℕ) (n k : ℕ)
    → xs ++ n ∷ [] ≡ count_from k (suc (length xs))
    → (xs ++ n ∷ []) ++ add_u64 n 1 ∷ [] ≡ count_from k (suc (suc (length xs)))
unfolding count_from
count_on [] n k h = let same : n ≡ k = cc in rw same refl
count_on (x ∷ xs) n k h =
    let same : x ≡ k = cc in
    let rest : xs ++ n ∷ [] ≡ count_from (add_u64 k 1) (suc (length xs)) = cc in
    rw same (ap (λ ys. k ∷ ys) (count_on xs n (add_u64 k 1) rest))

counted_part :
    (xs : List ℕ) (n k : ℕ)
    → xs ++ n ∷ [] ≡ count_from k (suc (length xs))
    → xs ≡ count_from k (length xs)
unfolding count_from
counted_part [] n k h = refl
counted_part (x ∷ xs) n k h =
    let same : x ≡ k = cc in
    let rest : xs ++ n ∷ [] ≡ count_from (add_u64 k 1) (suc (length xs)) = cc in
    rw same (ap (λ ys. k ∷ ys) (counted_part xs n (add_u64 k 1) rest))

pub InOrder-counted :
    (b : JitterBuffer) (played : List ℕ)
    → InOrder b played
    → (k : ℕ) × (played ≡ count_from k (length played))
unfolding count_from
InOrder-counted b played o = elim (Bool-cases b.sequence_initialized) [
  | inl init ↦ let (k, all) = o.started init in (k, counted_part played b.next_sequence k all)
  | inr fresh ↦ (0, rw (o.silent fresh) refl)
]

pub insert-InOrder :
    (b : JitterBuffer) (f : AudioFrame) (played : List ℕ)
    → InOrder b played
    → InOrder (insert b f).0 played
unfolding count_from
insert-InOrder b f played o = elim (Bool-cases b.sequence_initialized) [
  | inl init ↦
      let (next, init_kept) = insert_keeps b f init in
      record { started = λ h. rw next (o.started init); silent = λ h. absurd (cc) }
  | inr fresh ↦
      let nothing = o.silent fresh in
      record {
        started = λ h. ((insert b f).0.next_sequence, rw nothing refl);
        silent = λ h. nothing;
      }
]

then_next :
    (b b' : JitterBuffer) (played : List ℕ) (k : ℕ)
    → b'.next_sequence ≡ add_u64 b.next_sequence 1
    → b'.sequence_initialized ≡ true
    → played ++ b.next_sequence ∷ [] ≡ count_from k (suc (length played))
    → InOrder b' (played ++ b.next_sequence ∷ [])
then_next b b' played k next init all =
    let size : length (played ++ b.next_sequence ∷ []) ≡ suc (length played) =
      length-append played (b.next_sequence ∷ []) ∙ omega arith in
    record {
      started = λ h. (k, rw (next, size) (count_on played b.next_sequence k all));
      silent = λ h. absurd cc;
    }

pub pop-InOrder :
    (b : JitterBuffer) (now : ℤ) (played : List ℕ)
    → Inv b
    → InOrder b played
    → InOrder (pop b now).0 (
        if is_played (pop b now).1.status
        then played ++ (pop b now).1.sequence_number ∷ []
        else played)
pop-InOrder b now played v o =
    let p = pop-Pops b now v in
    elim (Bool-cases b.sequence_initialized) [
      | inr fresh ↦
          let waits = pop_uninitialized b now fresh in
          rw waits (record {
            started = λ h. absurd (ground (arith, p.keeps_started, fresh, h));
            silent = λ h. o.silent fresh;
          })
      | inl init ↦ elim (Bool-cases (is_played (pop b now).1.status)) [
        | inr waits ↦
            let next : (pop b now).0.next_sequence ≡ b.next_sequence = p.moves ∙ rw waits refl in
            rw waits (record {
              started = λ h. rw next (o.started init);
              silent = λ h. absurd (ground (arith, p.keeps_started, init, h));
            })
        | inl plays ↦
            let next : (pop b now).0.next_sequence ≡ add_u64 b.next_sequence 1 =
              p.moves ∙ rw plays refl in
            let (k, all) = o.started init in
            rw (plays, p.number)
              (then_next b (pop b now).0 played k next (p.keeps_started ∙ init) all)
      ]
    ]
