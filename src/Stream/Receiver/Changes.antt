-- ===== src/Stream/Receiver/Changes.antt =====
-- What the calls of the receiver of src/audio_stream.cpp change, and what a run of them adds up to.
use mathlib.Core.List.{append_assoc}
use distributed_audio_system.Jitter.{forward_distance}
use distributed_audio_system.Jitter.Invariant.{Inv}
use distributed_audio_system.Jitter.Pcm.{PcmBuffer}
use distributed_audio_system.Prelude.{
  List, [], ap, arith, subst, suc, sym, true, ℕ, ◌++◌, ◌<◌, ◌^◌, ◌∙◌, ◌∷◌, ◌≡◌, ◌≤◌,
}
use distributed_audio_system.Sequence.{add_u64}
use distributed_audio_system.Stream.{is_running}
use distributed_audio_system.Stream.Receiver.{AudioStreamReceiver}

-- The distances of 64-bit numbers from a start go up from one to the next; all are between the bounds, the upper one
-- excluded.
abbrev pub Climbs : ℕ → ℕ → ℕ → List ℕ → Type 0
Climbs start low high [] = Unit
Climbs start low high (n ∷ ns) =
    (n < 2 ^ 64)
    × (low ≤ forward_distance start n)
    × (forward_distance start n < high)
    × Climbs start (suc (forward_distance start n)) high ns

-- The same, with the distances given.
abbrev pub Offsets : ℕ → ℕ → ℕ → List ℕ → Type 0
Offsets start low high [] = Unit
Offsets start low high (n ∷ ns) =
    (d : ℕ) × (n ≡ add_u64 start d) × (low ≤ d) × (d < high) × Offsets start (suc d) high ns

Offsets-before :
    (start low high : ℕ) (ns : List ℕ)
    → Offsets (add_u64 start 1) low high ns
    → Offsets start (suc low) (suc high) ns
Offsets-before start low high [] h = tt
Offsets-before start low high (n ∷ ns) (d, at, above, under, rest) = (
  suc d,
  omega (arith, at),
  omega (arith, above),
  omega (arith, under),
  Offsets-before start (suc d) high ns rest,
)

Offsets-zero : (start high : ℕ) (ns : List ℕ) → Offsets start 1 high ns → Offsets start 0 high ns
Offsets-zero start high [] h = tt
Offsets-zero start high (n ∷ ns) (d, at, above, under, rest) = (d, at, omega arith, under, rest)

-- Below 2 ^ 64 the distances are those that the numbers have.
pub Offsets-Climbs :
    (start low high : ℕ) (ns : List ℕ)
    → start < 2 ^ 64
    → high ≤ 2 ^ 64
    → Offsets start low high ns
    → Climbs start low high ns
Offsets-Climbs start low high [] s b h = tt
Offsets-Climbs start low high (n ∷ ns) s b (d, at, above, under, rest) =
    let same : forward_distance start n ≡ d = omega (arith, at, under, s, b) in
    (
      omega (arith, at),
      omega (arith, same, above),
      omega (arith, same, under),
      subst (λ k. Climbs start (suc k) high ns) (sym same)
          (Offsets-Climbs start (suc d) high ns s b rest),
    )

-- The receiver runs and its buffer is in order and has its first frame.
pub record Streaming {ℓ κ} {F : Type ℓ} {D : Type κ} (r : AudioStreamReceiver F D) : Type 0 where
  pub runs : is_running r.state ≡ true
  pub inv : Inv r.jitter_buffer
  pub pcm : PcmBuffer r.jitter_buffer
  pub initialized : r.jitter_buffer.sequence_initialized ≡ true

-- What one event does: nothing is played, the next number is played, or it is taken and lost.
pub data Change {ℓ κ} {F : Type ℓ} {D : Type κ} (r r' : AudioStreamReceiver F D) : Type 0 where
  quiet :
      r'.jitter_buffer.next_sequence ≡ r.jitter_buffer.next_sequence
      → r'.playback.playback_sequence ≡ r.playback.playback_sequence
      → Change r r'
  heard :
      r'.jitter_buffer.next_sequence ≡ add_u64 r.jitter_buffer.next_sequence 1
      → r'.playback.playback_sequence
        ≡ r.playback.playback_sequence ++ r.jitter_buffer.next_sequence ∷ []
      → Change r r'
  lost :
      r'.jitter_buffer.next_sequence ≡ add_u64 r.jitter_buffer.next_sequence 1
      → r'.playback.playback_sequence ≡ r.playback.playback_sequence
      → Change r r'

-- What is played over a run that moves the buffer's next number on by some steps.
abbrev pub Heard {ℓ κ} :
    {F : Type ℓ} {D : Type κ} → ℕ → AudioStreamReceiver F D → AudioStreamReceiver F D → Type 0
Heard steps r r' =
    (numbers : List ℕ) × (r'.playback.playback_sequence ≡ r.playback.playback_sequence ++ numbers)
    × (r'.jitter_buffer.next_sequence ≡ add_u64 r.jitter_buffer.next_sequence steps)
    × Offsets r.jitter_buffer.next_sequence 0 steps numbers

module _ {ℓ κ} {F : Type ℓ} {D : Type κ} where
  pub quiet-Heard :
      (steps : ℕ) (r r' r'' : AudioStreamReceiver F D)
      → r'.jitter_buffer.next_sequence ≡ r.jitter_buffer.next_sequence
      → r'.playback.playback_sequence ≡ r.playback.playback_sequence
      → Heard steps r' r''
      → Heard steps r r''
  quiet-Heard steps r r' r'' next same (numbers, e, moved, offsets) = (
    numbers,
    e ∙ ap (λ l. l ++ numbers) same,
    moved ∙ ap (λ n. add_u64 n steps) next,
    subst (λ n. Offsets n 0 steps numbers) next offsets,
  )

  -- One change before a run adds a step at most.
  pub then-Heard :
      (steps : ℕ) (r r' r'' : AudioStreamReceiver F D)
      → r.jitter_buffer.next_sequence < 2 ^ 64
      → Change r r'
      → Heard steps r' r''
      → (total : ℕ) × (total ≤ suc steps) × Heard total r r''
  then-Heard steps r r' r'' s (quiet next same) rest =
      (steps, omega arith, quiet-Heard steps r r' r'' next same rest)
  then-Heard steps r r' r'' s (heard next more) (numbers, e, moved, offsets) = (
    suc steps,
    omega arith,
    (
      r.jitter_buffer.next_sequence ∷ numbers,
      e
          ∙ ap (λ l. l ++ numbers) more
          ∙ append_assoc r.playback.playback_sequence (r.jitter_buffer.next_sequence ∷ []) numbers,
      omega (arith, moved, next),
      (
        0,
        omega (arith, s),
        omega arith,
        omega arith,
        Offsets-before r.jitter_buffer.next_sequence 0 steps numbers
            (subst (λ n. Offsets n 0 steps numbers) next offsets),
      ),
    ),
  )
  then-Heard steps r r' r'' s (lost next same) (numbers, e, moved, offsets) = (
    suc steps,
    omega arith,
    (
      numbers,
      e ∙ ap (λ l. l ++ numbers) same,
      omega (arith, moved, next),
      Offsets-zero r.jitter_buffer.next_sequence (suc steps) numbers (
          Offsets-before r.jitter_buffer.next_sequence 0 steps numbers
            (subst (λ n. Offsets n 0 steps numbers) next offsets)),
    ),
  )
