-- ===== src/Impairment/Arrivals.antt =====
-- How often each frame arrives through an impaired network.
use distributed_audio_system.Audio.{AudioFrame}
use distributed_audio_system.Impairment.{
  ImpairedFrame, ImpairmentPlan, apply_impairment, arrivals, arrive, contains, find_frame,
  next_delay, order_of,
}
use distributed_audio_system.Prelude.{
  ==_iff, All, Bool-cases, List, [], ap, arith, false, has_value, has_value-some, if◌then◌else◌,
  inl, inr, ok, refl, some, sym, true, ℕ, ◌*◌, ◌+◌, ◌==◌, ◌||◌, ◌∙◌, ◌∷◌, ◌≡◌,
}
use distributed_audio_system.Prelude.Int.{ltb_ℤ, pos, ℤ, ◌*ℤ◌, ◌+ℤ◌}

abbrev pub count : ℕ → List ℕ → ℕ
count s [] = 0
count s (x ∷ xs) = if x == s then 1 + count s xs else count s xs

abbrev pub numbers : List ImpairedFrame → List ℕ
numbers [] = []
numbers (x ∷ xs) = x.frame.sequence_number ∷ numbers xs

-- The arrivals of a frame that the order names `n` times.
abbrev pub expected : ImpairmentPlan → ℕ → ℕ → ℕ
expected plan s n =
    if contains plan.lost_sequences s
    then 0
    else if contains plan.duplicate_sequences s
    then 2 * n
    else n

-- A sequence number that is lost or that a frame has.
abbrev pub IsKnown : List AudioFrame → ImpairmentPlan → ℕ → Type 0
IsKnown frames plan s = (contains plan.lost_sequences s || has_value (find_frame frames s)) ≡ true

abbrev pub IsDelay : ℤ → Type 0
IsDelay d = ltb_ℤ d (pos 0) ≡ false

find_frame-number :
    (frames : List AudioFrame) (s : ℕ) (f : AudioFrame)
    → find_frame frames s ≡ some f
    → f.sequence_number ≡ s
unfolding find_frame
find_frame-number [] s f e = absurd (ground (arith, e))
find_frame-number (x ∷ frames) s f e = elim (Bool-cases (x.sequence_number == s)) [
  | inl same ↦ ground (arith, e, same)
  | inr other ↦ find_frame-number frames s f (ground (arith, e, other))
]

expected-lost :
    (plan : ImpairmentPlan) (x s : ℕ) (order : List ℕ)
    → contains plan.lost_sequences x ≡ true
    → expected plan s (count s (x ∷ order)) ≡ expected plan s (count s order)
expected-lost plan x s order h = elim (Bool-cases (x == s)) [
  | inl same ↦
      let lost : contains plan.lost_sequences s ≡ true =
        ap (contains plan.lost_sequences) (sym ((==_iff x s).0 same)) ∙ h in
      rw lost refl
  | inr other ↦ rw other refl
]

expected-kept :
    (plan : ImpairmentPlan) (x s : ℕ) (order : List ℕ) (a : ImpairedFrame)
    (later : List ImpairedFrame)
    → contains plan.lost_sequences x ≡ false
    → a.frame.sequence_number ≡ x
    → count s (numbers later) ≡ expected plan s (count s order)
    → count s (numbers (arrive (contains plan.duplicate_sequences x) a later))
      ≡ expected plan s (count s (x ∷ order))
expected-kept plan x s order a later h n e = elim (Bool-cases (x == s)) [
  | inl same ↦
      let at : x ≡ s = (==_iff x s).0 same in
      let kept : contains plan.lost_sequences s ≡ false =
        ap (contains plan.lost_sequences) (sym at) ∙ h in
      let twice : contains plan.duplicate_sequences x ≡ contains plan.duplicate_sequences s =
        ap (contains plan.duplicate_sequences) at in
      ground (arith, e, kept, twice, n, same)
  | inr other ↦ ground (arith, e, other, n)
]

next_delay-IsDelay :
    (delay : ℤ) (delays : List ℤ)
    → IsDelay delay
    → All IsDelay delays
    → IsDelay (next_delay delay delays).0 × All IsDelay (next_delay delay delays).1
next_delay-IsDelay delay [] h hs = (h, tt)
next_delay-IsDelay delay (d ∷ ds) h hs = hs

-- The arrivals of an order are as expected.
abbrev pub Arrive : List ImpairedFrame → ImpairmentPlan → List ℕ → Type 0
Arrive r plan order = (s : ℕ) → count s (numbers r) ≡ expected plan s (count s order)

arrivals-Arrive :
    (frames : List AudioFrame) (plan : ImpairmentPlan) (start_time delay : ℤ) (delays : List ℤ)
    (order : List ℕ)
    → IsDelay delay
    → All IsDelay delays
    → All (IsKnown frames plan) order
    → (r : List ImpairedFrame) × (arrivals frames plan start_time delay delays order ≡ ok r)
      × Arrive r plan order
unfolding arrivals
arrivals-Arrive frames plan start_time delay delays [] h hs k = ([], refl, λ s. ground arith)
arrivals-Arrive frames plan start_time delay delays (x ∷ order) h hs k =
    elim (Bool-cases (contains plan.lost_sequences x)) [
      | inl lost ↦
          let (r, e, a) = arrivals-Arrive frames plan start_time delay delays order h hs k.1 in
          (r, ground (arith, lost, e), λ s. a s ∙ sym (expected-lost plan x s order lost))
      | inr kept ↦
          let (f, found) = has_value-some (find_frame frames x) (ground (arith, kept, k.0)) in
          let next = next_delay delay delays in
          let (g, gs) = next_delay-IsDelay delay delays h hs in
          let (r, e, a) = arrivals-Arrive frames plan start_time next.0 next.1 order g gs k.1 in
          let one : ImpairedFrame = record {
            frame = f;
            arrival_time = start_time +ℤ next.0 *ℤ pos 1_000_000;
          } in
          (
            arrive (contains plan.duplicate_sequences x) one r,
            ground (arith, kept, found, g, e),
            λ s. expected-kept plan x s order one r kept (find_frame-number frames x f found) (a s),
          )
    ]

-- When no delay is negative and each sequence number of the order is that of a frame or is lost, no exception is
-- thrown, and each frame arrives as often as the order names it, twice that if it is duplicated, and never if
-- it is lost.
pub apply_impairment-Arrive :
    (frames : List AudioFrame) (plan : ImpairmentPlan) (start_time : ℤ)
    → All IsDelay plan.arrival_delays
    → All (IsKnown frames plan) (order_of frames plan)
    → (r : List ImpairedFrame) × (apply_impairment frames plan start_time ≡ ok r)
      × Arrive r plan (order_of frames plan)
unfolding apply_impairment
apply_impairment-Arrive frames plan start_time h k =
    arrivals-Arrive frames plan start_time (pos 0) plan.arrival_delays (order_of frames plan) refl h
      k
