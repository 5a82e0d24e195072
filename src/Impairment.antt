-- ===== src/Impairment.antt =====
-- src/network_impairment.cpp: frames that a simulated network loses, duplicates, delays and reorders.
pub mod Arrivals
mod Tests
use distributed_audio_system.Audio.{AudioFrame}
use distributed_audio_system.Prelude.{
  Bool, List, Option, Result, [], err, false, if◌then◌else◌, none, ok, some, ℕ, ◌==◌, ◌||◌, ◌∷◌,
}
use distributed_audio_system.Prelude.Int.{ltb_ℤ, pos, ℤ, ◌*ℤ◌, ◌+ℤ◌}

pub record ImpairedFrame : Type 0 where
  pub frame : AudioFrame
  pub arrival_time : ℤ

-- The delays are in milliseconds.
pub record ImpairmentPlan : Type 0 where
  pub arrival_order : List ℕ
  pub lost_sequences : List ℕ
  pub duplicate_sequences : List ℕ
  pub arrival_delays : List ℤ

-- The exceptions of `apply_impairment`.
pub data ImpairmentError : Type 0 where
  unknown_sequence negative_delay : ImpairmentError

unfoldable pub contains : List ℕ → ℕ → Bool
contains [] value = false
contains (v ∷ values) value = v == value || contains values value

unfoldable pub find_frame : List AudioFrame → ℕ → Option AudioFrame
find_frame [] sequence = none
find_frame (frame ∷ frames) sequence =
    let rest = find_frame frames sequence in
    if frame.sequence_number == sequence then some frame else rest

-- The delay of the next frame and the delays after it; the last delay is used again when none is left.
abbrev pub next_delay : ℤ → List ℤ → ℤ × List ℤ
next_delay delay [] = (delay, [])
next_delay delay (d ∷ ds) = (d, ds)

abbrev pub arrive : Bool → ImpairedFrame → List ImpairedFrame → List ImpairedFrame
arrive duplicated x later = if duplicated then x ∷ x ∷ later else x ∷ later

-- The loop of `apply_impairment`, over the order.
unfoldable pub arrivals :
    List AudioFrame
    → ImpairmentPlan
    → ℤ
    → ℤ
    → List ℤ
    → List ℕ
    → Result ImpairmentError (List ImpairedFrame)
arrivals frames plan start_time delay delays [] = ok []
arrivals frames plan start_time delay delays (sequence ∷ order) =
    let skipped = arrivals frames plan start_time delay delays order in
    let next = next_delay delay delays in
    let rest = arrivals frames plan start_time next.0 next.1 order in
    if contains plan.lost_sequences sequence then skipped else elim (find_frame frames sequence) [
      | none ↦ err unknown_sequence
      | some frame ↦ if ltb_ℤ next.0 (pos 0) then err negative_delay else elim rest [
        | err e ↦ err e
        | ok later ↦ ok (
            arrive (contains plan.duplicate_sequences sequence)
              (record { frame = frame; arrival_time = start_time +ℤ next.0 *ℤ pos 1_000_000 })
              later)
      ]
    ]

abbrev pub sequence_numbers : List AudioFrame → List ℕ
sequence_numbers [] = []
sequence_numbers (frame ∷ frames) = frame.sequence_number ∷ sequence_numbers frames

unfoldable pub order_of : List AudioFrame → ImpairmentPlan → List ℕ
order_of frames plan = elim plan.arrival_order [
  | [] ↦ sequence_numbers frames
  | sequence ∷ order ↦ sequence ∷ order
]

unfoldable pub apply_impairment :
    List AudioFrame → ImpairmentPlan → ℤ → Result ImpairmentError (List ImpairedFrame)
apply_impairment frames plan start_time =
    arrivals frames plan start_time (pos 0) plan.arrival_delays (order_of frames plan)
