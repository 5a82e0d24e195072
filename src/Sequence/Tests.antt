-- ===== src/Sequence/Tests.antt =====
-- A tracker of src/sequence_tracker.cpp near the wrap-around, on which the theorems are used.
use distributed_audio_system.Prelude.{[], arith, length, refl, true, ℕ, ◌-◌, ◌^◌, ◌∷◌, ◌≡◌}
use distributed_audio_system.Sequence.{SequenceTracker, new_tracker, observe, zero_statistics}
use distributed_audio_system.Sequence.Laws.{
  Covers, Started, ahead, observe_all, observe_all-Covers, sum,
}

abbrev near_end : SequenceTracker
near_end = record {
  statistics = record zero_statistics { packets_received = 1; packets_accepted = 1 };
  has_last_sequence = true;
  last_sequence = 2 ^ 64 - 2;
}

near_end-Started : Started near_end
near_end-Started = record { seen = refl; last_fits = omega arith }

observe_first :
    (observe new_tracker (2 ^ 64 - 2)).0
    ≡ (record near_end { statistics = record zero_statistics { packets_accepted = 1 } })
unfolding observe
observe_first = refl

observe_all-Covers_example :
    Covers near_end
      (observe_all near_end (ahead near_end.last_sequence (1 ∷ 4 ∷ 2 ∷ [])))
      (sum (1 ∷ 4 ∷ 2 ∷ []))
      (length {A = ℕ} (1 ∷ 4 ∷ 2 ∷ []))
observe_all-Covers_example =
    observe_all-Covers near_end (1 ∷ 4 ∷ 2 ∷ []) near_end-Started (omega arith) (omega arith)
      ((omega arith, omega arith), ((omega arith, omega arith), ((omega arith, omega arith), tt)))
