-- ===== src/Impairment/Tests.antt =====
-- A plan of src/network_impairment.cpp that loses one frame and duplicates another.
use distributed_audio_system.Audio.{AudioFrame}
use distributed_audio_system.Impairment.{
  ImpairedFrame, ImpairmentPlan, apply_impairment, contains, find_frame, order_of,
}
use distributed_audio_system.Impairment.Arrivals.{Arrive, IsKnown, apply_impairment-Arrive}
use distributed_audio_system.Prelude.{All, List, [], ok, refl, ℕ, ◌∷◌, ◌≡◌}
use distributed_audio_system.Prelude.Int.{pos}

abbrev numbered : ℕ → AudioFrame
numbered n = record {
  format = record { sample_rate = 48_000; channel_count = 1; bits_per_sample = 16 };
  sequence_number = n;
  timestamp = pos 0;
  payload = 1 ∷ 2 ∷ [];
}

abbrev three_frames : List AudioFrame
three_frames = numbered 1 ∷ numbered 2 ∷ numbered 3 ∷ []

abbrev sample_plan : ImpairmentPlan
sample_plan = record {
  arrival_order = 3 ∷ 1 ∷ 2 ∷ [];
  lost_sequences = 1 ∷ [];
  duplicate_sequences = 2 ∷ [];
  arrival_delays = pos 5 ∷ [];
}

sample_order-IsKnown : All (IsKnown three_frames sample_plan) (order_of three_frames sample_plan)
unfolding order_of contains find_frame
sample_order-IsKnown = (refl, (refl, (refl, tt)))

apply_impairment-Arrive_example :
    (r : List ImpairedFrame) × (apply_impairment three_frames sample_plan (pos 7) ≡ ok r)
    × Arrive r sample_plan (order_of three_frames sample_plan)
apply_impairment-Arrive_example =
    apply_impairment-Arrive three_frames sample_plan (pos 7) (refl, tt) sample_order-IsKnown
