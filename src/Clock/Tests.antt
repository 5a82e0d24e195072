-- ===== src/Clock/Tests.antt =====
-- The clocks, with numbers with a fixed point.
use distributed_audio_system.Clock.Estimator.{
  ClockEstimator, add_sample, clock_estimator, empty_estimator, fit_line, map_remote_to_local,
  recalculate,
}
use distributed_audio_system.Clock.Estimator.Samples.{
  Call, Falling, calls, estimator_calls, sampling,
}
use distributed_audio_system.Float.Fixed.{fixed_floats}
use distributed_audio_system.Prelude.{List, [], length, min, refl, some, ◌∷◌, ◌≡◌, ◌≤◌}
use distributed_audio_system.Prelude.Int.{pos, ℤ, ◌*ℤ◌, ◌+ℤ◌, ◌-ℤ◌}

-- A local clock that is 1000 ahead and runs at the double rate; the fourth pair goes back.
abbrev clock_run : List Call
clock_run =
    sampling (pos 100) (pos 1_100)
    ∷ sampling (pos 200) (pos 1_300)
    ∷ sampling (pos 300) (pos 1_500)
    ∷ sampling (pos 250) (pos 1_600)
    ∷ []

abbrev fresh_estimator : ClockEstimator ℤ
fresh_estimator = empty_estimator 2

built : clock_estimator 2 ≡ some fresh_estimator
unfolding clock_estimator
built = refl

run_maps : map_remote_to_local (calls fresh_estimator [] clock_run).0 (pos 400) ≡ some (pos 1_700)
unfolding map_remote_to_local calls add_sample recalculate fit_line ◌*ℤ◌ ◌-ℤ◌ ◌+ℤ◌
run_maps = refl

estimator_calls_example :
    Falling (calls fresh_estimator [] clock_run).1
    × (length (calls fresh_estimator [] clock_run).0.samples
        ≡ min (length (calls fresh_estimator [] clock_run).1) 2)
    × ((t l : ℤ)
        → map_remote_to_local (calls fresh_estimator [] clock_run).0 t ≡ some l
        → 2 ≤ length (calls fresh_estimator [] clock_run).1)
estimator_calls_example = estimator_calls 2 fresh_estimator clock_run built
