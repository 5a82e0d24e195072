-- ===== src/Clock.antt =====
-- src/clock.cpp, and `JitterEstimator` of src/timing_utils.cpp. A time point is an integer of nanoseconds,
-- and a `double` is of a type that is a parameter. SteadyClock asks the machine and is left out.
pub mod Estimator
pub mod Scheduler
pub mod Simulated
mod Tests
use distributed_audio_system.Float.{Float, number, zero_float}
use distributed_audio_system.Prelude.{Bool, false, if◌then◌else◌, not, true, ℕ}
use distributed_audio_system.Prelude.Int.{ℤ, ◌+ℤ◌}
use distributed_audio_system.Sequence.{add_u64}

pub record ManualClock : Type 0 where
  pub current : ℤ

unfoldable pub set_time : ManualClock → ℤ → ManualClock
set_time clock time = record clock { current = time }

unfoldable pub advance_time : ManualClock → ℤ → ManualClock
advance_time clock duration = record clock { current = clock.current +ℤ duration }

pub record JitterEstimate {ℓ} (D : Type ℓ) : Type ℓ where
  pub nanoseconds : D
  pub samples : ℕ

pub record JitterEstimator {ℓ} (D : Type ℓ) : Type ℓ where
  pub initialized : Bool
  pub previous_transit : D
  pub estimate : JitterEstimate D

module _ {ℓ} {D : Type ℓ} ⦃d : Float D⦄ where
  -- The initial values, and `reset`.
  abbrev pub new_jitter_estimator : JitterEstimator D
  new_jitter_estimator = record {
    initialized = false;
    previous_transit = zero_float;
    estimate = record { nanoseconds = zero_float; samples = 0 };
  }

  unfoldable pub update_jitter : JitterEstimator D → ℤ → ℤ → JitterEstimator D
  update_jitter e sender_timestamp arrival_time =
      let transit = d.minus (d.of_int arrival_time) (d.of_int sender_timestamp) in
      let difference = d.magnitude (d.minus transit e.previous_transit) in
      let old = e.estimate.nanoseconds in
      if not e.initialized
      then record e {
        initialized = true;
        previous_transit = transit;
        estimate = record e.estimate { samples = 1 };
      }
      else record e {
        previous_transit = transit;
        estimate = record {
          nanoseconds = d.plus old (d.over (d.minus difference old) (number 16));
          samples = add_u64 e.estimate.samples 1;
        };
      }
