-- ===== src/Clock/Estimator.antt =====
-- src/clock_estimator.cpp: the straight line through pairs of a remote and a local time.
pub mod Recalculate
pub mod Samples
use distributed_audio_system.Audio.{i64_max}
use distributed_audio_system.Float.{Floats, number}
use distributed_audio_system.Prelude.{
  Bool, List, Option, [], drop, false, if◌then◌else◌, length, ltb, none, not, some, true, ℕ, ◌++◌,
  ◌==◌, ◌||◌, ◌∷◌,
}
use distributed_audio_system.Prelude.Int.{ltb_ℤ, negsuc, pos, ℤ}

pub record ClockEstimate {ℓ} (D : Type ℓ) : Type ℓ where
  pub ready : Bool
  pub offset_nanoseconds : D
  pub rate : D
  pub drift_ppm : D

pub record Sample {ℓ} (D : Type ℓ) : Type ℓ where
  pub remote_delta : D
  pub local_delta : D

pub record ClockEstimator {ℓ} (D : Type ℓ) : Type ℓ where
  pub maximum_samples : ℕ
  pub samples : List (Sample D)
  pub remote_origin : ℤ
  pub local_origin : ℤ
  pub last_remote : ℤ
  pub last_local : ℤ
  pub has_origin : Bool
  pub estimate : ClockEstimate D

module _ {ℓ} {D : Type ℓ} ⦃m : Floats D⦄ where
  -- A whole number as a `double`.
  abbrev double_number : ℕ → D
  double_number n = m.double.literal (pos n) 0

  abbrev pub no_estimate : ClockEstimate D
  no_estimate = record {
    ready = false;
    offset_nanoseconds = double_number 0;
    rate = double_number 1;
    drift_ppm = double_number 0;
  }

  abbrev pub empty_estimator : ℕ → ClockEstimator D
  empty_estimator maximum = record {
    maximum_samples = maximum;
    samples = [];
    remote_origin = pos 0;
    local_origin = pos 0;
    last_remote = pos 0;
    last_local = pos 0;
    has_origin = false;
    estimate = no_estimate;
  }

  -- The constructor; `none` is its exception.
  unfoldable pub clock_estimator : ℕ → Option (ClockEstimator D)
  clock_estimator maximum = if maximum == 0 then none else some (empty_estimator maximum)

  unfoldable pub reset_estimator : ClockEstimator D → ClockEstimator D
  reset_estimator e = empty_estimator e.maximum_samples

  -- The first loop of `recalculate`, for both sums.
  abbrev pub sum_samples : m.Long → m.Long → List (Sample D) → m.Long × m.Long
  sum_samples remote local_ [] = (remote, local_)
  sum_samples remote local_ (s ∷ rest) =
      sum_samples (m.long_double.plus remote (m.widen s.remote_delta))
        (m.long_double.plus local_ (m.widen s.local_delta)) rest

  -- The second loop of `recalculate`: the covariance and the variance.
  abbrev pub sum_products : m.Long → m.Long → m.Long → m.Long → List (Sample D) → m.Long × m.Long
  sum_products mean_remote mean_local covariance variance [] = (covariance, variance)
  sum_products mean_remote mean_local covariance variance (s ∷ rest) =
      let remote = m.long_double.minus (m.widen s.remote_delta) mean_remote in
      let local_ = m.long_double.minus (m.widen s.local_delta) mean_local in
      sum_products mean_remote mean_local
        (m.long_double.plus covariance (m.long_double.times remote local_))
        (m.long_double.plus variance (m.long_double.times remote remote)) rest

  abbrev pub not_ready_now : ClockEstimator D → ClockEstimator D
  not_ready_now e = record e { estimate = record e.estimate { ready = false } }

  -- The difference of the origins.
  abbrev pub origin_offset : ClockEstimator D → D
  origin_offset e =
      m.double.minus (m.double.of_int e.local_origin) (m.double.of_int e.remote_origin)

  -- The end of `recalculate`, from the means and the sums of products.
  unfoldable pub fit_line : ClockEstimator D → m.Long × m.Long → m.Long × m.Long → ClockEstimator D
  fit_line e (mean_remote, mean_local) (covariance, variance) =
      let slope = m.long_double.over covariance variance in
      let rate = m.narrow slope in
      let intercept =
        m.narrow (m.long_double.minus mean_local (m.long_double.times slope mean_remote)) in
      if m.long_double.at_most variance (number ⦃f = m.long_double⦄ 0)
      then not_ready_now e
      else if not (m.double.is_finite rate) || not (m.double.is_finite intercept)
      then not_ready_now e
      else record e {
        estimate = record {
          ready = true;
          rate = rate;
          offset_nanoseconds = m.double.plus (origin_offset e) intercept;
          drift_ppm =
              m.double.times (m.double.minus rate (double_number 1)) (double_number 1_000_000);
        };
      }

  unfoldable pub recalculate : ClockEstimator D → ClockEstimator D
  recalculate e =
      let amount = m.long_double.of_int (pos (length e.samples)) in
      let (sum_remote, sum_local) =
        sum_samples (number ⦃f = m.long_double⦄ 0) (number ⦃f = m.long_double⦄ 0) e.samples in
      let mean_remote = m.long_double.over sum_remote amount in
      let mean_local = m.long_double.over sum_local amount in
      if ltb (length e.samples) 2
      then not_ready_now e
      else fit_line e (mean_remote, mean_local)
          (sum_products mean_remote mean_local (number ⦃f = m.long_double⦄ 0)
            (number ⦃f = m.long_double⦄ 0) e.samples)

  -- The oldest sample makes room for a new one.
  abbrev pub with_sample : ClockEstimator D → Sample D → List (Sample D)
  with_sample e s =
      (if length e.samples == e.maximum_samples then drop 1 e.samples else e.samples) ++ s ∷ []

  unfoldable pub add_sample : ClockEstimator D → ℤ → ℤ → ClockEstimator D × Bool
  add_sample e remote local_ =
      let remote_delta =
        m.double.minus (m.double.of_int remote) (m.double.of_int e.remote_origin) in
      let local_delta = m.double.minus (m.double.of_int local_) (m.double.of_int e.local_origin) in
      if not e.has_origin
      then (
        record e {
          remote_origin = remote;
          local_origin = local_;
          last_remote = remote;
          last_local = local_;
          has_origin = true;
          samples =
              e.samples
              ++ record { remote_delta = double_number 0; local_delta = double_number 0 } ∷ [];
          estimate = no_estimate;
        },
        true,
      )
      else if ltb_ℤ remote e.last_remote || ltb_ℤ local_ e.last_local
      then (e, false)
      else if not (m.double.is_finite remote_delta) || not (m.double.is_finite local_delta)
      then (e, false)
      else (
        recalculate (record e {
          samples =
              with_sample e (record { remote_delta = remote_delta; local_delta = local_delta });
          last_remote = remote;
          last_local = local_;
        }),
        true,
      )

  unfoldable pub map_remote_to_local : ClockEstimator D → ℤ → Option ℤ
  map_remote_to_local e remote_time =
      let remote_delta =
        m.double.minus (m.double.of_int remote_time) (m.double.of_int e.remote_origin) in
      let local_delta =
        m.double.plus (m.double.times e.estimate.rate remote_delta)
          (m.double.minus e.estimate.offset_nanoseconds (origin_offset e)) in
      let local_ = m.long_double.plus (m.long_double.of_int e.local_origin) (m.widen local_delta) in
      if not e.estimate.ready || not e.has_origin
      then none
      else if not (m.double.is_finite (m.narrow local_))
          || m.long_double.below local_ (m.long_double.of_int (negsuc i64_max))
          || m.long_double.below (m.long_double.of_int (pos i64_max)) local_
      then none
      else some (m.long_double.truncated local_)
