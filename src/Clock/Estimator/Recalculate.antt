-- ===== src/Clock/Estimator/Recalculate.antt =====
-- What `recalculate` of src/clock_estimator.cpp changes.
use distributed_audio_system.Clock.Estimator.{ClockEstimator, fit_line, recalculate}
use distributed_audio_system.Float.{Floats, number}
use distributed_audio_system.Prelude.{
  Bool-cases, arith, false, inl, inr, length, ltb, not, refl, true, ◌||◌, ◌≡◌, ◌≤◌,
}

module _ {ℓ} {D : Type ℓ} ⦃m : Floats D⦄ where
  -- `recalculate` changes the estimate only, which is ready when there are two samples.
  fit_line-fields :
      (e : ClockEstimator D) (means sums : m.Long × m.Long)
      → fit_line e means sums ≡ record e { estimate = (fit_line e means sums).estimate }
  unfolding fit_line
  fit_line-fields e (mean_remote, mean_local) (covariance, variance) =
      let slope = m.long_double.over covariance variance in
      let intercept =
        m.narrow (m.long_double.minus mean_local (m.long_double.times slope mean_remote)) in
      elim (Bool-cases (m.long_double.at_most variance (number ⦃f = m.long_double⦄ 0))) [
        | inl flat ↦ rw flat refl
        | inr wide ↦
            elim (Bool-cases
              (not (m.double.is_finite (m.narrow slope)) || not (m.double.is_finite intercept))) [
                | inl infinite ↦ rw (wide, infinite) refl
                | inr finite ↦ rw (wide, finite) refl
              ]
      ]

  pub recalculate-fields :
      (e : ClockEstimator D) → recalculate e ≡ record e { estimate = (recalculate e).estimate }
  unfolding recalculate
  recalculate-fields e = elim (Bool-cases (ltb (length e.samples) 2)) [
    | inl few ↦ rw few refl
    | inr many ↦ rw many (fit_line-fields e _ _)
  ]

  pub recalculate_ready :
      (e : ClockEstimator D) → (recalculate e).estimate.ready ≡ true → 2 ≤ length e.samples
  unfolding recalculate
  recalculate_ready e r = elim (Bool-cases (ltb (length e.samples) 2)) [
    | inl few ↦ let waits : (recalculate e).estimate.ready ≡ false = rw few refl in absurd cc
    | inr many ↦ ground (arith, many)
  ]
