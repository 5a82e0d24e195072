-- ===== src/Synchronization/Controller/Verdict.antt =====
-- The state that `SynchronizationController::update` of src/multi_device_sync.cpp gives an endpoint.
use distributed_audio_system.Float.{Float, Floats}
use distributed_audio_system.Prelude.{
  All, Bool-cases, List, OfOption, Option, [], arith, inl, inr, none, refl, some, true, ◌↔◌, ◌∷◌,
  ◌≡◌, ◌⊎◌,
}
use distributed_audio_system.Prelude.Int.{ℤ, ◌+ℤ◌, ◌≤ℤ◌}
use distributed_audio_system.Synchronization.{
  EndpointMetrics, PlaybackEndpoint, apply_correction, is_stopped_endpoint, magnitude_of,
  synchronized, timing_error,
}
use distributed_audio_system.Synchronization.Controller.{
  SynchronizationController, correct, correction_for, judged, update_endpoints, update_one,
}

module _ {κ} {D : Type κ} ⦃m : Floats D⦄ where
  judged_state :
      (c : SynchronizationController D) (metrics : EndpointMetrics D) (error remaining : ℤ)
      → ((judged c metrics error remaining).current_error ≡ remaining)
        × (((judged c metrics error remaining).state ≡ synchronized)
            ↔ (magnitude_of remaining ≤ℤ c.parameters.tolerance))
  judged_state c metrics error remaining = (ground arith, (ground arith, ground arith))

module _ {ℓ κ} {F : Type ℓ} {D : Type κ} ⦃f : Float F⦄ ⦃m : Floats D⦄ where
  -- An endpoint is stopped, or its state tells whether its timing error is within the tolerance.
  abbrev pub Verdict : SynchronizationController D → ℤ → PlaybackEndpoint F D → Type 0
  Verdict c t e =
      (is_stopped_endpoint e ≡ true)
      ⊎ ((e.metrics.current_error ≡ timing_error e t)
          × ((e.metrics.state ≡ synchronized)
              ↔ (magnitude_of (timing_error e t) ≤ℤ c.parameters.tolerance)))

  correct-Verdict :
      (c : SynchronizationController D) (t : ℤ) (e : PlaybackEndpoint F D)
      → Verdict c t (correct c t e)
  unfolding correct timing_error apply_correction
  correct-Verdict c t e =
      let error = timing_error e t in
      let corrected = apply_correction e (correction_for c.parameters error) in
      inr (judged_state c corrected.metrics error (timing_error corrected t))

  update_one-Verdict :
      (c : SynchronizationController D) (t : ℤ) (o : Option (PlaybackEndpoint F D))
      → OfOption (Verdict c t) (update_one c t o)
  update_one-Verdict c t none = tt
  update_one-Verdict c t (some e) = elim (Bool-cases (is_stopped_endpoint e)) [
    | inl idle ↦ rw idle (inl idle)
    | inr running ↦ rw running (correct-Verdict c t e)
  ]

  -- After `update` at a time each endpoint of the list is stopped, or its current error is its
  -- timing error at that time and its state is synchronized if and only if that error is, without
  -- its sign, at most the tolerance. The controller's time has moved by the interval.
  pub update_endpoints-Verdict :
      (c : SynchronizationController D) (es : List (Option (PlaybackEndpoint F D))) (t : ℤ)
      → All (OfOption (Verdict c t)) (update_endpoints c es t).1
        × ((update_endpoints c es t).0.elapsed ≡ c.elapsed +ℤ c.parameters.update_interval)
  unfolding update_endpoints
  update_endpoints-Verdict c [] t = (tt, refl)
  update_endpoints-Verdict c (o ∷ es) t =
      ((update_one-Verdict c t o, (update_endpoints-Verdict c es t).0), refl)
