-- ===== src/Synchronization/Controller.antt =====
-- `SynchronizationController` of src/multi_device_sync.cpp. The pointers that it is given are distinct or null; a null
-- pointer is `none`.
pub mod Bounds
pub mod Skew
pub mod Verdict
use distributed_audio_system.Float.{Float, Floats}
use distributed_audio_system.Prelude.{
  Bool, List, Option, [], false, if◌then◌else◌, map, none, not, some, true, ◌||◌, ◌∷◌,
}
use distributed_audio_system.Prelude.Int.{ltb_ℤ, pos, ℤ, ◌*ℤ◌, ◌+ℤ◌, ◌-ℤ◌}
use distributed_audio_system.Samples.{clamp_int}
use distributed_audio_system.Synchronization.{
  EndpointMetrics, PlaybackEndpoint, SynchronizationState, apply_correction, degraded,
  is_stopped_endpoint, larger_duration, magnitude_of, smaller_duration, synchronized, synchronizing,
  timing_error,
}

pub record SynchronizationParameters {ℓ} (D : Type ℓ) : Type ℓ where
  pub tolerance : ℤ
  pub maximum_correction : ℤ
  pub convergence_rate : D
  pub update_interval : ℤ

pub record SynchronizationController {ℓ} (D : Type ℓ) : Type ℓ where
  pub parameters : SynchronizationParameters D
  pub elapsed : ℤ

abbrev pub clamp_duration : ℤ → ℤ → ℤ
clamp_duration value limit = clamp_int value (pos 0 -ℤ limit) limit

abbrev pub is_synchronized : SynchronizationState → Bool
is_synchronized synchronized = true
is_synchronized _ = false

module _ {κ} {D : Type κ} ⦃m : Floats D⦄ where
  -- The constructor; `none` is its exception.
  unfoldable pub synchronization_controller :
      SynchronizationParameters D → Option (SynchronizationController D)
  synchronization_controller p =
      if not (ltb_ℤ (pos 0) p.tolerance)
        || not (ltb_ℤ (pos 0) p.maximum_correction)
        || m.double.at_most p.convergence_rate (m.double.literal (pos 0) 0)
        || m.double.below (m.double.literal (pos 1) 0) p.convergence_rate
        || not (ltb_ℤ (pos 0) p.update_interval)
      then none
      else some (record { parameters = p; elapsed = pos 0 })

  -- The correction of an error.
  abbrev pub correction_for : SynchronizationParameters D → ℤ → ℤ
  correction_for p error =
      clamp_duration
        (m.long_double.truncated (
          m.long_double.negated
            (m.long_double.times (m.long_double.of_int error) (m.widen p.convergence_rate))))
        p.maximum_correction

  -- The state and the time of convergence, from the errors before and after the correction.
  abbrev pub judged : SynchronizationController D → EndpointMetrics D → ℤ → ℤ → EndpointMetrics D
  judged c metrics error remaining =
      let metrics = record metrics { current_error = remaining } in
      if not (ltb_ℤ c.parameters.tolerance (magnitude_of remaining))
      then if is_synchronized metrics.state
        then metrics
        else record metrics { state = synchronized; convergence_time = c.elapsed }
      else record metrics {
        state =
            if ltb_ℤ (c.parameters.tolerance *ℤ pos 8) (magnitude_of error)
            then degraded
            else synchronizing;
      }

module _ {ℓ κ} {F : Type ℓ} {D : Type κ} ⦃f : Float F⦄ ⦃m : Floats D⦄ where
  -- The body of the loop of `update`, for an endpoint that is not stopped.
  unfoldable pub correct :
      SynchronizationController D → ℤ → PlaybackEndpoint F D → PlaybackEndpoint F D
  correct c reference_time e =
      let error = timing_error e reference_time in
      let corrected = apply_correction e (correction_for c.parameters error) in
      record corrected {
        metrics = judged c corrected.metrics error (timing_error corrected reference_time);
      }

  abbrev pub update_one :
      SynchronizationController D
      → ℤ
      → Option (PlaybackEndpoint F D)
      → Option (PlaybackEndpoint F D)
  update_one c reference_time none = none
  update_one c reference_time (some e) =
      if is_stopped_endpoint e then some e else some (correct c reference_time e)

  unfoldable pub update_endpoints :
      SynchronizationController D
      → List (Option (PlaybackEndpoint F D))
      → ℤ
      → SynchronizationController D × List (Option (PlaybackEndpoint F D))
  update_endpoints c endpoints reference_time = (
    record c { elapsed = c.elapsed +ℤ c.parameters.update_interval },
    map (update_one c reference_time) endpoints,
  )

  -- The loop of `maximum_skew`, for the minimum and the maximum.
  abbrev pub extremes : ℤ → ℤ × ℤ → List (PlaybackEndpoint F D) → ℤ × ℤ
  extremes reference_time (minimum, maximum) [] = (minimum, maximum)
  extremes reference_time (minimum, maximum) (e ∷ endpoints) =
      let error = timing_error e reference_time in
      extremes reference_time (smaller_duration minimum error, larger_duration maximum error)
        endpoints

  -- The endpoints are not null.
  unfoldable pub maximum_skew : List (PlaybackEndpoint F D) → ℤ → ℤ
  maximum_skew [] reference_time = pos 0
  maximum_skew (e ∷ endpoints) reference_time =
      let first_error = timing_error e reference_time in
      let (minimum, maximum) = extremes reference_time (first_error, first_error) (e ∷ endpoints) in
      maximum -ℤ minimum
