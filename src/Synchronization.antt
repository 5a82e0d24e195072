-- ===== src/Synchronization.antt =====
-- `PlaybackEndpoint` of src/multi_device_sync.cpp: a simulated device with a clock of its own. `F` stands for `float`,
-- `D` for `double`.
pub mod Advance
pub mod Controller
mod Tests
use distributed_audio_system.Audio.{AudioFrame, i64_max}
use distributed_audio_system.Clock.{JitterEstimator, new_jitter_estimator}
use distributed_audio_system.Clock.Estimator.{ClockEstimator, empty_estimator}
use distributed_audio_system.Clock.Simulated.{SimulatedPlayback, new_playback}
use distributed_audio_system.Float.{Float, Floats, number}
use distributed_audio_system.Impairment.{
  ImpairedFrame, ImpairmentError, ImpairmentPlan, apply_impairment,
}
use distributed_audio_system.Jitter.{JitterBuffer, JitterConfig, close, jitter_buffer, silence}
use distributed_audio_system.Prelude.{
  Bool, List, Option, Result, [], err, false, if◌then◌else◌, length, none, not, ok, some, suc, true,
  ℕ, ◌==◌, ◌||◌,
}
use distributed_audio_system.Prelude.Int.{ltb_ℤ, negsuc, pos, ℤ, ◌+ℤ◌}

pub data SynchronizationState : Type 0 where
  synchronizing synchronized : SynchronizationState
  outside_tolerance degraded stopped : SynchronizationState

-- The name is its bytes.
pub record EndpointConfig {ℓ} (D : Type ℓ) : Type ℓ where
  pub name : List ℕ
  pub initial_offset : ℤ
  pub drift_ppm : D
  pub impairment : ImpairmentPlan

pub record EndpointMetrics {ℓ} (D : Type ℓ) : Type ℓ where
  pub initial_offset : ℤ
  pub configured_drift_ppm : D
  pub estimated_offset_ms : D
  pub estimated_drift_ppm : D
  pub current_error : ℤ
  pub applied_correction : ℤ
  pub maximum_applied_correction : ℤ
  pub state : SynchronizationState
  pub convergence_time : ℤ
  pub frames_received : ℕ
  pub frames_played : ℕ
  pub missing_frames : ℕ
  pub concealed_frames : ℕ
  pub duplicates_rejected : ℕ
  pub late_frames_rejected : ℕ

-- `arrivals` are the events of `arrivals_` from `next_arrival_` on.
pub record PlaybackEndpoint {ℓ κ} (F : Type ℓ) (D : Type κ) : Type (ℓ ⊔ κ) where
  pub config : EndpointConfig D
  pub jitter_buffer : JitterBuffer
  pub jitter_estimator : JitterEstimator D
  pub clock_estimator : ClockEstimator D
  pub playback : SimulatedPlayback F
  pub arrivals : List ImpairedFrame
  pub correction : ℤ
  pub metrics : EndpointMetrics D
  pub loaded : Bool

abbrev pub is_stopped_state : SynchronizationState → Bool
is_stopped_state SynchronizationState.stopped = true
is_stopped_state _ = false

-- std::llabs, without the bound of std::int64_t.
abbrev pub magnitude_of : ℤ → ℤ
magnitude_of (pos n) = pos n
magnitude_of (negsuc n) = pos (suc n)

-- std::max on durations.
abbrev pub larger_duration : ℤ → ℤ → ℤ
larger_duration a b = if ltb_ℤ a b then b else a

abbrev pub smaller_duration : ℤ → ℤ → ℤ
smaller_duration a b = if ltb_ℤ b a then b else a

-- The arguments of the jitter buffer; the policy is its default.
abbrev pub endpoint_settings : ℕ → ℕ → ℤ → JitterConfig
endpoint_settings jitter_capacity prebuffer_target missing_wait = record {
  capacity = jitter_capacity;
  prebuffer_target = prebuffer_target;
  missing_wait = missing_wait;
  concealment = silence;
}

module _ {ℓ κ} {F : Type ℓ} {D : Type κ} ⦃f : Float F⦄ ⦃m : Floats D⦄ where
  abbrev pub is_stopped_endpoint : PlaybackEndpoint F D → Bool
  is_stopped_endpoint e = is_stopped_state e.metrics.state

  -- The members that the constructor sets.
  abbrev pub fresh_endpoint : EndpointConfig D → JitterBuffer → PlaybackEndpoint F D
  fresh_endpoint config buffer = record {
    config = config;
    jitter_buffer = buffer;
    jitter_estimator = new_jitter_estimator ⦃d = m.double⦄;
    clock_estimator = empty_estimator 32;
    playback = new_playback;
    arrivals = [];
    correction = pos 0;
    metrics = record {
      initial_offset = config.initial_offset;
      configured_drift_ppm = config.drift_ppm;
      estimated_offset_ms = m.double.literal (pos 0) 0;
      estimated_drift_ppm = m.double.literal (pos 0) 0;
      current_error = pos 0;
      applied_correction = pos 0;
      maximum_applied_correction = pos 0;
      state = synchronizing;
      convergence_time = pos 0;
      frames_received = 0;
      frames_played = 0;
      missing_frames = 0;
      concealed_frames = 0;
      duplicates_rejected = 0;
      late_frames_rejected = 0;
    };
    loaded = false;
  }

  -- The constructor; `none` is its exception, or that of the buffer in it.
  unfoldable pub playback_endpoint : EndpointConfig D → ℕ → ℕ → ℤ → Option (PlaybackEndpoint F D)
  playback_endpoint config jitter_capacity prebuffer_target missing_wait =
      elim (jitter_buffer (endpoint_settings jitter_capacity prebuffer_target missing_wait)) [
        | none ↦ none
        | some buffer ↦
            if length config.name == 0 || not (m.double.is_finite config.drift_ppm)
            then none
            else some (fresh_endpoint config buffer)
      ]

  abbrev pub loaded_endpoint : PlaybackEndpoint F D → List ImpairedFrame → PlaybackEndpoint F D
  loaded_endpoint e events = record e {
    arrivals = events;
    loaded = true;
    metrics = record e.metrics { state = synchronizing };
  }

  unfoldable pub load :
      PlaybackEndpoint F D → List AudioFrame → ℤ → Result ImpairmentError (PlaybackEndpoint F D)
  load e frames simulation_start =
      elim (apply_impairment frames e.config.impairment simulation_start) [
        | err x ↦ err x
        | ok events ↦ ok (loaded_endpoint e events)
      ]

  -- The drift of the clock, as a `long double`.
  abbrev pub drift_of : PlaybackEndpoint F D → m.Long
  drift_of e =
      m.long_double.over (m.widen e.config.drift_ppm) (number ⦃f = m.long_double⦄ 1_000_000)

  unfoldable pub stop_endpoint : PlaybackEndpoint F D → PlaybackEndpoint F D
  stop_endpoint e = record e {
    jitter_buffer = close e.jitter_buffer;
    metrics = record e.metrics { state = SynchronizationState.stopped };
  }

  unfoldable pub timing_error : PlaybackEndpoint F D → ℤ → ℤ
  timing_error e reference_time =
      let error =
        m.long_double.plus
          (m.long_double.plus (m.long_double.of_int e.config.initial_offset)
            (m.long_double.times (drift_of e) (m.long_double.of_int reference_time)))
          (m.long_double.of_int e.correction) in
      if m.long_double.below (m.long_double.of_int (pos i64_max)) error
      then pos i64_max
      else if m.long_double.below error (m.long_double.of_int (negsuc i64_max))
      then negsuc i64_max
      else m.long_double.truncated error

  unfoldable pub apply_correction : PlaybackEndpoint F D → ℤ → PlaybackEndpoint F D
  apply_correction e correction =
      let total = e.correction +ℤ correction in
      record e {
        correction = total;
        metrics = record e.metrics {
          applied_correction = total;
          maximum_applied_correction =
              larger_duration e.metrics.maximum_applied_correction (magnitude_of total);
        };
      }
