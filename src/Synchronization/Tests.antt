-- ===== src/Synchronization/Tests.antt =====
-- Two pointers and a controller, with numbers with a fixed point.
use distributed_audio_system.Audio.{AudioFrame, bytes_per_frame, format_is_valid}
use distributed_audio_system.Clock.{new_jitter_estimator}
use distributed_audio_system.Clock.Estimator.{empty_estimator}
use distributed_audio_system.Clock.Simulated.{new_playback}
use distributed_audio_system.Float.Fixed.{fixed_float, fixed_floats}
use distributed_audio_system.Impairment.{
  ImpairedFrame, apply_impairment, arrivals, contains, find_frame, order_of,
}
use distributed_audio_system.Jitter.{empty_buffer, jitter_buffer, silence}
use distributed_audio_system.Jitter.Invariant.{Inv}
use distributed_audio_system.Jitter.Trace.{count_from}
use distributed_audio_system.Prelude.{
  All, List, OfOption, Option, [], arith, false, length, map, none, ok, refl, some, ℕ, ◌%◌, ◌+◌,
  ◌<◌, ◌^◌, ◌∷◌, ◌≡◌,
}
use distributed_audio_system.Prelude.Int.{negsuc, pos, ℤ, ◌*ℤ◌, ◌+ℤ◌, ◌-ℤ◌, ◌≤ℤ◌}
use distributed_audio_system.Synchronization.{
  EndpointConfig, EndpointMetrics, PlaybackEndpoint, apply_correction, endpoint_settings,
  fresh_endpoint, load, loaded_endpoint, playback_endpoint, synchronizing, timing_error,
}
use distributed_audio_system.Synchronization.Advance.Order.{Playable}
use distributed_audio_system.Synchronization.Advance.Runs.{advances, advances-count_from}
use distributed_audio_system.Synchronization.Controller.{
  SynchronizationController, SynchronizationParameters, correct, maximum_skew,
  synchronization_controller, update_endpoints,
}
use distributed_audio_system.Synchronization.Controller.Bounds.{
  AllSteered, updates, updates-AllSteered,
}
use distributed_audio_system.Synchronization.Controller.Skew.{HasError, maximum_skew-HasError}
use distributed_audio_system.Synchronization.Controller.Verdict.{Verdict, update_endpoints-Verdict}

abbrev parameters_used : SynchronizationParameters ℤ
parameters_used = record {
  tolerance = pos 10;
  maximum_correction = pos 100;
  convergence_rate = pos 16_384_000;
  update_interval = pos 20;
}

abbrev controller : SynchronizationController ℤ
controller = record { parameters = parameters_used; elapsed = pos 0 }

built : synchronization_controller parameters_used ≡ some controller
unfolding synchronization_controller ◌*ℤ◌ ◌-ℤ◌
built = refl

abbrev no_metrics : EndpointMetrics ℤ
no_metrics = record {
  initial_offset = pos 0;
  configured_drift_ppm = pos 0;
  estimated_offset_ms = pos 0;
  estimated_drift_ppm = pos 0;
  current_error = pos 0;
  applied_correction = pos 0;
  maximum_applied_correction = pos 0;
  state = synchronizing;
  convergence_time = pos 0;
  frames_received = 0;
  frames_played = 0;
  missing_frames = 0;
  concealed_frames = 0;
  duplicates_rejected = 0;
  late_frames_rejected = 0;
}

abbrev device : ℤ → PlaybackEndpoint ℤ ℤ
device offset = record {
  config = record {
    name = 65 ∷ [];
    initial_offset = offset;
    drift_ppm = pos 0;
    impairment = record {
      arrival_order = [];
      lost_sequences = [];
      duplicate_sequences = [];
      arrival_delays = [];
    };
  };
  jitter_buffer =
      empty_buffer (record {
        capacity = 4;
        prebuffer_target = 1;
        missing_wait = pos 0;
        concealment = silence;
      });
  jitter_estimator = new_jitter_estimator ⦃d = fixed_float⦄;
  clock_estimator = empty_estimator 32;
  playback = new_playback;
  arrivals = [];
  correction = pos 0;
  metrics = no_metrics;
  loaded = false;
}

abbrev pointers : List (Option (PlaybackEndpoint ℤ ℤ))
pointers = some (device (pos 300)) ∷ none ∷ some (device (negsuc 7)) ∷ []

abbrev correction_of : Option (PlaybackEndpoint ℤ ℤ) → ℤ
correction_of none = pos 0
correction_of (some e) = e.correction

corrections :
    map correction_of (updates controller pointers (pos 0 ∷ pos 20 ∷ [])).1
    ≡ negsuc 199 ∷ pos 0 ∷ pos 6 ∷ []
unfolding update_endpoints correct timing_error apply_correction ◌*ℤ◌ ◌-ℤ◌ ◌+ℤ◌
corrections = refl

updates-AllSteered_example :
    AllSteered 200 pointers (updates controller pointers (pos 0 ∷ pos 20 ∷ [])).1
updates-AllSteered_example =
    updates-AllSteered parameters_used controller built pointers (pos 0 ∷ pos 20 ∷ [])

update_endpoints-Verdict_example :
    All (OfOption (Verdict controller (pos 20))) (update_endpoints controller pointers (pos 20)).1
    × ((update_endpoints controller pointers (pos 20)).0.elapsed ≡ pos 0 +ℤ pos 20)
update_endpoints-Verdict_example = update_endpoints-Verdict controller pointers (pos 20)

skew : maximum_skew (device (pos 300) ∷ device (negsuc 7) ∷ []) (pos 0) ≡ pos 308
unfolding maximum_skew timing_error ◌*ℤ◌ ◌-ℤ◌ ◌+ℤ◌
skew = refl

maximum_skew-HasError_example :
    All
      (λ a.
        All
          (λ b.
            timing_error a (pos 0) -ℤ timing_error b (pos 0)
            ≤ℤ maximum_skew (device (pos 300) ∷ device (negsuc 7) ∷ []) (pos 0))
          (device (pos 300) ∷ device (negsuc 7) ∷ []))
      (device (pos 300) ∷ device (negsuc 7) ∷ [])
    × ((high low : ℤ) × HasError (pos 0) (device (pos 300) ∷ device (negsuc 7) ∷ []) high
        × HasError (pos 0) (device (pos 300) ∷ device (negsuc 7) ∷ []) low
        × (maximum_skew (device (pos 300) ∷ device (negsuc 7) ∷ []) (pos 0) ≡ high -ℤ low))
maximum_skew-HasError_example =
    maximum_skew-HasError (device (pos 300)) (device (negsuc 7) ∷ []) (pos 0)

abbrev click : ℕ → AudioFrame
click n = record {
  format = record { sample_rate = 1_000; channel_count = 1; bits_per_sample = 16 };
  sequence_number = n;
  timestamp = pos 0;
  payload = 1 ∷ 2 ∷ [];
}

click-Playable : (n : ℕ) → n < 2 ^ 64 → Playable (click n)
unfolding format_is_valid bytes_per_frame
click-Playable n h = (
  (record { valid = refl; whole = λ e. omega (arith, e); aligned = refl }, h),
  record { pcm_valid = refl; pcm_bits = refl; pcm_even = refl },
)

-- The second of three frames is lost.
abbrev lossy_config : EndpointConfig ℤ
lossy_config = record {
  name = 65 ∷ [];
  initial_offset = pos 5;
  drift_ppm = pos 0;
  impairment = record {
    arrival_order = [];
    lost_sequences = 2 ∷ [];
    duplicate_sequences = [];
    arrival_delays = [];
  };
}

abbrev lossy_endpoint : PlaybackEndpoint ℤ ℤ
lossy_endpoint = fresh_endpoint lossy_config (empty_buffer (endpoint_settings 4 1 (pos 0)))

abbrev lossy_arrivals : List ImpairedFrame
lossy_arrivals =
    record { frame = click 1; arrival_time = pos 0 }
    ∷ record { frame = click 3; arrival_time = pos 0 }
    ∷ []

endpoint_built : playback_endpoint lossy_config 4 1 (pos 0) ≡ some lossy_endpoint
unfolding playback_endpoint jitter_buffer ◌*ℤ◌ ◌-ℤ◌
endpoint_built = refl

endpoint_loaded :
    load lossy_endpoint (click 1 ∷ click 2 ∷ click 3 ∷ []) (pos 0)
    ≡ ok (loaded_endpoint lossy_endpoint lossy_arrivals)
unfolding load apply_impairment arrivals order_of contains find_frame ◌*ℤ◌ ◌+ℤ◌ ◌-ℤ◌
endpoint_loaded = refl

advances-count_from_example :
    (e : PlaybackEndpoint ℤ ℤ) × (advances
        (loaded_endpoint lossy_endpoint lossy_arrivals)
        (pos 0 ∷ pos 5 ∷ pos 9 ∷ [])
      ≡ ok e)
    × Inv e.jitter_buffer
    × ((k : ℕ) × (e.playback.playback_sequence
          ≡ count_from k (length e.playback.playback_sequence)))
    × ((e.metrics.frames_received + length e.arrivals) % 2 ^ 64 ≡ 2)
advances-count_from_example =
    advances-count_from lossy_config 4 1 (pos 0) lossy_endpoint
      (loaded_endpoint lossy_endpoint lossy_arrivals) (click 1 ∷ click 2 ∷ click 3 ∷ []) (pos 0)
      (pos 0 ∷ pos 5 ∷ pos 9 ∷ []) endpoint_built
      (
        click-Playable 1 (omega arith),
        (click-Playable 2 (omega arith), (click-Playable 3 (omega arith), tt)),
      )
      endpoint_loaded
