-- ===== src/Resilience/Tests.antt =====
-- The simulated network of src/network_resilience.cpp with numbers with a fixed point.
use distributed_audio_system.Audio.{AudioFrame, bytes_per_frame, format_is_valid}
use distributed_audio_system.Float.Fixed.{fixed_float}
use distributed_audio_system.Impairment.{
  ImpairedFrame, ImpairmentPlan, apply_impairment, arrivals, contains, find_frame, order_of,
}
use distributed_audio_system.Jitter.{empty_buffer, jitter_buffer}
use distributed_audio_system.Jitter.Invariant.{Inv}
use distributed_audio_system.Jitter.Trace.{count_from}
use distributed_audio_system.Liveness.{RecoveryConfig, SessionLiveness, session_liveness, streaming}
use distributed_audio_system.Prelude.{
  List, [], arith, length, ok, refl, some, true, ℕ, ◌%◌, ◌+◌, ◌<◌, ◌^◌, ◌∷◌, ◌≡◌, ◌≤◌,
}
use distributed_audio_system.Prelude.Int.{negsuc, pos, ℤ, ◌*ℤ◌, ◌+ℤ◌, ◌-ℤ◌}
use distributed_audio_system.Resilience.{
  AdaptiveJitterBuffer, AdaptiveJitterConfig, adaptive_jitter_buffer, buffer_settings,
  observe_jitter,
}
use distributed_audio_system.Resilience.Depth.{Call, calls, calls_depth, observing}
use distributed_audio_system.Resilience.Frames.{FrameOk}
use distributed_audio_system.Resilience.Outcome.{run_deterministic_resilience_lem}
use distributed_audio_system.Resilience.Run.{ResilienceResult, run_deterministic_resilience}

abbrev depths : AdaptiveJitterConfig
depths = record {
  capacity = 4;
  minimum_depth = 1;
  initial_depth = 1;
  maximum_depth = 2;
  missing_wait = pos 0;
}

abbrev fresh_adaptive : AdaptiveJitterBuffer ℤ
fresh_adaptive = record {
  config = depths;
  target_depth = 1;
  stable_jitter_ms = pos 0;
  buffer = empty_buffer (buffer_settings depths);
}

built : adaptive_jitter_buffer depths ≡ some fresh_adaptive
unfolding adaptive_jitter_buffer jitter_buffer ◌*ℤ◌ ◌-ℤ◌
built = refl

-- Jitters of 100, 100 and -1 milliseconds; the last is not counted.
abbrev jitters : List (Call ℤ)
jitters =
    observing (pos 3_276_800_000)
    ∷ observing (pos 3_276_800_000)
    ∷ observing (negsuc 32_767_999)
    ∷ []

deep : (calls fresh_adaptive jitters).target_depth ≡ 2
unfolding calls observe_jitter ◌*ℤ◌ ◌-ℤ◌ ◌+ℤ◌
deep = refl

calls_depth_example :
    (1 ≤ (calls fresh_adaptive jitters).target_depth)
    × ((calls fresh_adaptive jitters).target_depth ≤ 2)
    × (2 ≤ 4)
    × Inv (calls fresh_adaptive jitters).buffer
calls_depth_example = calls_depth depths fresh_adaptive jitters built (tt, (tt, (tt, tt)))

abbrev recovery : RecoveryConfig
recovery = record {
  warning_timeout = pos 50;
  disconnect_timeout = pos 150;
  retry_interval = pos 20;
  maximum_attempts = 2;
}

abbrev new_liveness : SessionLiveness
new_liveness = record {
  config = recovery;
  last_valid = pos 0;
  next_retry = pos 0;
  state = streaming;
  attempts = 0;
  peer_is_available = true;
}

liveness_built : session_liveness recovery ≡ some new_liveness
unfolding session_liveness
liveness_built = refl

abbrev tone : ℕ → AudioFrame
tone n = record {
  format = record { sample_rate = 1_000; channel_count = 1; bits_per_sample = 16 };
  sequence_number = n;
  timestamp = pos 0;
  payload = 1 ∷ 2 ∷ [];
}

-- The second frame is lost.
abbrev plan : ImpairmentPlan
plan = record {
  arrival_order = [];
  lost_sequences = 2 ∷ [];
  duplicate_sequences = 3 ∷ [];
  arrival_delays = [];
}

abbrev arrived : List ImpairedFrame
arrived =
    record { frame = tone 1; arrival_time = pos 0 }
    ∷ record { frame = tone 3; arrival_time = pos 0 }
    ∷ record { frame = tone 3; arrival_time = pos 0 }
    ∷ []

impaired : apply_impairment (tone 1 ∷ tone 2 ∷ tone 3 ∷ []) plan (pos 0) ≡ ok arrived
unfolding apply_impairment arrivals order_of contains find_frame ◌*ℤ◌ ◌+ℤ◌
impaired = refl

tone-FrameOk : (n : ℕ) → n < 2 ^ 64 → FrameOk (tone n)
unfolding format_is_valid bytes_per_frame
tone-FrameOk n h = (record { valid = refl; whole = λ e. omega (arith, e); aligned = refl }, h)

run_deterministic_resilience_lem_example :
    (r : ResilienceResult ℤ) × (run_deterministic_resilience
        (tone 1 ∷ tone 2 ∷ tone 3 ∷ [])
        plan
        depths
        recovery
      ≡ ok r)
    × (r.statistics.packets_sent ≡ 3)
    × (r.statistics.packets_received ≡ 3)
    × ((r.statistics.packets_accepted + r.statistics.duplicate_packets + r.statistics.late_packets
            + r.statistics.packets_rejected)
          % 2 ^ 64
        ≡ 3)
    × ((n : ℕ) × (r.playback_sequence ≡ count_from n (length r.playback_sequence)))
    × (r.statistics.missing_packets ≡ r.statistics.concealed_frames)
    × (r.statistics.unrecoverable_packets ≡ r.statistics.concealed_frames)
    × (r.is_recovered ≡ true)
run_deterministic_resilience_lem_example =
    run_deterministic_resilience_lem (tone 1 ∷ tone 2 ∷ tone 3 ∷ []) plan depths recovery
      fresh_adaptive new_liveness arrived
      (
        tone-FrameOk 1 (omega arith),
        (tone-FrameOk 2 (omega arith), (tone-FrameOk 3 (omega arith), tt)),
      )
      built liveness_built impaired
