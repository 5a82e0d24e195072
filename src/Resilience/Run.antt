-- ===== src/Resilience/Run.antt =====
-- `run_deterministic_resilience` of src/network_resilience.cpp.
use distributed_audio_system.Audio.{AudioFrame, frame_duration}
use distributed_audio_system.Float.{Float}
use distributed_audio_system.Impairment.{
  ImpairedFrame, ImpairmentError, ImpairmentPlan, apply_impairment,
}
use distributed_audio_system.Jitter.{InsertResult, PlaybackItem}
use distributed_audio_system.Jitter.Playback.{is_played}
use distributed_audio_system.Liveness.{
  RecoveryConfig, ResilienceState, SessionLiveness, session_liveness, streaming, update,
  valid_traffic,
}
use distributed_audio_system.Prelude.{
  Bool, List, Result, [], err, false, if◌then◌else◌, length, none, ok, some, suc, true, zero, ℕ,
  ◌&&◌, ◌+◌, ◌∷◌,
}
use distributed_audio_system.Prelude.Int.{pos, ℤ, ◌*ℤ◌}
use distributed_audio_system.Resilience.{
  AdaptiveJitterBuffer, AdaptiveJitterConfig, NetworkStatistics, adaptive_jitter_buffer,
  count_concealed, count_duplicate, count_late, count_missing, count_unrecoverable, insert_frame,
  new_statistics, packet_accepted, packet_received, packet_rejected, packet_sent, pop_item,
  set_buffer_depth, snapshot,
}

-- The exceptions of the run.
pub data ResilienceError : Type 0 where
  invalid_jitter_config invalid_recovery_config : ResilienceError
  impairment_error : ImpairmentError → ResilienceError

pub record ResilienceResult {ℓ} (D : Type ℓ) : Type ℓ where
  pub playback_sequence : List ℕ
  pub statistics : NetworkStatistics D
  pub final_buffer_depth : ℕ
  pub is_recovered : Bool

abbrev pub is_streaming : ResilienceState → Bool
is_streaming streaming = true
is_streaming _ = false

-- The time between two pops.
abbrev pub frame_step : List AudioFrame → ℤ
frame_step [] = pos 5_000_000
frame_step (frame ∷ frames) = elim (frame_duration frame) [
  | none ↦ pos 5_000_000
  | some duration ↦ duration
]

module _ {ℓ} {D : Type ℓ} ⦃d : Float D⦄ where
  abbrev pub count_result : NetworkStatistics D → InsertResult → NetworkStatistics D
  count_result s InsertResult.inserted = packet_accepted s
  count_result s InsertResult.duplicate = count_duplicate s
  count_result s InsertResult.late = count_late s
  count_result s _ = packet_rejected s

  -- A packet is sent and received, and its frame is offered to the buffer.
  abbrev pub count_event : NetworkStatistics D → ImpairedFrame → InsertResult → NetworkStatistics D
  count_event s event result =
      let size = length event.frame.payload in
      count_result (packet_received (packet_sent s size) size) result

  -- An item that is played is counted.
  abbrev pub count_played : NetworkStatistics D → PlaybackItem → NetworkStatistics D
  count_played s item =
      if is_played item.status && item.concealed
      then count_unrecoverable (count_missing (count_concealed s))
      else s

  -- The loop over the arrivals.
  unfoldable pub arrive_all :
      AdaptiveJitterBuffer D
      → NetworkStatistics D
      → SessionLiveness
      → List ImpairedFrame
      → AdaptiveJitterBuffer D × NetworkStatistics D × SessionLiveness
  arrive_all b s l [] = (b, s, l)
  arrive_all b s l (event ∷ events) =
      let inserted_one = insert_frame b event.frame in
      arrive_all inserted_one.0 (count_event s event inserted_one.1)
        (update (valid_traffic l event.arrival_time) event.arrival_time) events

  -- The loop of the pops, `rounds` times, from an index on.
  unfoldable pub pop_all :
      ℕ
      → ℕ
      → ℤ
      → AdaptiveJitterBuffer D
      → NetworkStatistics D
      → AdaptiveJitterBuffer D × NetworkStatistics D × List ℕ
  pop_all zero index step b s = (b, s, [])
  pop_all (suc rounds) index step b s =
      let one = pop_item b (step *ℤ pos index) in
      let rest = pop_all rounds (index + 1) step one.0 (count_played s one.1) in
      (rest.0, rest.1, if is_played one.1.status then one.1.sequence_number ∷ rest.2 else rest.2)

  -- The run, once its objects are built.
  abbrev pub run_network :
      List AudioFrame
      → List ImpairedFrame
      → AdaptiveJitterBuffer D
      → SessionLiveness
      → ResilienceResult D
  run_network frames events buffer liveness =
      let arrived = arrive_all buffer new_statistics liveness events in
      let played_all = pop_all (length frames + 2) 0 (frame_step frames) arrived.0 arrived.1 in
      let depth = length played_all.0.buffer.frames in
      record {
        playback_sequence = played_all.2;
        statistics = snapshot (set_buffer_depth played_all.1 depth);
        final_buffer_depth = depth;
        is_recovered = is_streaming arrived.2.state;
      }

  unfoldable pub run_deterministic_resilience :
      List AudioFrame
      → ImpairmentPlan
      → AdaptiveJitterConfig
      → RecoveryConfig
      → Result ResilienceError (ResilienceResult D)
  run_deterministic_resilience frames impairment jitter_config recovery_config =
      elim (adaptive_jitter_buffer {D = D} jitter_config) [
        | none ↦ err invalid_jitter_config
        | some buffer ↦ elim (session_liveness recovery_config) [
          | none ↦ err invalid_recovery_config
          | some liveness ↦ elim (apply_impairment frames impairment (pos 0)) [
            | err e ↦ err (impairment_error e)
            | ok events ↦ ok (run_network frames events buffer liveness)
          ]
        ]
      ]
