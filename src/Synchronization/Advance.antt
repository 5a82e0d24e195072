-- ===== src/Synchronization/Advance.antt =====
-- `PlaybackEndpoint::advance` of src/multi_device_sync.cpp.
pub mod Order
pub mod Sound
pub mod Runs
use distributed_audio_system.Clock.{update_jitter}
use distributed_audio_system.Clock.Estimator.{add_sample}
use distributed_audio_system.Clock.Simulated.{consume}
use distributed_audio_system.Float.{Float, Floats, number}
use distributed_audio_system.Impairment.{ImpairedFrame}
use distributed_audio_system.Jitter.{
  InsertResult, JitterBuffer, PlaybackItem, insert, is_stopped, pop,
}
use distributed_audio_system.Jitter.Playback.{is_played}
use distributed_audio_system.Prelude.{
  Bool, List, Result, [], err, if◌then◌else◌, not, ok, ◌||◌, ◌∷◌,
}
use distributed_audio_system.Prelude.Int.{ltb_ℤ, pos, ℤ}
use distributed_audio_system.Samples.{SampleError}
use distributed_audio_system.Sequence.{add_u64}
use distributed_audio_system.Synchronization.{
  EndpointMetrics, PlaybackEndpoint, SynchronizationState, drift_of, is_stopped_endpoint,
}

abbrev pub is_stopped_buffer : JitterBuffer → Bool
is_stopped_buffer b = is_stopped b.state

-- What an insertion counts.
abbrev pub count_insertion {ℓ} : {D : Type ℓ} → EndpointMetrics D → InsertResult → EndpointMetrics D
count_insertion metrics InsertResult.duplicate = record metrics {
  duplicates_rejected = add_u64 metrics.duplicates_rejected 1;
}
count_insertion metrics InsertResult.late = record metrics {
  late_frames_rejected = add_u64 metrics.late_frames_rejected 1;
}
count_insertion metrics _ = metrics

-- What an item that was consumed counts.
abbrev pub count_item {ℓ} : {D : Type ℓ} → EndpointMetrics D → PlaybackItem → EndpointMetrics D
count_item metrics item =
    if is_played item.status
    then record metrics {
      frames_played = add_u64 metrics.frames_played 1;
      concealed_frames =
          if item.concealed then add_u64 metrics.concealed_frames 1 else metrics.concealed_frames;
    }
    else metrics

module _ {ℓ κ} {F : Type ℓ} {D : Type κ} ⦃f : Float F⦄ ⦃m : Floats D⦄ where
  -- The time of the device's own clock for a time stamp.
  abbrev pub local_time : PlaybackEndpoint F D → ℤ → ℤ
  local_time e remote = m.long_double.truncated (
      m.long_double.plus
        (m.long_double.times (m.long_double.of_int remote)
          (m.long_double.plus (number ⦃f = m.long_double⦄ 1) (drift_of e)))
        (m.long_double.of_int e.config.initial_offset))

  -- The body of the loop of `advance`.
  unfoldable pub receive_event : PlaybackEndpoint F D → ImpairedFrame → PlaybackEndpoint F D
  receive_event e event =
      let (buffer, result) = insert e.jitter_buffer event.frame in
      record e {
        jitter_buffer = buffer;
        jitter_estimator =
            update_jitter ⦃d = m.double⦄ e.jitter_estimator event.frame.timestamp
              event.arrival_time;
        clock_estimator =
            (add_sample e.clock_estimator event.frame.timestamp
              (local_time e event.frame.timestamp)).0;
        metrics =
            count_insertion
              (record e.metrics { frames_received = add_u64 e.metrics.frames_received 1 }) result;
      }

  -- The loop of `advance`, over the events that are left.
  unfoldable pub receive_until :
      PlaybackEndpoint F D → ℤ → List ImpairedFrame → PlaybackEndpoint F D
  receive_until e reference_time [] = record e { arrivals = [] }
  receive_until e reference_time (event ∷ events) =
      let rest = receive_until (receive_event e event) reference_time events in
      if ltb_ℤ reference_time event.arrival_time
      then record e { arrivals = event ∷ events }
      else rest

  -- The metrics at the end of `advance`.
  abbrev pub refreshed : PlaybackEndpoint F D → PlaybackItem → EndpointMetrics D
  refreshed e item =
      let estimate = e.clock_estimator.estimate in
      record (count_item e.metrics item) {
        estimated_offset_ms =
            m.double.over estimate.offset_nanoseconds (m.double.literal (pos 1_000_000) 0);
        estimated_drift_ppm = estimate.drift_ppm;
        missing_frames = e.jitter_buffer.statistics.missing_frames_declared;
        state =
            if is_stopped_buffer e.jitter_buffer
            then SynchronizationState.stopped
            else e.metrics.state;
      }

  -- `advance` after the loop.
  unfoldable pub play_next : PlaybackEndpoint F D → ℤ → Result SampleError (PlaybackEndpoint F D)
  play_next e reference_time =
      let (buffer, item) = pop e.jitter_buffer reference_time in
      let taken = record e { jitter_buffer = buffer } in
      elim (consume taken.playback item) [
        | err x ↦ err x
        | ok playback ↦ ok (record taken { playback = playback; metrics = refreshed taken item })
      ]

  -- `err` is the exception of the conversion of the samples.
  unfoldable pub advance : PlaybackEndpoint F D → ℤ → Result SampleError (PlaybackEndpoint F D)
  advance e reference_time =
      if not e.loaded || is_stopped_endpoint e
      then ok e
      else play_next (receive_until e reference_time e.arrivals) reference_time
