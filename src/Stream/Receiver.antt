-- ===== src/Stream/Receiver.antt =====
-- `AudioStreamReceiver` of src/audio_stream.cpp. What recvfrom puts into the packet is a parameter: the
-- datagrams up to its first error.
pub mod Playback
pub mod Accounts
pub mod Changes
pub mod Steps
pub mod Order
use distributed_audio_system.Audio.{AudioFrame}
use distributed_audio_system.Clock.Estimator.{ClockEstimator, add_sample, empty_estimator}
use distributed_audio_system.Clock.Scheduler.{PlaybackScheduler, ScheduleDecision}
use distributed_audio_system.Clock.Simulated.{SimulatedPlayback, new_playback}
use distributed_audio_system.Float.{Float, Floats, zero_float}
use distributed_audio_system.Identity.{SessionId, session_valid}
use distributed_audio_system.Jitter.{JitterBuffer, close, insert, jitter_buffer, silence}
use distributed_audio_system.Jitter.Insert.{is_inserted}
use distributed_audio_system.Packet.{max_packet_size}
use distributed_audio_system.Prelude.{
  Bool, List, Option, [], false, if◌then◌else◌, length, ltb, none, not, some, suc, true, ℕ, ◌&&◌,
  ◌+◌, ◌||◌, ◌∷◌,
}
use distributed_audio_system.Prelude.Int.{pos, ℤ}
use distributed_audio_system.Sequence.{
  SequenceDisposition, SequenceTracker, add_u64, new_tracker, observe, record_received,
}
use distributed_audio_system.Session.Config.{AudioSessionConfig, config_is_valid}
use distributed_audio_system.Stream.{
  StreamState, created, deserialize_media_frame, frame_matches, is_created, is_ready, is_running,
  is_stopped, running, session_envelope_size,
}

-- The counters of `StreamStatistics` that a receiver changes.
pub record StreamStatistics {ℓ} (F : Type ℓ) : Type ℓ where
  pub datagrams_received : ℕ
  pub frames_accepted : ℕ
  pub duplicate_frames : ℕ
  pub out_of_order_frames : ℕ
  pub estimated_missing_frames : ℕ
  pub frames_inserted : ℕ
  pub frames_played : ℕ
  pub samples_played : ℕ
  pub concealed_frames : ℕ
  pub malformed_packets : ℕ
  pub incompatible_packets : ℕ
  pub jitter_buffer_depth : ℕ
  pub peak_level : F

-- `F` stands for `float`, `D` for `double`.
pub record AudioStreamReceiver {ℓ κ} (F : Type ℓ) (D : Type κ) : Type (ℓ ⊔ κ) where
  pub session_id : SessionId
  pub config : AudioSessionConfig
  pub jitter_buffer : JitterBuffer
  pub sequence_tracker : SequenceTracker
  pub clock_estimator : ClockEstimator D
  pub scheduler : PlaybackScheduler
  pub playback : SimulatedPlayback F
  pub state : StreamState
  pub statistics : StreamStatistics F

-- The size of the packet that recvfrom fills.
abbrev pub receive_size : ℕ
receive_size = max_packet_size + session_envelope_size

abbrev pub is_duplicate : SequenceDisposition → Bool
is_duplicate SequenceDisposition.duplicate = true
is_duplicate _ = false

abbrev pub is_out_of_order : SequenceDisposition → Bool
is_out_of_order SequenceDisposition.out_of_order = true
is_out_of_order _ = false

abbrev pub is_too_early : Option ScheduleDecision → Bool
is_too_early (some ScheduleDecision.too_early) = true
is_too_early _ = false

-- A counter that goes up if a test holds.
abbrev pub count_if : Bool → ℕ → ℕ
count_if test counter = if test then add_u64 counter 1 else counter

module _ {ℓ} {F : Type ℓ} ⦃f : Float F⦄ where
  abbrev pub zero_statistics : StreamStatistics F
  zero_statistics = record {
    datagrams_received = 0;
    frames_accepted = 0;
    duplicate_frames = 0;
    out_of_order_frames = 0;
    estimated_missing_frames = 0;
    frames_inserted = 0;
    frames_played = 0;
    samples_played = 0;
    concealed_frames = 0;
    malformed_packets = 0;
    incompatible_packets = 0;
    jitter_buffer_depth = 0;
    peak_level = zero_float;
  }

module _ {ℓ κ} {F : Type ℓ} {D : Type κ} ⦃f : Float F⦄ ⦃m : Floats D⦄ where
  -- The constructor, for a socket that is set up; `none` is its exception.
  unfoldable pub audio_stream_receiver :
      SessionId → AudioSessionConfig → ℤ → Option (AudioStreamReceiver F D)
  audio_stream_receiver session_id config missing_wait =
      elim (jitter_buffer (record {
        capacity = 8;
        prebuffer_target = 1;
        missing_wait = missing_wait;
        concealment = silence;
      })) [
        | none ↦ none
        | some buffer ↦
            if not (session_valid session_id) || not (config_is_valid config)
            then none
            else some (record {
              session_id = session_id;
              config = config;
              jitter_buffer = buffer;
              sequence_tracker = new_tracker;
              clock_estimator = empty_estimator 32;
              scheduler = record { playout_delay = pos 0 };
              playback = new_playback;
              state = created;
              statistics = zero_statistics;
            })
      ]

  unfoldable pub prepare_receiver : AudioStreamReceiver F D → AudioStreamReceiver F D × Bool
  prepare_receiver r =
      if not (is_created r.state)
      then (r, false)
      else (record r { state = StreamState.ready }, true)

  unfoldable pub start_receiver : AudioStreamReceiver F D → AudioStreamReceiver F D × Bool
  start_receiver r =
      if not (is_ready r.state) then (r, false) else (record r { state = running }, true)

  -- `poll` from the line where the frame is counted as processed.
  unfoldable pub accept_frame : AudioStreamReceiver F D → ℤ → AudioFrame → AudioStreamReceiver F D
  accept_frame r arrival_time frame =
      let (tracker, disposition) =
        observe (record_received r.sequence_tracker) frame.sequence_number in
      let (buffer, result) = insert r.jitter_buffer frame in
      let s = r.statistics in
      record r {
        sequence_tracker = tracker;
        clock_estimator = (add_sample r.clock_estimator frame.timestamp arrival_time).0;
        jitter_buffer = buffer;
        statistics = record s {
          duplicate_frames = count_if (is_duplicate disposition) s.duplicate_frames;
          out_of_order_frames = count_if (is_out_of_order disposition) s.out_of_order_frames;
          estimated_missing_frames = tracker.statistics.estimated_missing_packets;
          frames_accepted = count_if (is_inserted result) s.frames_accepted;
          frames_inserted = count_if (is_inserted result) s.frames_inserted;
          jitter_buffer_depth = length buffer.frames;
        };
      }

  abbrev pub count_datagram : AudioStreamReceiver F D → AudioStreamReceiver F D
  count_datagram r = record r {
    statistics = record r.statistics {
      datagrams_received = add_u64 r.statistics.datagrams_received 1;
    };
  }

  abbrev pub count_malformed : AudioStreamReceiver F D → AudioStreamReceiver F D
  count_malformed r = record r {
    statistics = record r.statistics {
      malformed_packets = add_u64 r.statistics.malformed_packets 1;
    };
  }

  abbrev pub count_incompatible : AudioStreamReceiver F D → AudioStreamReceiver F D
  count_incompatible r = record r {
    statistics = record r.statistics {
      incompatible_packets = add_u64 r.statistics.incompatible_packets 1;
    };
  }

  -- `poll` after the packet is read; the Boolean says that a frame was processed.
  abbrev pub take_frame :
      AudioStreamReceiver F D → ℤ → Option AudioFrame → AudioStreamReceiver F D × Bool
  take_frame r arrival_time none = (count_incompatible r, false)
  take_frame r arrival_time (some frame) =
      if not (frame_matches frame r.config)
      then (count_incompatible r, false)
      else (accept_frame r arrival_time frame, true)

  -- The body of the loop of `poll`; `none` is a read out of bounds.
  unfoldable pub take_datagram :
      AudioStreamReceiver F D → ℤ → List ℕ → Option (AudioStreamReceiver F D × Bool)
  take_datagram r arrival_time packet =
      if ltb receive_size (length packet)
      then some (count_malformed (count_datagram r), false)
      else elim (deserialize_media_frame r.session_id packet) [
        | none ↦ none
        | some frame ↦ some (take_frame (count_datagram r) arrival_time frame)
      ]

  unfoldable pub poll_datagrams :
      AudioStreamReceiver F D → ℤ → List (List ℕ) → Option (AudioStreamReceiver F D × ℕ)
  poll_datagrams r arrival_time [] = some (r, 0)
  poll_datagrams r arrival_time (packet ∷ packets) = elim (take_datagram r arrival_time packet) [
    | none ↦ none
    | some (one, processed) ↦ elim (poll_datagrams one arrival_time packets) [
      | none ↦ none
      | some (rest, count) ↦ some (rest, if processed then suc count else count)
    ]
  ]

  unfoldable pub poll_receiver :
      AudioStreamReceiver F D → ℤ → List (List ℕ) → Option (AudioStreamReceiver F D × ℕ)
  poll_receiver r arrival_time packets =
      let polled = poll_datagrams r arrival_time packets in
      if not (is_running r.state) then some (r, 0) else polled

  unfoldable pub stop_receiver : AudioStreamReceiver F D → AudioStreamReceiver F D × Bool
  stop_receiver r =
      if is_stopped r.state
      then (r, true)
      else if not (is_running r.state) && not (is_ready r.state)
      then (r, false)
      else (record r { jitter_buffer = close r.jitter_buffer; state = StreamState.stopped }, true)
