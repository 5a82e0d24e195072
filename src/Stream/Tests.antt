-- ===== src/Stream/Tests.antt =====
-- A media packet of src/audio_stream.cpp on which the theorem is used.
use distributed_audio_system.Audio.{
  AudioFrame, bytes_per_frame, format_eq, format_is_valid, frame_duration,
}
use distributed_audio_system.Bytes.{append_bytes, append_u16, append_u32, append_u64, append_u8}
use distributed_audio_system.Bytes.Laws.{all_bytes-IsByte}
use distributed_audio_system.Clock.Estimator.{empty_estimator}
use distributed_audio_system.Clock.Simulated.{new_playback}
use distributed_audio_system.Float.Fixed.{fixed_float, fixed_floats}
use distributed_audio_system.Identity.{SessionId, any_nonzero, session_eq, session_valid}
use distributed_audio_system.Identity.Laws.{IsIdentity}
use distributed_audio_system.Jitter.{
  JitterConfig, empty_buffer, insert, insert_checked, jitter_buffer, matches_stream, silence,
  store_frame,
}
use distributed_audio_system.Jitter.Insert.{insert-Inv}
use distributed_audio_system.Jitter.Invariant.{Inv, jitter_buffer-Inv}
use distributed_audio_system.Jitter.Pcm.{insert-PcmBuffer}
use distributed_audio_system.Packet.{serialize_audio_frame, timestamp_bits, write_packet}
use distributed_audio_system.Packet.Limits.{FrameFits}
use distributed_audio_system.Prelude.{
  List, [], arith, if◌then◌else◌, length, none, ok, refl, some, true, ℕ, ◌++◌, ◌∷◌, ◌≡◌, ◌≤◌,
}
use distributed_audio_system.Prelude.Int.{negsuc, pos, ℤ}
use distributed_audio_system.Prelude.Map.{emplace, find, place}
use distributed_audio_system.Sequence.{add_u64, new_tracker}
use distributed_audio_system.Session.Config.{AudioSessionConfig}
use distributed_audio_system.Stream.{
  AudioStreamSender, deserialize_media_frame, frame_matches, running, serialize_media_frame,
}
use distributed_audio_system.Stream.Delivery.{
  Sendable, accept_all, send_all, send_all-poll_receiver,
}
use distributed_audio_system.Stream.Media.{deserialize-serialize_media}
use distributed_audio_system.Stream.Receiver.{AudioStreamReceiver, poll_receiver, zero_statistics}
use distributed_audio_system.Stream.Receiver.Accounts.{Tally, poll_receiver-Tally}
use distributed_audio_system.Stream.Receiver.Changes.{Climbs, Streaming}
use distributed_audio_system.Stream.Receiver.Order.{
  Event, arriving, events, events-Climbs, playing_at,
}

abbrev own_session : SessionId
own_session = record { bytes = 0 ∷ 0 ∷ 0 ∷ 0 ∷ 0 ∷ 0 ∷ 0 ∷ 0 ∷ 0 ∷ 0 ∷ 0 ∷ 0 ∷ 0 ∷ 0 ∷ 0 ∷ 7 ∷ [] }

abbrev media_frame : AudioFrame
media_frame = record {
  format = record { sample_rate = 48_000; channel_count = 2; bits_per_sample = 16 };
  sequence_number = 258;
  timestamp = negsuc 0;
  payload = 1 ∷ 2 ∷ 3 ∷ 255 ∷ [];
}

abbrev media_packet : List ℕ
media_packet =
    own_session.bytes
    ++ (68 ∷ 65 ∷ 83 ∷ 49 ∷ 1 ∷ 0 ∷ 0 ∷ 0 ∷ 0 ∷ 0 ∷ 0 ∷ 0 ∷ 0 ∷ 0 ∷ 1 ∷ 2 ∷ 255 ∷ 255 ∷ 255 ∷ 255
        ∷ 255 ∷ 255 ∷ 255 ∷ 255 ∷ 0 ∷ 0 ∷ 187 ∷ 128 ∷ 0 ∷ 2 ∷ 1 ∷ 0 ∷ 0 ∷ 0 ∷ 0 ∷ 1 ∷ 0 ∷ 0 ∷ 0 ∷ 4
        ∷ 1 ∷ 2 ∷ 3 ∷ 255 ∷ [])

media_frame-FrameFits : FrameFits media_frame
media_frame-FrameFits = record {
  format_fits = record {
    rate_fits = omega arith;
    channels_fit = omega arith;
    bits_fit = omega arith;
  };
  sequence_fits = omega arith;
  timestamp_fits = omega arith;
  payload_fits = all_bytes-IsByte media_frame.payload refl;
}

serialize_media_sample : serialize_media_frame own_session media_frame ≡ ok media_packet
unfolding serialize_media_frame session_valid any_nonzero serialize_audio_frame write_packet
    timestamp_bits append_u8 append_u16 append_u32 append_u64 append_bytes
serialize_media_sample = refl

own_session-IsIdentity : IsIdentity own_session.bytes
own_session-IsIdentity = (refl, all_bytes-IsByte own_session.bytes refl)

own_session_valid : session_valid own_session ≡ true
unfolding session_valid any_nonzero
own_session_valid = refl

deserialize-serialize_media_example :
    deserialize_media_frame own_session media_packet
    ≡ some (if session_eq own_session own_session then some media_frame else none)
deserialize-serialize_media_example =
    deserialize-serialize_media own_session own_session media_frame media_packet
      own_session-IsIdentity media_frame-FrameFits (λ e. omega arith) serialize_media_sample
      own_session_valid

-- One sample of each channel is a frame.
abbrev stream_config : AudioSessionConfig
stream_config = record {
  format = record { sample_rate = 48_000; channel_count = 2; bits_per_sample = 16 };
  samples_per_frame = 1;
  sender = record { bytes = own_session.bytes };
  receiver = record { bytes = own_session.bytes };
  sender_audio_port = 5_000;
  receiver_audio_port = 5_001;
}

abbrev buffer_settings : JitterConfig
buffer_settings = record {
  capacity = 8;
  prebuffer_target = 1;
  missing_wait = pos 2_000_000;
  concealment = silence;
}

abbrev listening : AudioStreamReceiver ℤ ℤ
listening = record {
  session_id = own_session;
  config = stream_config;
  jitter_buffer = empty_buffer buffer_settings;
  sequence_tracker = new_tracker;
  clock_estimator = empty_estimator 32;
  scheduler = record { playout_delay = pos 0 };
  playback = new_playback;
  state = running;
  statistics = zero_statistics;
}

abbrev sending : AudioStreamSender
sending = record {
  session_id = own_session;
  config = stream_config;
  state = running;
  frames_transmitted = 0;
  bytes_transmitted = 0;
}

empty_buffer_built : jitter_buffer buffer_settings ≡ some (empty_buffer buffer_settings)
unfolding jitter_buffer
empty_buffer_built = refl

poll_receiver-Tally_example :
    (r' : AudioStreamReceiver ℤ ℤ) × (n : ℕ) × (poll_receiver listening
        (pos 0)
        (media_packet ∷ (1 ∷ 2 ∷ []) ∷ [])
      ≡ some (r', n))
    × Tally listening r' 2 n
    × Inv r'.jitter_buffer
poll_receiver-Tally_example =
    poll_receiver-Tally listening (pos 0) (media_packet ∷ (1 ∷ 2 ∷ []) ∷ []) refl
      (all_bytes-IsByte media_packet refl, (all_bytes-IsByte (1 ∷ 2 ∷ []) refl, tt))
      (jitter_buffer-Inv buffer_settings (empty_buffer buffer_settings) empty_buffer_built)
      (record { datagrams_range = omega arith; tracked_range = omega arith })

media_frame-Sendable : Sendable stream_config media_frame
unfolding frame_matches bytes_per_frame format_eq
media_frame-Sendable = record {
  limits = record {
    rate_positive = omega arith;
    rate_bounded = omega arith;
    channels_positive = omega arith;
    channels_bounded = omega arith;
    bits = refl;
    aligned = refl;
    samples_bounded = omega arith;
    payload_bounded = omega arith;
  };
  fits = media_frame-FrameFits;
  some_samples = λ e. omega arith;
  matches = refl;
}

send_all-poll_receiver_example :
    (t : AudioStreamSender) × (packets : List (List ℕ)) × (send_all
        (λ p. some (length p))
        sending
        (media_frame ∷ media_frame ∷ [])
      ≡ ok (t, packets))
    × (t.frames_transmitted ≡ add_u64 0 2)
    × (poll_receiver listening (pos 0) packets
        ≡ some (accept_all listening (pos 0) (media_frame ∷ media_frame ∷ []), 2))
send_all-poll_receiver_example =
    send_all-poll_receiver (λ p. some (length p)) sending listening (pos 0)
      (media_frame ∷ media_frame ∷ []) (λ q. refl) refl refl own_session_valid
      own_session-IsIdentity refl refl (omega arith)
      (media_frame-Sendable, (media_frame-Sendable, tt))

-- The receiver once it has its first frame.
abbrev playing_receiver : AudioStreamReceiver ℤ ℤ
playing_receiver = record listening {
  jitter_buffer = (insert (empty_buffer buffer_settings) media_frame).0;
}

playing_receiver-Streaming : Streaming playing_receiver
unfolding insert insert_checked store_frame emplace place find matches_stream frame_duration
    format_is_valid bytes_per_frame format_eq
playing_receiver-Streaming = record {
  runs = refl;
  inv =
      insert-Inv (empty_buffer buffer_settings) media_frame
        (jitter_buffer-Inv buffer_settings (empty_buffer buffer_settings) empty_buffer_built)
        (record { valid = refl; whole = λ e. omega (arith, e); aligned = refl }) (omega arith);
  pcm =
      insert-PcmBuffer (empty_buffer buffer_settings) media_frame
        (record { entries = tt; previous_pcm = tt })
        (record { pcm_valid = refl; pcm_bits = refl; pcm_even = refl });
  initialized = refl;
}

-- A step is played before and after a datagram arrives.
abbrev sample_events : List Event
sample_events = playing_at (pos 5) ∷ arriving (pos 6) (media_packet ∷ []) ∷ playing_at (pos 7) ∷ []

events-Climbs_example :
    (r' : AudioStreamReceiver ℤ ℤ) × (events playing_receiver sample_events ≡ some r')
    × (steps : ℕ) × (steps ≤ 2)
    × (r'.jitter_buffer.next_sequence ≡ add_u64 playing_receiver.jitter_buffer.next_sequence steps)
    × (numbers : List ℕ) × (r'.playback.playback_sequence
        ≡ playing_receiver.playback.playback_sequence ++ numbers)
    × Climbs playing_receiver.jitter_buffer.next_sequence 0 steps numbers
events-Climbs_example =
    events-Climbs playing_receiver sample_events playing_receiver-Streaming
      (tt, ((all_bytes-IsByte media_packet refl, tt), (tt, tt))) (omega arith)
