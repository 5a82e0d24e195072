-- ===== src/Stream.antt =====
-- src/audio_stream.cpp: media packets, which are audio packets behind the id of their session, and the
-- sender of a stream. The answer of the socket is a parameter.
pub mod Media
pub mod Totality
pub mod Receiver
pub mod Delivery
mod Tests
use distributed_audio_system.Audio.{AudioFrame, bytes_per_frame, format_eq}
use distributed_audio_system.Bytes.{read_n}
use distributed_audio_system.Identity.{SessionId, session_eq, session_valid}
use distributed_audio_system.Packet.{SerializeError, deserialize_audio_frame, serialize_audio_frame}
use distributed_audio_system.Prelude.{
  Bool, List, Option, Result, err, false, if◌then◌else◌, leb, length, none, not, ok, some, true, ℕ,
  ◌&&◌, ◌*◌, ◌++◌, ◌==◌, ◌||◌,
}
use distributed_audio_system.Sequence.{add_u64}
use distributed_audio_system.Session.Config.{AudioSessionConfig, config_is_valid}

abbrev pub session_envelope_size : ℕ
session_envelope_size = 16

unfoldable pub frame_matches : AudioFrame → AudioSessionConfig → Bool
frame_matches frame config =
    if not (format_eq frame.format config.format)
    then false
    else not (bytes_per_frame config.format == 0)
      && length frame.payload == config.samples_per_frame * bytes_per_frame config.format

-- The exceptions of `serialize_media_frame`.
pub data MediaError : Type 0 where
  invalid_media_session : MediaError
  frame_error : SerializeError → MediaError

unfoldable pub serialize_media_frame : SessionId → AudioFrame → Result MediaError (List ℕ)
serialize_media_frame session_id frame =
    if not (session_valid session_id)
    then err invalid_media_session
    else elim (serialize_audio_frame frame) [
      | err e ↦ err (frame_error e)
      | ok packet ↦ ok (session_id.bytes ++ packet)
    ]

-- The outer `none` is a read out of bounds.
unfoldable pub deserialize_media_frame : SessionId → List ℕ → Option (Option AudioFrame)
deserialize_media_frame expected_session packet =
    if not (session_valid expected_session) || leb (length packet) session_envelope_size
    then some none
    else elim (read_n session_envelope_size packet) [
      | none ↦ none
      | some (id_bytes, audio_packet) ↦
          if not (session_eq (record { bytes = id_bytes }) expected_session)
          then some none
          else elim (deserialize_audio_frame audio_packet) [ none ↦ none | some r ↦ some r.frame ]
    ]

pub data StreamState : Type 0 where
  created ready running draining stopped failed : StreamState

abbrev pub is_created : StreamState → Bool
is_created created = true
is_created _ = false

abbrev pub is_ready : StreamState → Bool
is_ready StreamState.ready = true
is_ready _ = false

abbrev pub is_running : StreamState → Bool
is_running running = true
is_running _ = false

abbrev pub is_stopped : StreamState → Bool
is_stopped StreamState.stopped = true
is_stopped _ = false

-- The counters that the sender changes.
pub record AudioStreamSender : Type 0 where
  pub session_id : SessionId
  pub config : AudioSessionConfig
  pub state : StreamState
  pub frames_transmitted : ℕ
  pub bytes_transmitted : ℕ

-- The constructor, for a socket and an address that are valid; `none` is its exception.
unfoldable pub audio_stream_sender : SessionId → AudioSessionConfig → Option AudioStreamSender
audio_stream_sender session_id config =
    if not (session_valid session_id) || not (config_is_valid config)
    then none
    else some (record {
      session_id = session_id;
      config = config;
      state = created;
      frames_transmitted = 0;
      bytes_transmitted = 0;
    })

unfoldable pub prepare : AudioStreamSender → AudioStreamSender × Bool
prepare s =
    if not (is_created s.state) then (s, false) else (record s { state = StreamState.ready }, true)

unfoldable pub start : AudioStreamSender → AudioStreamSender × Bool
start s = if not (is_ready s.state) then (s, false) else (record s { state = running }, true)

-- `sent` is what sendto answers for a packet: `none` for an error, else the number of bytes. The last
-- component is the packet, if one is handed to the socket.
unfoldable pub send :
    (List ℕ → Option ℕ)
    → AudioStreamSender
    → AudioFrame
    → Result MediaError (AudioStreamSender × Bool × Option (List ℕ))
send sent s frame =
    if not (is_running s.state) || not (frame_matches frame s.config)
    then ok (s, false, none)
    else elim (serialize_media_frame s.session_id frame) [
      | err e ↦ err e
      | ok packet ↦ elim (sent packet) [
        | none ↦ ok (record s { state = StreamState.failed }, false, some packet)
        | some n ↦
            if not (n == length packet)
            then ok (record s { state = StreamState.failed }, false, some packet)
            else ok (
              record s {
                frames_transmitted = add_u64 s.frames_transmitted 1;
                bytes_transmitted = add_u64 s.bytes_transmitted (length packet);
              },
              true,
              some packet,
            )
      ]
    ]

unfoldable pub stop : AudioStreamSender → AudioStreamSender × Bool
stop s =
    if is_stopped s.state
    then (s, true)
    else if not (is_running s.state) && not (is_ready s.state)
    then (s, false)
    else (record s { state = StreamState.stopped }, true)
