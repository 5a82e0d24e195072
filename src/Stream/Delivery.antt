-- ===== src/Stream/Delivery.antt =====
-- A sender and a receiver of src/audio_stream.cpp on a network that loses nothing.
use distributed_audio_system.Audio.{AudioFrame}
use distributed_audio_system.Float.{Float, Floats}
use distributed_audio_system.Identity.{SessionId, session_valid}
use distributed_audio_system.Identity.Laws.{IsIdentity}
use distributed_audio_system.Packet.{write_packet}
use distributed_audio_system.Packet.Limits.{
  FrameFits, InLimits, InLimits-serialize, length-serialize, samples_of,
}
use distributed_audio_system.Prelude.{
  All, List, Option, Result, [], ap, arith, err, false, length, length-append, list_eq_refl, ltb,
  none, ok, refl, some, true, ℕ, ◌++◌, ◌<◌, ◌==◌, ◌^◌, ◌∙◌, ◌∷◌, ◌≡◌, ◌≢◌, ◌≤◌,
}
use distributed_audio_system.Prelude.Int.{ℤ}
use distributed_audio_system.Sequence.{add_u64}
use distributed_audio_system.Session.Config.{AudioSessionConfig}
use distributed_audio_system.Stream.{
  AudioStreamSender, MediaError, deserialize_media_frame, frame_matches, is_running, send,
  serialize_media_frame,
}
use distributed_audio_system.Stream.Media.{deserialize-serialize_media}
use distributed_audio_system.Stream.Receiver.{
  AudioStreamReceiver, accept_frame, count_datagram, poll_datagrams, poll_receiver, receive_size,
  take_datagram,
}
use distributed_audio_system.Stream.Receiver.Accounts.{poll_datagrams_step, running_answer}

-- A frame that a session with this configuration can send.
pub record Sendable (config : AudioSessionConfig) (f : AudioFrame) : Type 0 where
  pub limits : InLimits f
  pub fits : FrameFits f
  pub some_samples : length f.payload ≢ 0
  pub matches : frame_matches f config ≡ true

-- The frames are sent one after the other; the packets are what is handed to the socket.
unfoldable pub send_all :
    (List ℕ → Option ℕ)
    → AudioStreamSender
    → List AudioFrame
    → Result MediaError (AudioStreamSender × List (List ℕ))
send_all sent s [] = ok (s, [])
send_all sent s (f ∷ fs) = elim (send sent s f) [
  | err e ↦ err e
  | ok (t, done, none) ↦ send_all sent t fs
  | ok (t, done, some packet) ↦ elim (send_all sent t fs) [
    | err e ↦ err e
    | ok (u, packets) ↦ ok (u, packet ∷ packets)
  ]
]

packet_fits :
    (id : SessionId) (config : AudioSessionConfig) (f : AudioFrame)
    → session_valid id ≡ true
    → IsIdentity id.bytes
    → Sendable config f
    → (p : List ℕ) × (serialize_media_frame id f ≡ ok p)
      × (deserialize_media_frame id p ≡ some (some f))
      × (length p ≤ receive_size)
unfolding serialize_media_frame
packet_fits id config f valid i h =
    let written = InLimits-serialize f h.limits in
    let small = length-serialize f (write_packet f (samples_of f)) written in
    let p = id.bytes ++ write_packet f (samples_of f) in
    let whole : serialize_media_frame id f ≡ ok p = rw (valid, written) refl in
    (
      p,
      whole,
      deserialize-serialize_media id id f p i h.fits h.some_samples whole valid
          ∙ rw (list_eq_refl id.bytes) refl,
      omega (arith, length-append id.bytes (write_packet f (samples_of f)), small.1, i.0),
    )

send_sendable :
    (sent : List ℕ → Option ℕ) (s : AudioStreamSender) (f : AudioFrame) (p : List ℕ)
    → ((q : List ℕ) → sent q ≡ some (length q))
    → is_running s.state ≡ true
    → frame_matches f s.config ≡ true
    → serialize_media_frame s.session_id f ≡ ok p
    → send sent s f
      ≡ ok (
        record s {
          frames_transmitted = add_u64 s.frames_transmitted 1;
          bytes_transmitted = add_u64 s.bytes_transmitted (length p);
        },
        true,
        some p,
      )
unfolding send
send_sendable sent s f p net runs fits whole =
    let same : (length p == length p) ≡ true = ground arith in
    rw (runs, fits, whole, net p, same) refl

send_all_step :
    (sent : List ℕ → Option ℕ) (s s' t : AudioStreamSender) (f : AudioFrame) (fs : List AudioFrame)
    (p : List ℕ) (packets : List (List ℕ))
    → send sent s f ≡ ok (s', true, some p)
    → send_all sent s' fs ≡ ok (t, packets)
    → send_all sent s (f ∷ fs) ≡ ok (t, p ∷ packets)
unfolding send_all
send_all_step sent s s' t f fs p packets one rest = rw (one, send_all) (rw rest refl)

module _ {ℓ κ} {F : Type ℓ} {D : Type κ} ⦃f : Float F⦄ ⦃m : Floats D⦄ where
  -- What the receiver does when the frames come to it one after the other.
  unfoldable pub accept_all :
      AudioStreamReceiver F D → ℤ → List AudioFrame → AudioStreamReceiver F D
  accept_all r arrival [] = r
  accept_all r arrival (frame ∷ frames) =
      accept_all (accept_frame (count_datagram r) arrival frame) arrival frames

  accept_frame_keeps :
      (r : AudioStreamReceiver F D) (arrival : ℤ) (frame : AudioFrame)
      → let r' = accept_frame (count_datagram r) arrival frame in
        (r'.session_id ≡ r.session_id) × (r'.config ≡ r.config)
  unfolding accept_frame
  accept_frame_keeps r arrival frame = (refl, refl)

  take_sendable :
      (r : AudioStreamReceiver F D) (arrival : ℤ) (frame : AudioFrame) (p : List ℕ)
      → length p ≤ receive_size
      → deserialize_media_frame r.session_id p ≡ some (some frame)
      → frame_matches frame r.config ≡ true
      → take_datagram r arrival p ≡ some (accept_frame (count_datagram r) arrival frame, true)
  unfolding take_datagram
  take_sendable r arrival frame p small read fits =
      let short : ltb receive_size (length p) ≡ false = ground (arith, small) in
      rw (short, read, fits) refl

  deliver :
      (sent : List ℕ → Option ℕ) (s : AudioStreamSender) (r : AudioStreamReceiver F D) (arrival : ℤ)
      (frames : List AudioFrame)
      → ((q : List ℕ) → sent q ≡ some (length q))
      → is_running s.state ≡ true
      → session_valid s.session_id ≡ true
      → IsIdentity s.session_id.bytes
      → r.session_id ≡ s.session_id
      → r.config ≡ s.config
      → s.frames_transmitted < 2 ^ 64
      → All (Sendable s.config) frames
      → (t : AudioStreamSender) × (packets : List (List ℕ)) × (send_all sent s frames
          ≡ ok (t, packets))
        × (t.frames_transmitted ≡ add_u64 s.frames_transmitted (length frames))
        × (poll_datagrams r arrival packets ≡ some (accept_all r arrival frames, length frames))
  unfolding send_all accept_all poll_datagrams
  deliver sent s r arrival [] net runs valid i same_id same_config small h =
      (s, [], refl, omega (arith, small), refl)
  deliver sent s r arrival (frame ∷ frames) net runs valid i same_id same_config small h =
      let (p, whole, read, short) = packet_fits s.session_id s.config frame valid i h.0 in
      let s' : AudioStreamSender = record s {
        frames_transmitted = add_u64 s.frames_transmitted 1;
        bytes_transmitted = add_u64 s.bytes_transmitted (length p);
      } in
      let one = send_sendable sent s frame p net runs h.0.matches whole in
      let r' = accept_frame (count_datagram r) arrival frame in
      let keeps = accept_frame_keeps r arrival frame in
      let (t, packets, rest, counted, polled) =
        deliver sent s' r' arrival frames net runs valid i (keeps.0 ∙ same_id)
          (keeps.1 ∙ same_config) (omega arith) h.1 in
      let taken =
        take_sendable r arrival frame p short
          (ap (λ id. deserialize_media_frame id p) same_id ∙ read)
          (ap (frame_matches frame) same_config ∙ h.0.matches) in
      (
        t,
        p ∷ packets,
        send_all_step sent s s' t frame frames p packets one rest,
        omega (arith, counted),
        poll_datagrams_step r r' _ arrival p packets true _ taken polled,
      )

  -- A running sender whose packets the socket takes whole sends any frames of its session that have a sample, have
  -- fields in the range of their types and fit in a packet: it counts them all. If the packets arrive at a running
  -- receiver of the same session and configuration, in their order and all of them, `poll` processes as many frames
  -- as were sent, and leaves the receiver as if those frames had come to it one after the other. The session's id is
  -- valid and has 16 bytes.
  pub send_all-poll_receiver :
      (sent : List ℕ → Option ℕ) (s : AudioStreamSender) (r : AudioStreamReceiver F D) (arrival : ℤ)
      (frames : List AudioFrame)
      → ((q : List ℕ) → sent q ≡ some (length q))
      → is_running s.state ≡ true
      → is_running r.state ≡ true
      → session_valid s.session_id ≡ true
      → IsIdentity s.session_id.bytes
      → r.session_id ≡ s.session_id
      → r.config ≡ s.config
      → s.frames_transmitted < 2 ^ 64
      → All (Sendable s.config) frames
      → (t : AudioStreamSender) × (packets : List (List ℕ)) × (send_all sent s frames
          ≡ ok (t, packets))
        × (t.frames_transmitted ≡ add_u64 s.frames_transmitted (length frames))
        × (poll_receiver r arrival packets ≡ some (accept_all r arrival frames, length frames))
  send_all-poll_receiver sent s r arrival frames net runs listens valid i same_id same_config small
        h =
      let (t, packets, finished, counted, polled) =
        deliver sent s r arrival frames net runs valid i same_id same_config small h in
      (t, packets, finished, counted, running_answer r arrival packets listens ∙ polled)
