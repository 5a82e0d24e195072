-- ===== src/Stream/Media.antt =====
-- What the receiver of a stream makes of the packets of its sender.
use distributed_audio_system.Audio.{AudioFrame}
use distributed_audio_system.Bytes.{read_n}
use distributed_audio_system.Bytes.Laws.{read_n-append}
use distributed_audio_system.Identity.{SessionId, session_eq, session_valid}
use distributed_audio_system.Identity.Laws.{IsIdentity}
use distributed_audio_system.Packet.{SerializeError, serialize_audio_frame}
use distributed_audio_system.Packet.Limits.{FrameFits, length-serialize}
use distributed_audio_system.Packet.RoundTrip.{deserialize-serialize}
use distributed_audio_system.Prelude.{
  List, Result, ap, arith, err, if◌then◌else◌, length, length-append, none, ok, refl, some, true, ℕ,
  ◌++◌, ◌+◌, ◌∙◌, ◌≡◌, ◌≢◌,
}
use distributed_audio_system.Stream.{deserialize_media_frame, serialize_media_frame}

serialize_media_parts :
    (id : SessionId) (f : AudioFrame) (p : List ℕ)
    → serialize_media_frame id f ≡ ok p
    → (session_valid id ≡ true)
      × (q : List ℕ) × (serialize_audio_frame f ≡ ok q)
      × (p ≡ id.bytes ++ q)
unfolding serialize_media_frame
serialize_media_parts id f p e = go (serialize_audio_frame f) refl
  where
    go :
        (r : Result SerializeError (List ℕ))
        → serialize_audio_frame f ≡ r
        → (session_valid id ≡ true)
          × (q : List ℕ) × (serialize_audio_frame f ≡ ok q)
          × (p ≡ id.bytes ++ q)
    go (err x) h = absurd (ground (arith, h))
    go (ok q) h = (ground (arith, h), q, h, ground (arith, h))

-- A media packet is read back by the receiver of its session, and refused by that of any other
-- valid session. The frame has a sample and fields in the range of their types, and the session's
-- id has 16 bytes.
pub deserialize-serialize_media :
    (id other : SessionId) (f : AudioFrame) (p : List ℕ)
    → IsIdentity id.bytes
    → FrameFits f
    → length f.payload ≢ 0
    → serialize_media_frame id f ≡ ok p
    → session_valid other ≡ true
    → deserialize_media_frame other p ≡ some (if session_eq id other then some f else none)
unfolding deserialize_media_frame
deserialize-serialize_media id other f p i fits h e v =
    let (valid, q, written, whole) = serialize_media_parts id f p e in
    let (size, small) = length-serialize f q written in
    let read : read_n 16 p ≡ some (id.bytes, q) =
      ap (read_n 16) whole ∙ read_n-append 16 id.bytes q i.0 in
    let long : length p ≡ 16 + length q =
      ap length whole ∙ length-append id.bytes q ∙ ap (λ (n : ℕ). n + length q) i.0 in
    let back = deserialize-serialize f q fits h written in ground (arith, read, long, back, size, v)
