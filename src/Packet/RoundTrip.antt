-- ===== src/Packet/RoundTrip.antt =====
-- `deserialize_audio_frame` after `serialize_audio_frame` (src/packet_serializer.cpp).
use native.Mathlib.Nat.{zero-div}
use distributed_audio_system.Prelude.{
  ℕ, ◌*◌, ◌/◌, ◌%◌, ◌^◌, ◌≤◌, ◌≡◌, ◌≢◌, refl, ap, ◌∙◌, some, List, length, arith, ok,
}
use distributed_audio_system.Audio.{AudioFrame}
use distributed_audio_system.Packet.{
  invalid_sample_count, failure, serialize_audio_frame, deserialize_audio_frame, check_header,
  max_payload_size, Header,
}
use distributed_audio_system.Packet.Layout.{
  HeaderFits, header_bytes, frame_header, write_packet-header_bytes, length-header_bytes,
  read_header-header_bytes, drop-header_bytes,
}
use distributed_audio_system.Packet.Checks.{FieldsPass, SizesPass, parsed, check_header-pass}
use distributed_audio_system.Packet.Limits.{
  FrameFits, InLimits, samples_positive, samples_of, serialize-InLimits, samples_exact,
}

frame_header-HeaderFits : (f : AudioFrame) (n : ℕ) → FrameFits f → HeaderFits (frame_header f n)
frame_header-HeaderFits f n fits = record {
  magic_fits = omega arith;
  version_fits = omega arith;
  flags_fit = omega arith;
  reserved_fits = omega arith;
  sequence_fits = fits.sequence_fits;
  timestamp_fits = fits.timestamp_fits;
  rate_fits = fits.format_fits.rate_fits;
  channels_fit = fits.format_fits.channels_fit;
  format_fits = omega arith;
  sample_reserved_fits = omega arith;
  samples_fit = omega arith;
  size_fits = omega arith;
}

pub deserialize-header_bytes :
    (h : Header) (payload : List ℕ)
    → HeaderFits h
    → length payload ≤ max_payload_size
    → deserialize_audio_frame (header_bytes h payload)
      ≡ some (check_header (header_bytes h payload) h)
unfolding deserialize_audio_frame
deserialize-header_bytes h payload fits n =
    ground (arith, length-header_bytes h payload, read_header-header_bytes h payload fits)

samples_below : (f : AudioFrame) → InLimits f → samples_of f % 2 ^ 32 ≡ samples_of f
samples_below f v = omega (arith, v.samples_bounded)

check-frame_header :
    (f : AudioFrame)
    → InLimits f
    → length f.payload ≢ 0
    → check_header
        (header_bytes (frame_header f (samples_of f)) f.payload)
        (frame_header f (samples_of f))
      ≡ parsed f
check-frame_header f v h =
    check_header-pass packet header fields sizes
    ∙ ap parsed (ground (arith, v.bits, drop-header_bytes header f.payload))
  where
    header : Header
    header = frame_header f (samples_of f)

    packet : List ℕ
    packet = header_bytes header f.payload

    fields : FieldsPass header
    fields = record {
      magic = refl;
      version = refl;
      flags = refl;
      reserved = refl;
      sample_reserved = refl;
      rate_positive = v.rate_positive;
      rate_bounded = v.rate_bounded;
      channels_positive = v.channels_positive;
      channels_bounded = v.channels_bounded;
      sample_format = refl;
      samples_positive = rw (samples_below f v) (samples_positive f v h);
      samples_bounded = rw (samples_below f v) v.samples_bounded;
    }

    sizes : SizesPass header (length packet)
    sizes = record {
      payload = rw (samples_below f v) (omega (arith, samples_exact f v, v.payload_bounded));
      payload_bounded = omega (arith, v.payload_bounded);
      exact = omega (arith, length-header_bytes header f.payload, v.payload_bounded);
    }

-- A frame that has a sample, with every field in the range of its type, is parsed back from the
-- packet that `serialize_audio_frame` writes for it.
pub deserialize-serialize :
    (f : AudioFrame) (p : List ℕ)
    → FrameFits f
    → length f.payload ≢ 0
    → serialize_audio_frame f ≡ ok p
    → deserialize_audio_frame p ≡ some (parsed f)
deserialize-serialize f p fits h e =
    let (v, q) = serialize-InLimits f p e in
    let n = samples_of f in
    ap deserialize_audio_frame (q ∙ write_packet-header_bytes f n)
    ∙ deserialize-header_bytes (frame_header f n) f.payload (frame_header-HeaderFits f n fits)
        v.payload_bounded
    ∙ ap some (check-frame_header f v h)

check-empty_frame :
    (f : AudioFrame)
    → InLimits f
    → length f.payload ≡ 0
    → check_header
        (header_bytes (frame_header f (samples_of f)) f.payload)
        (frame_header f (samples_of f))
      ≡ failure invalid_sample_count
unfolding check_header
check-empty_frame f v h =
    let z : samples_of f ≡ 0 = ap (λ (n : ℕ). n / (f.format.channel_count * 2)) h ∙ zero-div _ in
    ground (arith, z)

-- When a frame with no sample, with every field in the range of its type, is serialized, the
-- parser refuses the packet.
pub empty_frame_refused :
    (f : AudioFrame) (p : List ℕ)
    → FrameFits f
    → length f.payload ≡ 0
    → serialize_audio_frame f ≡ ok p
    → deserialize_audio_frame p ≡ some (failure invalid_sample_count)
empty_frame_refused f p fits h e =
    let (v, q) = serialize-InLimits f p e in
    let n = samples_of f in
    ap deserialize_audio_frame (q ∙ write_packet-header_bytes f n)
    ∙ deserialize-header_bytes (frame_header f n) f.payload (frame_header-HeaderFits f n fits)
        v.payload_bounded
    ∙ ap some (check-empty_frame f v h)
