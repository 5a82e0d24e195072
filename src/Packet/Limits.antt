-- ===== src/Packet/Limits.antt =====
-- Which frames `serialize_audio_frame` takes, and what it makes of them.
use native.Mathlib.Nat.{div-add-mod}
use distributed_audio_system.Prelude.{
  ℕ, ◌+◌, ◌*◌, ◌/◌, ◌%◌, ◌^◌, ◌≤◌, ◌<◌, ◌≡◌, ◌≢◌, ap, ◌∙◌, List, length, arith, ok, All,
}
use distributed_audio_system.Bytes.{IsByte}
use distributed_audio_system.Audio.{AudioFrame, FormatFits}
use distributed_audio_system.Packet.{
  write_packet, serialize_audio_frame, header_size, max_channels, max_sample_rate,
  max_samples_per_channel, max_payload_size, max_packet_size,
}
use distributed_audio_system.Packet.Layout.{
  frame_header, write_packet-header_bytes, IsInt64, length-header_bytes,
}

-- The types of a frame's fields.
pub record FrameFits (f : AudioFrame) : Type 0 where
  pub format_fits : FormatFits f.format
  pub sequence_fits : f.sequence_number < 2 ^ 64
  pub timestamp_fits : IsInt64 f.timestamp
  pub payload_fits : All IsByte f.payload

abbrev pub samples_of : AudioFrame → ℕ
samples_of f = length f.payload / (f.format.channel_count * 2)

-- The limits of the network protocol.
pub record InLimits (f : AudioFrame) : Type 0 where
  pub rate_positive : 0 < f.format.sample_rate
  pub rate_bounded : f.format.sample_rate ≤ max_sample_rate
  pub channels_positive : 0 < f.format.channel_count
  pub channels_bounded : f.format.channel_count ≤ max_channels
  pub bits : f.format.bits_per_sample ≡ 16
  pub aligned : length f.payload % (f.format.channel_count * 2) ≡ 0
  pub samples_bounded : samples_of f ≤ max_samples_per_channel
  pub payload_bounded : length f.payload ≤ max_payload_size

pub serialize-InLimits :
    (f : AudioFrame) (p : List ℕ)
    → serialize_audio_frame f ≡ ok p
    → InLimits f × (p ≡ write_packet f (samples_of f))
unfolding serialize_audio_frame
serialize-InLimits f p e = (ground arith, ground arith)

pub InLimits-serialize :
    (f : AudioFrame) → InLimits f → serialize_audio_frame f ≡ ok (write_packet f (samples_of f))
unfolding serialize_audio_frame
InLimits-serialize f v = ground arith

-- The payload is cut into whole samples.
pub samples_exact :
    (f : AudioFrame) → InLimits f → length f.payload ≡ samples_of f * f.format.channel_count * 2
samples_exact f v =
    omega (arith, v.aligned, div-add-mod (length f.payload) (f.format.channel_count * 2))

-- A packet that `serialize_audio_frame` returns has the size of the header and the payload, which is
-- at most the largest size that the protocol allows.
pub length-serialize :
    (f : AudioFrame) (p : List ℕ)
    → serialize_audio_frame f ≡ ok p
    → (length p ≡ header_size + length f.payload) × (length p ≤ max_packet_size)
length-serialize f p e =
    let (v, q) = serialize-InLimits f p e in
    let n =
      ap length (q ∙ write_packet-header_bytes f (samples_of f))
      ∙ length-header_bytes (frame_header f (samples_of f)) f.payload in
    (n, omega (arith, n, v.payload_bounded))

pub samples_positive : (f : AudioFrame) → InLimits f → length f.payload ≢ 0 → 0 < samples_of f
samples_positive f v h =
    let exact = samples_exact f v in
    let none_left : samples_of f ≡ 0 → length f.payload ≡ 0 =
      λ z. exact ∙ ap (λ (n : ℕ). n * f.format.channel_count * 2) z ∙ omega arith in
    grind arith
