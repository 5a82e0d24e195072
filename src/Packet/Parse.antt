-- ===== src/Packet/Parse.antt =====
-- `deserialize_audio_frame` (src/packet_serializer.cpp) on any bytes at all.
use native.Mathlib.Nat.{mul-div_cancel}
use distributed_audio_system.Prelude.{
  ℕ, ◌+◌, ◌*◌, ◌/◌, ◌%◌, ◌^◌, ◌≤◌, ◌<◌, ◌≡◌, ◌≢◌, ◌↔◌, inl, inr, refl, ap, sym, ◌∙◌, some, none,
  List, length, arith, ok, All, subst, Bool-cases, Option-cases, ltb,
}
use distributed_audio_system.Bytes.{IsByte}
use distributed_audio_system.Audio.{AudioFrame, audio_frame}
use distributed_audio_system.Packet.{
  ParseResult, no_error, failure, truncated_header, excessive_packet_size, serialize_audio_frame,
  deserialize_audio_frame, Header, read_header, header_size, max_packet_size, check_header,
  check_sizes, build_frame,
}
use distributed_audio_system.Packet.Layout.{
  HeaderFits, header_bytes, frame_header, write_packet-header_bytes, read_header-header_bytes,
  drop-header_bytes, length-header_bytes,
}
use distributed_audio_system.Packet.Checks.{
  FieldsPass, SizesPass, described, whole_samples, check_header-frame,
}
use distributed_audio_system.Packet.Limits.{FrameFits, InLimits, samples_of, InLimits-serialize}
use distributed_audio_system.Packet.Parts.{parts}

-- A parser's answer carries a frame exactly when it carries no error.
abbrev pub IsCoherent : ParseResult → Type 0
IsCoherent r = (r.frame ≡ none) ↔ (r.error ≢ no_error)

-- Reading the header of a packet of at least 40 bytes.
read_parts :
    (packet : List ℕ) (bytes : All IsByte packet) (long : header_size ≤ length packet)
    → let p = parts packet bytes long in read_header packet ≡ some (p.header, p.rest)
read_parts packet bytes long =
    let p = parts packet bytes long in
    ap read_header p.whole ∙ read_header-header_bytes p.header p.rest p.fits

-- On every packet of bytes the parser gives an answer: no read is out of bounds.
pub deserialize_total :
    (packet : List ℕ)
    → All IsByte packet
    → (r : ParseResult) × (deserialize_audio_frame packet ≡ some r)
unfolding deserialize_audio_frame
deserialize_total packet bytes = elim (Bool-cases (ltb (length packet) header_size)) [
  | inl short ↦ (failure truncated_header, rw short)
  | inr long ↦ elim (Bool-cases (ltb max_packet_size (length packet))) [
    | inl big ↦ (failure excessive_packet_size, rw (long, big))
    | inr fits ↦
        let h40 : header_size ≤ length packet = ground arith in
        (
          check_header packet (parts packet bytes h40).header,
          ground (arith, long, fits, read_parts packet bytes h40),
        )
  ]
]

-- Which packets the parser answers with a frame.
deserialize-frame :
    (packet : List ℕ) (bytes : All IsByte packet) (r : ParseResult) (f : AudioFrame)
    → deserialize_audio_frame packet ≡ some r
    → r.frame ≡ some f
    → (long : header_size ≤ length packet) × (r
        ≡ check_header packet (parts packet bytes long).header)
unfolding deserialize_audio_frame
deserialize-frame packet bytes r f e h = elim (Bool-cases (ltb (length packet) header_size)) [
  | inl short ↦ absurd (ground (arith, short))
  | inr long ↦
      let h40 : header_size ≤ length packet = ground arith in
      (h40, ground (arith, read_parts packet bytes h40))
]

-- The numbers of a header whose payload is cut into whole samples.
samples_described :
    (h : Header) (payload : List ℕ)
    → 0 < h.channels
    → length payload ≡ h.samples_per_channel * h.channels * 2
    → samples_of (described h payload) ≡ h.samples_per_channel
samples_described h payload c n =
    let regroup : length payload ≡ h.samples_per_channel * (h.channels * 2) = omega (arith, n) in
    ap (λ (k : ℕ). k / (h.channels * 2)) regroup
    ∙ mul-div_cancel h.samples_per_channel (omega arith)

described-InLimits :
    (h : Header) (payload : List ℕ)
    → FieldsPass h
    → SizesPass h (header_size + length payload)
    → InLimits (described h payload)
described-InLimits h payload a s =
    let n : length payload ≡ h.samples_per_channel * h.channels * 2 =
      omega (arith, s.exact, s.payload) in
    record {
      rate_positive = a.rate_positive;
      rate_bounded = a.rate_bounded;
      channels_positive = a.channels_positive;
      channels_bounded = a.channels_bounded;
      bits = refl;
      aligned =
          ap (λ (k : ℕ). k % (h.channels * 2)) n
          ∙ whole_samples h.samples_per_channel h.channels a.channels_positive;
      samples_bounded = rw (samples_described h payload a.channels_positive n) a.samples_bounded;
      payload_bounded = omega (arith, s.exact, s.payload_bounded);
    }

-- Serializing the described frame writes the header again.
frame_header-described :
    (h : Header) (payload : List ℕ)
    → FieldsPass h
    → SizesPass h (header_size + length payload)
    → frame_header (described h payload) (samples_of (described h payload)) ≡ h
frame_header-described h payload a s =
    let n : length payload ≡ h.samples_per_channel * h.channels * 2 =
      omega (arith, s.exact, s.payload) in
    let k = samples_described h payload a.channels_positive n in
    let small : samples_of (described h payload) % 2 ^ 32 ≡ h.samples_per_channel =
      omega (arith, k, a.samples_bounded) in
    let size : length payload % 2 ^ 32 ≡ h.payload_size =
      omega (arith, s.exact, s.payload_bounded) in
    ground (
      arith, small, size, a.magic, a.version, a.flags, a.reserved, a.sample_reserved,
      a.sample_format,
    )

described-FrameFits :
    (h : Header) (payload : List ℕ)
    → HeaderFits h
    → All IsByte payload
    → FrameFits (described h payload)
described-FrameFits h payload fits bytes = record {
  format_fits = record {
    rate_fits = fits.rate_fits;
    channels_fit = fits.channels_fit;
    bits_fit = omega arith;
  };
  sequence_fits = fits.sequence_fits;
  timestamp_fits = fits.timestamp_fits;
  payload_fits = bytes;
}

canonical :
    (h : Header) (rest : List ℕ) (f : AudioFrame)
    → HeaderFits h
    → All IsByte rest
    → (check_header (header_bytes h rest) h).frame ≡ some f
    → (serialize_audio_frame f ≡ ok (header_bytes h rest)) × FrameFits f
canonical h rest f fits bytes e =
    let (a, s, d) = check_header-frame (header_bytes h rest) h f e in
    let payload = drop-header_bytes h rest in
    let f_lem : f ≡ described h rest = d ∙ ap (described h) payload in
    let sizes : SizesPass h (header_size + length rest) =
      subst (SizesPass h) (length-header_bytes h rest) s in
    let g = described h rest in
    subst (λ x. (serialize_audio_frame x ≡ ok (header_bytes h rest)) × FrameFits x) (sym f_lem)
      (
        InLimits-serialize g (described-InLimits h rest a sizes)
            ∙ ap ok (
                write_packet-header_bytes g (samples_of g)
                ∙ ap (λ k. header_bytes k rest) (frame_header-described h rest a sizes)),
        described-FrameFits h rest fits bytes,
      )

-- A packet of bytes that the parser accepts is what `serialize_audio_frame` writes for the frame
-- that it returns, and every field of that frame is in the range of its type.
pub serialize-deserialize :
    (packet : List ℕ) (r : ParseResult) (f : AudioFrame)
    → All IsByte packet
    → deserialize_audio_frame packet ≡ some r
    → r.frame ≡ some f
    → (serialize_audio_frame f ≡ ok packet) × FrameFits f
serialize-deserialize packet r f bytes e h =
    let (long, answer) = deserialize-frame packet bytes r f e h in
    let p = parts packet bytes long in
    let whole = p.whole in
    let accepted : (check_header (header_bytes p.header p.rest) p.header).frame ≡ some f =
      ap (λ q. (check_header q p.header).frame) (sym whole) ∙ ap (λ a. a.frame) (sym answer) ∙ h in
    let (ok_packet, fits) = canonical p.header p.rest f p.fits p.rest_bytes accepted in
    (ok_packet ∙ ap ok (sym whole), fits)

build_frame-IsCoherent : (packet : List ℕ) (h : Header) → IsCoherent (build_frame packet h)
unfolding build_frame audio_frame
build_frame-IsCoherent packet h = (ground arith, ground arith)

check_header-IsCoherent : (packet : List ℕ) (h : Header) → IsCoherent (check_header packet h)
unfolding check_header check_sizes
check_header-IsCoherent packet h = (
  ground (arith, build_frame-IsCoherent packet h),
  ground (arith, build_frame-IsCoherent packet h),
)

-- A parser's answer has no frame exactly when it has an error.
deserialize-IsCoherent :
    (packet : List ℕ) (r : ParseResult)
    → deserialize_audio_frame packet ≡ some r
    → (r.frame ≡ none) ↔ (r.error ≢ no_error)
unfolding deserialize_audio_frame
deserialize-IsCoherent packet r e = elim (Option-cases (read_header packet)) [
  | inl fault ↦ (ground (arith, fault), ground (arith, fault))
  | inr ((h, rest), read) ↦
      let c = check_header-IsCoherent packet h in (ground (arith, read, c), ground (arith, read, c))
]
