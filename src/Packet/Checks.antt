-- ===== src/Packet/Checks.antt =====
-- When the chain of tests of `deserialize_audio_frame` lets a header through.
use distributed_audio_system.Prelude.{
  ℕ, ◌+◌, ◌*◌, ◌/◌, ◌%◌, ◌^◌, ◌≤◌, ◌<◌, ◌≡◌, some, List, length, arith, drop, length-drop, ◌∙◌, ap,
}
use native.Mathlib.Nat.{le-div_iff_mul-le, mul-mod_left}
use distributed_audio_system.Audio.{AudioFrame, audio_frame, u64_max}
use distributed_audio_system.Packet.{
  ParseResult, no_error, check_header, check_sizes, build_frame, header_size, max_channels,
  max_sample_rate, max_samples_per_channel, max_payload_size, Header, magic_number,
  protocol_version, pcm_s16_le,
}

-- The tests of the fields.
pub record FieldsPass (h : Header) : Type 0 where
  pub magic : h.magic ≡ magic_number
  pub version : h.version ≡ protocol_version
  pub flags : h.flags ≡ 0
  pub reserved : h.reserved ≡ 0
  pub sample_reserved : h.sample_reserved ≡ 0
  pub rate_positive : 0 < h.sample_rate
  pub rate_bounded : h.sample_rate ≤ max_sample_rate
  pub channels_positive : 0 < h.channels
  pub channels_bounded : h.channels ≤ max_channels
  pub sample_format : h.sample_format ≡ pcm_s16_le
  pub samples_positive : 0 < h.samples_per_channel
  pub samples_bounded : h.samples_per_channel ≤ max_samples_per_channel

-- The tests of the sizes.
pub record SizesPass (h : Header) (size : ℕ) : Type 0 where
  pub payload : h.payload_size ≡ h.samples_per_channel * h.channels * 2
  pub payload_bounded : h.payload_size ≤ max_payload_size
  pub exact : size ≡ header_size + h.payload_size

-- The frame that an accepted header describes.
abbrev pub described : Header → List ℕ → AudioFrame
described h payload = record {
  format = record { sample_rate = h.sample_rate; channel_count = h.channels; bits_per_sample = 16 };
  sequence_number = h.sequence;
  timestamp = h.timestamp;
  payload = payload;
}

-- The parser's answer for a frame that it accepts.
abbrev pub parsed : AudioFrame → ParseResult
parsed f = record { frame = some f; error = no_error }

pub whole_samples : (n c : ℕ) → 0 < c → n * c * 2 % (c * 2) ≡ 0
whole_samples n c h =
    let turn : n * c * 2 ≡ n * (c * 2) = omega arith in rw turn (mul-mod_left n (c * 2))

build_frame-parsed :
    (packet : List ℕ) (h : Header)
    → FieldsPass h
    → length (drop header_size packet) ≡ h.samples_per_channel * h.channels * 2
    → build_frame packet h ≡ parsed (described h (drop header_size packet))
unfolding build_frame audio_frame
build_frame-parsed packet h a n =
    ground (
      arith,
      ap (λ (k : ℕ). k % (h.channels * 2)) n,
      whole_samples h.samples_per_channel h.channels,
    )

-- The test against the largest std::size_t never fails after the tests of the fields.
few_samples : (n c : ℕ) → 0 < c → c ≤ 8 → n ≤ 4_096 → n ≤ u64_max / c / 2
few_samples n c p q r =
    let big : 2 ^ 60 ≤ u64_max / c = (le-div_iff_mul-le p).1 (omega arith) in omega arith

check_sizes-pass :
    (packet : List ℕ) (h : Header)
    → FieldsPass h
    → SizesPass h (length packet)
    → check_sizes packet h ≡ build_frame packet h
unfolding check_sizes
check_sizes-pass packet h a s =
    ground (arith, few_samples h.samples_per_channel h.channels a.channels_positive)

check_header-fields :
    (packet : List ℕ) (h : Header) → FieldsPass h → check_header packet h ≡ check_sizes packet h
unfolding check_header
check_header-fields packet h a = ground arith

pub check_header-pass :
    (packet : List ℕ) (h : Header)
    → FieldsPass h
    → SizesPass h (length packet)
    → check_header packet h ≡ parsed (described h (drop header_size packet))
check_header-pass packet h f s =
    check_header-fields packet h f
    ∙ check_sizes-pass packet h f s
    ∙ build_frame-parsed packet h f
        (omega (arith, length-drop header_size packet, s.payload, s.exact))

build_frame-frame :
    (packet : List ℕ) (h : Header) (f : AudioFrame)
    → (build_frame packet h).frame ≡ some f
    → f ≡ described h (drop header_size packet)
unfolding build_frame audio_frame
build_frame-frame packet h f e = ground arith

check_sizes-frame :
    (packet : List ℕ) (h : Header) (f : AudioFrame)
    → (check_sizes packet h).frame ≡ some f
    → SizesPass h (length packet) × ((build_frame packet h).frame ≡ some f)
unfolding check_sizes
check_sizes-frame packet h f e = ground arith

check_header-frame_fields :
    (packet : List ℕ) (h : Header) (f : AudioFrame)
    → (check_header packet h).frame ≡ some f
    → FieldsPass h × ((check_sizes packet h).frame ≡ some f)
unfolding check_header
check_header-frame_fields packet h f e = ground arith

pub check_header-frame :
    (packet : List ℕ) (h : Header) (f : AudioFrame)
    → (check_header packet h).frame ≡ some f
    → FieldsPass h × SizesPass h (length packet) × (f ≡ described h (drop header_size packet))
check_header-frame packet h f e =
    let (fields, e') = check_header-frame_fields packet h f e in
    let (sizes, e'') = check_sizes-frame packet h f e' in
    (fields, sizes, build_frame-frame packet h f e'')
