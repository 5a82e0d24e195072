-- ===== src/Packet/Layout.antt =====
-- The bytes of a packet, field by field: a header stands for 40 bytes, and reading gives it back.
use mathlib.Core.List.{append_assoc}
use distributed_audio_system.Prelude.{
  ℕ, ◌+◌, ◌%◌, ◌^◌, ◌<◌, ◌≡◌, refl, ap, some, List, ◌∷◌, ◌++◌, length, length-append, drop, arith,
}
use distributed_audio_system.Prelude.Int.{ℤ, pos, negsuc}
use distributed_audio_system.Bytes.{append_u8}
use distributed_audio_system.Bytes.Laws.{
  then_reads, big_endian, append_u16-big_endian, append_u32-big_endian, append_u64-big_endian,
  read_u8-cons, read_u16-big_endian, read_u32-big_endian, read_u64-big_endian, length-big_endian,
}
use distributed_audio_system.Audio.{AudioFrame}
use distributed_audio_system.Packet.{
  Header, write_packet, read_header, timestamp_bits, timestamp_from_bits, magic_number,
  protocol_version, header_size, pcm_s16_le,
}

-- The range of std::int64_t.
abbrev pub IsInt64 : ℤ → Type 0
IsInt64 (pos n) = n < 2 ^ 63
IsInt64 (negsuc n) = n < 2 ^ 63

pub timestamp_bits-lt : (t : ℤ) → timestamp_bits t < 2 ^ 64
unfolding timestamp_bits
timestamp_bits-lt (pos n) = omega arith
timestamp_bits-lt (negsuc n) = omega arith

pub timestamp_from_bits-bits : (t : ℤ) → IsInt64 t → timestamp_from_bits (timestamp_bits t) ≡ t
unfolding timestamp_bits timestamp_from_bits
timestamp_from_bits-bits (pos n) h = ground arith
timestamp_from_bits-bits (negsuc n) h = ground arith

pub timestamp_bits-from_bits : (v : ℕ) → v < 2 ^ 64 → timestamp_bits (timestamp_from_bits v) ≡ v
unfolding timestamp_bits timestamp_from_bits
timestamp_bits-from_bits v h = ground arith

pub timestamp_from_bits-IsInt64 : (v : ℕ) → v < 2 ^ 64 → IsInt64 (timestamp_from_bits v)
unfolding timestamp_from_bits
timestamp_from_bits-IsInt64 v h = ground arith

-- The types of the fields.
pub record HeaderFits (h : Header) : Type 0 where
  pub magic_fits : h.magic < 2 ^ 32
  pub version_fits : h.version < 256
  pub flags_fit : h.flags < 256
  pub reserved_fits : h.reserved < 2 ^ 16
  pub sequence_fits : h.sequence < 2 ^ 64
  pub timestamp_fits : IsInt64 h.timestamp
  pub rate_fits : h.sample_rate < 2 ^ 32
  pub channels_fit : h.channels < 2 ^ 16
  pub format_fits : h.sample_format < 256
  pub sample_reserved_fits : h.sample_reserved < 256
  pub samples_fit : h.samples_per_channel < 2 ^ 32
  pub size_fits : h.payload_size < 2 ^ 32

-- The twelve fields, each in its place, in front of `rest`.
unfoldable pub header_bytes : Header → List ℕ → List ℕ
header_bytes h rest =
    big_endian 4 h.magic
    ++ (h.version
        ∷ h.flags
        ∷ (big_endian 2 h.reserved
            ++ (big_endian 8 h.sequence
                ++ (big_endian 8 (timestamp_bits h.timestamp)
                    ++ (big_endian 4 h.sample_rate
                        ++ (big_endian 2 h.channels
                            ++ (h.sample_format
                                ∷ h.sample_reserved
                                ∷ (big_endian 4 h.samples_per_channel
                                    ++ (big_endian 4 h.payload_size ++ rest)))))))))

-- The header that `serialize_audio_frame` writes for a frame.
abbrev pub frame_header : AudioFrame → ℕ → Header
frame_header f samples = record {
  magic = magic_number;
  version = protocol_version;
  flags = 0;
  reserved = 0;
  sequence = f.sequence_number;
  timestamp = f.timestamp;
  sample_rate = f.format.sample_rate;
  channels = f.format.channel_count;
  sample_format = pcm_s16_le;
  sample_reserved = 0;
  samples_per_channel = samples % 2 ^ 32;
  payload_size = length f.payload % 2 ^ 32;
}

pub write_packet-header_bytes :
    (f : AudioFrame) (samples : ℕ)
    → write_packet f samples ≡ header_bytes (frame_header f samples) f.payload
unfolding write_packet header_bytes append_u8
write_packet-header_bytes f samples =
    simp (append_u16-big_endian, append_u32-big_endian, append_u64-big_endian, append_assoc)

pub read_header-header_bytes :
    (h : Header) (rest : List ℕ) → HeaderFits h → read_header (header_bytes h rest) ≡ some (h, rest)
unfolding read_header header_bytes
read_header-header_bytes h rest fits =
    then_reads _ (read_u32-big_endian h.magic _ fits.magic_fits) (
      then_reads _ (read_u8-cons h.version _) (
        then_reads _ (read_u8-cons h.flags _) (
          then_reads _ (read_u16-big_endian h.reserved _ fits.reserved_fits) (
            then_reads _ (read_u64-big_endian h.sequence _ fits.sequence_fits) (
              then_reads _
                (read_u64-big_endian (timestamp_bits h.timestamp) _ (timestamp_bits-lt h.timestamp))
                (then_reads _ (read_u32-big_endian h.sample_rate _ fits.rate_fits) (
                  then_reads _ (read_u16-big_endian h.channels _ fits.channels_fit) (
                    then_reads _ (read_u8-cons h.sample_format _) (
                      then_reads _ (read_u8-cons h.sample_reserved _) (
                        then_reads _ (read_u32-big_endian h.samples_per_channel _ fits.samples_fit)
                          (then_reads _ (read_u32-big_endian h.payload_size _ fits.size_fits) (
                            ap (λ (t : ℤ). some (record h { timestamp = t }, rest))
                              (timestamp_from_bits-bits h.timestamp fits.timestamp_fits)))))))))))))

pub length-header_bytes :
    (h : Header) (rest : List ℕ) → length (header_bytes h rest) ≡ header_size + length rest
unfolding header_bytes
length-header_bytes h rest = simp (length-append, length-big_endian) (omega arith)

pub drop-header_bytes : (h : Header) (rest : List ℕ) → drop header_size (header_bytes h rest) ≡ rest
unfolding header_bytes big_endian
drop-header_bytes h rest = refl
