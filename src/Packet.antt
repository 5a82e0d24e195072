-- ===== src/Packet.antt =====
-- src/packet_serializer.cpp and include/distributed_audio/network_protocol.hpp: one audio frame in
-- one datagram, a header of 40 bytes in network order and the payload.
pub mod Layout
pub mod Checks
pub mod RoundTrip
pub mod Parts
pub mod Parse
pub mod Limits
mod Tests
use distributed_audio_system.Prelude.{
  ℕ, ◌+◌, ◌-◌, ◌*◌, ◌/◌, ◌%◌, ◌^◌, Bool, ◌||◌, not, Option, none, some, List, [], ◌++◌, length,
  drop, Result, ok, err, ltb, ◌==◌, if◌then◌else◌,
}
use distributed_audio_system.Prelude.Int.{ℤ, pos, negsuc}
use distributed_audio_system.Bytes.{
  append_u8, append_u16, append_u32, append_u64, Reader, ◌>>=◌, return, read_u8, read_u16, read_u32,
  read_u64,
}
use distributed_audio_system.Audio.{
  AudioFormat, AudioFrame, FrameError, format_is_valid, audio_frame, u64_max,
}

abbrev pub magic_number : ℕ
magic_number = 0x4441_5331

abbrev pub protocol_version : ℕ
protocol_version = 1

abbrev pub header_size : ℕ
header_size = 40

abbrev pub max_channels : ℕ
max_channels = 8

abbrev pub max_sample_rate : ℕ
max_sample_rate = 384_000

abbrev pub max_samples_per_channel : ℕ
max_samples_per_channel = 4_096

abbrev pub max_payload_size : ℕ
max_payload_size = 1_200

abbrev pub max_packet_size : ℕ
max_packet_size = header_size + max_payload_size

-- The one value of `SampleFormat`.
abbrev pub pcm_s16_le : ℕ
pcm_s16_le = 1

pub data ParseError : Type 0 where
  no_error truncated_header invalid_magic unsupported_version invalid_flags invalid_sample_rate :
      ParseError
  invalid_channels unsupported_sample_format invalid_sample_count invalid_payload_size : ParseError
  truncated_payload excessive_packet_size invalid_audio_frame : ParseError

pub record ParseResult : Type 0 where
  pub frame : Option AudioFrame
  pub error : ParseError

abbrev pub failure : ParseError → ParseResult
failure e = record { frame = none; error = e }

-- The three exceptions of `serialize_audio_frame`.
pub data SerializeError : Type 0 where
  unsupported_format unaligned exceeds_limits : SerializeError

-- A conversion from std::int64_t to std::uint64_t, modulo 2 ^ 64.
unfoldable pub timestamp_bits : ℤ → ℕ
timestamp_bits (pos n) = n % 2 ^ 64
timestamp_bits (negsuc n) = 2 ^ 64 - 1 - n % 2 ^ 64

unfoldable pub timestamp_from_bits : ℕ → ℤ
timestamp_from_bits value = if ltb value (2 ^ 63) then pos value else negsuc (2 ^ 64 - 1 - value)

-- The header and the payload, in the order of the calls.
unfoldable pub write_packet : AudioFrame → ℕ → List ℕ
write_packet frame samples_per_channel =
    let packet = append_u32 [] magic_number in
    let packet = append_u8 packet protocol_version in
    let packet = append_u8 packet 0 in
    let packet = append_u16 packet 0 in
    let packet = append_u64 packet frame.sequence_number in
    let packet = append_u64 packet (timestamp_bits frame.timestamp) in
    let packet = append_u32 packet frame.format.sample_rate in
    let packet = append_u16 packet frame.format.channel_count in
    let packet = append_u8 packet pcm_s16_le in
    let packet = append_u8 packet 0 in
    let packet = append_u32 packet (samples_per_channel % 2 ^ 32) in
    let packet = append_u32 packet (length frame.payload % 2 ^ 32) in packet ++ frame.payload

unfoldable pub serialize_audio_frame : AudioFrame → Result SerializeError (List ℕ)
unfolding format_is_valid
serialize_audio_frame frame =
    let format = frame.format in
    let size = length frame.payload in
    let bytes_per_frame = format.channel_count * 2 in
    if not (format_is_valid format)
      || not (format.bits_per_sample == 16)
      || ltb max_channels format.channel_count
      || ltb max_sample_rate format.sample_rate
    then err unsupported_format
    else if bytes_per_frame == 0 || not (size % bytes_per_frame == 0)
    then err unaligned
    else if ltb max_samples_per_channel (size / bytes_per_frame) || ltb max_payload_size size
    then err exceeds_limits
    else ok (write_packet frame (size / bytes_per_frame))

-- The values that the parser reads before it looks at any of them.
pub record Header : Type 0 where
  pub magic : ℕ
  pub version : ℕ
  pub flags : ℕ
  pub reserved : ℕ
  pub sequence : ℕ
  pub timestamp : ℤ
  pub sample_rate : ℕ
  pub channels : ℕ
  pub sample_format : ℕ
  pub sample_reserved : ℕ
  pub samples_per_channel : ℕ
  pub payload_size : ℕ

unfoldable pub read_header : Reader Header
read_header = do
  magic ← read_u32
  version ← read_u8
  flags ← read_u8
  reserved ← read_u16
  sequence ← read_u64
  timestamp ← read_u64
  sample_rate ← read_u32
  channels ← read_u16
  sample_format ← read_u8
  sample_reserved ← read_u8
  samples_per_channel ← read_u32
  payload_size ← read_u32
  return (record {
    magic = magic;
    version = version;
    flags = flags;
    reserved = reserved;
    sequence = sequence;
    timestamp = timestamp_from_bits timestamp;
    sample_rate = sample_rate;
    channels = channels;
    sample_format = sample_format;
    sample_reserved = sample_reserved;
    samples_per_channel = samples_per_channel;
    payload_size = payload_size;
  })

-- The `try` block: the frame from the payload, with any exception caught.
unfoldable pub build_frame : List ℕ → Header → ParseResult
build_frame packet h =
    elim (audio_frame
      (record { sample_rate = h.sample_rate; channel_count = h.channels; bits_per_sample = 16 })
      h.sequence h.timestamp (drop header_size packet)) [
        | ok frame ↦ record { frame = some frame; error = no_error }
        | err e ↦ failure invalid_audio_frame
      ]

unfoldable pub check_sizes : List ℕ → Header → ParseResult
check_sizes packet h =
    if ltb (u64_max / h.channels / 2) h.samples_per_channel
    then failure invalid_payload_size
    else if not (h.payload_size == h.samples_per_channel * h.channels * 2)
        || ltb max_payload_size h.payload_size
    then failure invalid_payload_size
    else if ltb (length packet) (header_size + h.payload_size)
    then failure truncated_payload
    else if not (length packet == header_size + h.payload_size)
    then failure invalid_payload_size
    else build_frame packet h

unfoldable pub check_header : List ℕ → Header → ParseResult
check_header packet h =
    if not (h.magic == magic_number)
    then failure invalid_magic
    else if not (h.version == protocol_version)
    then failure unsupported_version
    else if not (h.flags == 0) || not (h.reserved == 0) || not (h.sample_reserved == 0)
    then failure invalid_flags
    else if h.sample_rate == 0 || ltb max_sample_rate h.sample_rate
    then failure invalid_sample_rate
    else if h.channels == 0 || ltb max_channels h.channels
    then failure invalid_channels
    else if not (h.sample_format == pcm_s16_le)
    then failure unsupported_sample_format
    else if h.samples_per_channel == 0 || ltb max_samples_per_channel h.samples_per_channel
    then failure invalid_sample_count
    else check_sizes packet h

-- `none` is a read out of bounds; `Parse` proves that there is none.
unfoldable pub deserialize_audio_frame : List ℕ → Option ParseResult
deserialize_audio_frame packet =
    if ltb (length packet) header_size
    then some (failure truncated_header)
    else if ltb max_packet_size (length packet)
    then some (failure excessive_packet_size)
    else elim (read_header packet) [ none ↦ none | some (h, rest) ↦ some (check_header packet h) ]
