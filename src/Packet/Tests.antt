-- ===== src/Packet/Tests.antt =====
-- Frames and packets of src/packet_serializer.cpp on which the theorems are used.
use distributed_audio_system.Audio.{AudioFormat, AudioFrame, audio_frame}
use distributed_audio_system.Bytes.{
  IsByte, append_bytes, append_u16, append_u32, append_u64, append_u8, read_bytes, read_u16,
  read_u32, read_u64, read_u8,
}
use distributed_audio_system.Bytes.Laws.{all_bytes-IsByte}
use distributed_audio_system.Packet.{
  ParseResult, build_frame, check_header, check_sizes, deserialize_audio_frame, failure,
  invalid_sample_count, read_header, serialize_audio_frame, timestamp_bits, timestamp_from_bits,
  write_packet,
}
use distributed_audio_system.Packet.Checks.{parsed}
use distributed_audio_system.Packet.Limits.{FrameFits}
use distributed_audio_system.Packet.Parse.{deserialize_total, serialize-deserialize}
use distributed_audio_system.Packet.RoundTrip.{deserialize-serialize, empty_frame_refused}
use distributed_audio_system.Prelude.{All, List, [], arith, ok, refl, some, ℕ, ◌∷◌, ◌≡◌}
use distributed_audio_system.Prelude.Int.{negsuc, pos}

abbrev stereo : AudioFormat
stereo = record { sample_rate = 48_000; channel_count = 2; bits_per_sample = 16 }

-- One sample for each channel, one nanosecond before the epoch.
abbrev sample_frame : AudioFrame
sample_frame = record {
  format = stereo;
  sequence_number = 258;
  timestamp = negsuc 0;
  payload = 1 ∷ 2 ∷ 3 ∷ 255 ∷ [];
}

abbrev sample_packet : List ℕ
sample_packet =
    68 ∷ 65 ∷ 83 ∷ 49 ∷ 1 ∷ 0 ∷ 0 ∷ 0 ∷ 0 ∷ 0 ∷ 0 ∷ 0 ∷ 0 ∷ 0 ∷ 1 ∷ 2 ∷ 255 ∷ 255 ∷ 255 ∷ 255 ∷ 255
    ∷ 255 ∷ 255 ∷ 255 ∷ 0 ∷ 0 ∷ 187 ∷ 128 ∷ 0 ∷ 2 ∷ 1 ∷ 0 ∷ 0 ∷ 0 ∷ 0 ∷ 1 ∷ 0 ∷ 0 ∷ 0 ∷ 4 ∷ 1 ∷ 2
    ∷ 3 ∷ 255 ∷ []

sample_frame-FrameFits : FrameFits sample_frame
sample_frame-FrameFits = record {
  format_fits = record {
    rate_fits = omega arith;
    channels_fit = omega arith;
    bits_fit = omega arith;
  };
  sequence_fits = omega arith;
  timestamp_fits = omega arith;
  payload_fits = all_bytes-IsByte sample_frame.payload refl;
}

serialize_sample : serialize_audio_frame sample_frame ≡ ok sample_packet
unfolding serialize_audio_frame write_packet timestamp_bits append_u8 append_u16 append_u32
    append_u64 append_bytes
serialize_sample = refl

deserialize-serialize_example : deserialize_audio_frame sample_packet ≡ some (parsed sample_frame)
deserialize-serialize_example =
    deserialize-serialize sample_frame sample_packet sample_frame-FrameFits (λ e. omega arith)
      serialize_sample

abbrev empty_frame : AudioFrame
empty_frame = record { format = stereo; sequence_number = 1; timestamp = pos 5; payload = [] }

abbrev empty_packet : List ℕ
empty_packet =
    68 ∷ 65 ∷ 83 ∷ 49 ∷ 1 ∷ 0 ∷ 0 ∷ 0 ∷ 0 ∷ 0 ∷ 0 ∷ 0 ∷ 0 ∷ 0 ∷ 0 ∷ 1 ∷ 0 ∷ 0 ∷ 0 ∷ 0 ∷ 0 ∷ 0 ∷ 0
    ∷ 5 ∷ 0 ∷ 0 ∷ 187 ∷ 128 ∷ 0 ∷ 2 ∷ 1 ∷ 0 ∷ 0 ∷ 0 ∷ 0 ∷ 0 ∷ 0 ∷ 0 ∷ 0 ∷ 0 ∷ []

empty_frame-FrameFits : FrameFits empty_frame
empty_frame-FrameFits = record {
  format_fits = record {
    rate_fits = omega arith;
    channels_fit = omega arith;
    bits_fit = omega arith;
  };
  sequence_fits = omega arith;
  timestamp_fits = omega arith;
  payload_fits = tt;
}

serialize_empty : serialize_audio_frame empty_frame ≡ ok empty_packet
unfolding serialize_audio_frame write_packet timestamp_bits append_u8 append_u16 append_u32
    append_u64 append_bytes
serialize_empty = refl

empty_frame_refused_example :
    deserialize_audio_frame empty_packet ≡ some (failure invalid_sample_count)
empty_frame_refused_example =
    empty_frame_refused empty_frame empty_packet empty_frame-FrameFits refl serialize_empty

sample_packet-IsByte : All IsByte sample_packet
sample_packet-IsByte = all_bytes-IsByte sample_packet refl

deserialize-serialize_sample : deserialize_audio_frame sample_packet ≡ some (parsed sample_frame)
unfolding deserialize_audio_frame read_header read_u8 read_u16 read_u32 read_u64 read_bytes
    timestamp_from_bits check_header check_sizes build_frame audio_frame
deserialize-serialize_sample = refl

deserialize_total_example : (r : ParseResult) × (deserialize_audio_frame sample_packet ≡ some r)
deserialize_total_example = deserialize_total sample_packet sample_packet-IsByte

serialize-deserialize_example :
    (serialize_audio_frame sample_frame ≡ ok sample_packet) × FrameFits sample_frame
serialize-deserialize_example =
    serialize-deserialize sample_packet (parsed sample_frame) sample_frame sample_packet-IsByte
      deserialize-serialize_sample refl
