-- ===== src/Packet/Parts.antt =====
-- Any packet of at least 40 bytes is a header and a rest.
use distributed_audio_system.Prelude.{
  ℕ, ◌≤◌, ◌≡◌, ap, ap₂, sym, ◌∙◌, List, length, arith, All, ◌++◌, ◌∷◌,
}
use distributed_audio_system.Bytes.{IsByte}
use distributed_audio_system.Bytes.Laws.{big_endian}
use distributed_audio_system.Bytes.Reads.{Field, field, ByteField, byte_field}
use distributed_audio_system.Packet.{Header, header_size, timestamp_from_bits}
use distributed_audio_system.Packet.Layout.{
  HeaderFits, header_bytes, timestamp_bits-from_bits, timestamp_from_bits-IsInt64,
}

-- A packet of at least 40 bytes is a header and what follows it.
pub record Parts (packet : List ℕ) : Type 0 where
  pub header : Header
  pub rest : List ℕ
  pub whole : packet ≡ header_bytes header rest
  pub fits : HeaderFits header
  pub rest_bytes : All IsByte rest

module _ (packet : List ℕ) (bytes : All IsByte packet) (long : header_size ≤ length packet) where
  magic : Field 4 packet
  magic = field 4 packet bytes (omega arith)

  version : ByteField magic.rest
  version = byte_field magic.rest magic.rest_bytes (omega (arith, magic.rest_size))

  flags : ByteField version.rest
  flags =
      byte_field version.rest version.rest_bytes (omega (arith, magic.rest_size, version.rest_size))

  reserved : Field 2 flags.rest
  reserved =
      field 2 flags.rest flags.rest_bytes
        (omega (arith, magic.rest_size, version.rest_size, flags.rest_size))

  sequence : Field 8 reserved.rest
  sequence =
      field 8 reserved.rest reserved.rest_bytes
        (omega (arith, magic.rest_size, version.rest_size, flags.rest_size, reserved.rest_size))

  timestamp : Field 8 sequence.rest
  timestamp = field 8 sequence.rest sequence.rest_bytes (
      omega (
        arith, magic.rest_size, version.rest_size, flags.rest_size, reserved.rest_size,
        sequence.rest_size,
      ))

  sample_rate : Field 4 timestamp.rest
  sample_rate = field 4 timestamp.rest timestamp.rest_bytes (
      omega (
        arith, magic.rest_size, version.rest_size, flags.rest_size, reserved.rest_size,
        sequence.rest_size, timestamp.rest_size,
      ))

  channels : Field 2 sample_rate.rest
  channels = field 2 sample_rate.rest sample_rate.rest_bytes (
      omega (
        arith, magic.rest_size, version.rest_size, flags.rest_size, reserved.rest_size,
        sequence.rest_size, timestamp.rest_size, sample_rate.rest_size,
      ))

  sample_format : ByteField channels.rest
  sample_format = byte_field channels.rest channels.rest_bytes (
      omega (
        arith, magic.rest_size, version.rest_size, flags.rest_size, reserved.rest_size,
        sequence.rest_size, timestamp.rest_size, sample_rate.rest_size, channels.rest_size,
      ))

  sample_reserved : ByteField sample_format.rest
  sample_reserved = byte_field sample_format.rest sample_format.rest_bytes (
      omega (
        arith, magic.rest_size, version.rest_size, flags.rest_size, reserved.rest_size,
        sequence.rest_size, timestamp.rest_size, sample_rate.rest_size, channels.rest_size,
        sample_format.rest_size,
      ))

  samples : Field 4 sample_reserved.rest
  samples = field 4 sample_reserved.rest sample_reserved.rest_bytes (
      omega (
        arith, magic.rest_size, version.rest_size, flags.rest_size, reserved.rest_size,
        sequence.rest_size, timestamp.rest_size, sample_rate.rest_size, channels.rest_size,
        sample_format.rest_size, sample_reserved.rest_size,
      ))

  payload_size : Field 4 samples.rest
  payload_size = field 4 samples.rest samples.rest_bytes (
      omega (
        arith, magic.rest_size, version.rest_size, flags.rest_size, reserved.rest_size,
        sequence.rest_size, timestamp.rest_size, sample_rate.rest_size, channels.rest_size,
        sample_format.rest_size, sample_reserved.rest_size, samples.rest_size,
      ))

  header : Header
  header = record {
    magic = magic.value;
    version = version.value;
    flags = flags.value;
    reserved = reserved.value;
    sequence = sequence.value;
    timestamp = timestamp_from_bits timestamp.value;
    sample_rate = sample_rate.value;
    channels = channels.value;
    sample_format = sample_format.value;
    sample_reserved = sample_reserved.value;
    samples_per_channel = samples.value;
    payload_size = payload_size.value;
  }

  header_whole : packet ≡ header_bytes header payload_size.rest
  unfolding header header_bytes
  header_whole =
      magic.split
      ∙ ap (◌++◌ (big_endian 4 magic.value)) (
          version.split
          ∙ ap (◌∷◌ version.value) (
              flags.split
              ∙ ap (◌∷◌ flags.value) (
                  reserved.split
                  ∙ ap (◌++◌ (big_endian 2 reserved.value)) (
                      sequence.split
                      ∙ ap (◌++◌ (big_endian 8 sequence.value)) (
                          timestamp.split
                          ∙ ap₂ (λ t r. big_endian 8 t ++ r)
                              (sym (timestamp_bits-from_bits timestamp.value timestamp.fits))
                              (sample_rate.split
                                ∙ ap (◌++◌ (big_endian 4 sample_rate.value)) (
                                    channels.split
                                    ∙ ap (◌++◌ (big_endian 2 channels.value)) (
                                        sample_format.split
                                        ∙ ap (◌∷◌ sample_format.value) (
                                            sample_reserved.split
                                            ∙ ap (◌∷◌ sample_reserved.value) (
                                                samples.split
                                                ∙ ap (◌++◌ (big_endian 4 samples.value))
                                                    payload_size.split))))))))))

  pub parts : Parts packet
  unfolding header
  parts = record {
    header = header;
    rest = payload_size.rest;
    whole = header_whole;
    fits = record {
      magic_fits = magic.fits;
      version_fits = version.fits;
      flags_fit = flags.fits;
      reserved_fits = reserved.fits;
      sequence_fits = sequence.fits;
      timestamp_fits = timestamp_from_bits-IsInt64 timestamp.value timestamp.fits;
      rate_fits = sample_rate.fits;
      channels_fit = channels.fits;
      format_fits = sample_format.fits;
      sample_reserved_fits = sample_reserved.fits;
      samples_fit = samples.fits;
      size_fits = payload_size.fits;
    };
    rest_bytes = payload_size.rest_bytes;
  }
