-- ===== src/Discovery/Message/Layout.antt =====
-- The parts of fixed size of a discovery packet as codecs.
use distributed_audio_system.Bytes.Codec.{Codec, done, then_field, u16_codec, u32_codec, u8_codec}
use distributed_audio_system.Discovery.Message.{Header, Ports, read_header, read_ports}
use distributed_audio_system.Prelude.{ap}

unfoldable pub header_codec : Codec Header read_header 12
unfolding read_header u8_codec u16_codec u32_codec done then_field
header_codec =
    then_field (λ h. h.magic) u32_codec
      (λ magic.
        then_field (λ h. h.version) u8_codec
          (λ version.
            then_field (λ h. h.raw_type) u8_codec
              (λ raw_type.
                then_field (λ h. h.reserved) u16_codec
                  (λ reserved.
                    then_field (λ h. h.payload_length) u32_codec
                      (λ payload_length. done (record {
                        magic = magic;
                        version = version;
                        raw_type = raw_type;
                        reserved = reserved;
                        payload_length = payload_length;
                      }))
                      (λ a b h. ap (λ x. x.payload_length) h))
                  (λ a b h. ap (λ x. x.reserved) h.1))
              (λ a b h. ap (λ x. x.raw_type) h.1.1))
          (λ a b h. ap (λ x. x.version) h.1.1.1))
      (λ a b h. ap (λ x. x.magic) h.1.1.1.1)

unfoldable pub ports_codec : Codec Ports read_ports 6
unfolding read_ports u16_codec done then_field
ports_codec =
    then_field (λ p. p.protocol_version) u16_codec
      (λ version.
        then_field (λ p. p.audio_port) u16_codec
          (λ audio.
            then_field (λ p. p.discovery_port) u16_codec
              (λ discovery. done (record {
                protocol_version = version;
                audio_port = audio;
                discovery_port = discovery;
              }))
              (λ a b h. ap (λ x. x.discovery_port) h))
          (λ a b h. ap (λ x. x.audio_port) h.1))
      (λ a b h. ap (λ x. x.protocol_version) h.1.1)
