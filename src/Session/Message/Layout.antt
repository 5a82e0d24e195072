-- ===== src/Session/Message/Layout.antt =====
-- The three parts of a packet as codecs: what each reader reads, it reads from what was written.
use distributed_audio_system.Bytes.Codec.{
  Codec, bytes_codec, done, then_field, u16_codec, u32_codec, u8_codec,
}
use distributed_audio_system.Prelude.{ap}
use distributed_audio_system.Session.Config.{AudioSessionConfig}
use distributed_audio_system.Session.Message.{Body, Header, read_body, read_config, read_header}

unfoldable pub header_codec : Codec Header read_header 12
unfolding read_header u8_codec u16_codec u32_codec done then_field
header_codec =
    then_field (λ h. h.magic) u32_codec
      (λ magic.
        then_field (λ h. h.version) u8_codec
          (λ version.
            then_field (λ h. h.raw_type) u8_codec
              (λ raw_type.
                then_field (λ h. h.reserved) u16_codec
                  (λ reserved.
                    then_field (λ h. h.payload_size) u32_codec
                      (λ payload_size. done (record {
                        magic = magic;
                        version = version;
                        raw_type = raw_type;
                        reserved = reserved;
                        payload_size = payload_size;
                      }))
                      (λ a b h. ap (λ x. x.payload_size) h))
                  (λ a b h. ap (λ x. x.reserved) h.1))
              (λ a b h. ap (λ x. x.raw_type) h.1.1))
          (λ a b h. ap (λ x. x.version) h.1.1.1))
      (λ a b h. ap (λ x. x.magic) h.1.1.1.1)

unfoldable pub body_codec : Codec Body read_body 50
unfolding read_body u8_codec bytes_codec done then_field
body_codec =
    then_field (λ b. b.session_id.bytes) (bytes_codec 16)
      (λ session_bytes.
        then_field (λ b. b.source.bytes) (bytes_codec 16)
          (λ source_bytes.
            then_field (λ b. b.destination.bytes) (bytes_codec 16)
              (λ destination_bytes.
                then_field (λ b. b.reason) u8_codec
                  (λ reason.
                    then_field (λ b. b.has_config) u8_codec
                      (λ has_config. done (record {
                        session_id = record { bytes = session_bytes };
                        source = record { bytes = source_bytes };
                        destination = record { bytes = destination_bytes };
                        reason = reason;
                        has_config = has_config;
                      }))
                      (λ a b h. ap (λ x. x.has_config) h))
                  (λ a b h. ap (λ x. x.reason) h.1))
              (λ a b h. ap (λ x. x.destination.bytes) h.1.1))
          (λ a b h. ap (λ x. x.source.bytes) h.1.1.1))
      (λ a b h. ap (λ x. x.session_id.bytes) h.1.1.1.1)

unfoldable pub config_codec : Codec AudioSessionConfig read_config 48
unfolding read_config u16_codec u32_codec bytes_codec done then_field
config_codec =
    then_field (λ c. c.sender.bytes) (bytes_codec 16)
      (λ sender.
        then_field (λ c. c.receiver.bytes) (bytes_codec 16)
          (λ receiver.
            then_field (λ c. c.format.sample_rate) u32_codec
              (λ rate.
                then_field (λ c. c.format.channel_count) u16_codec
                  (λ channels.
                    then_field (λ c. c.format.bits_per_sample) u16_codec
                      (λ bits.
                        then_field (λ c. c.samples_per_frame) u32_codec
                          (λ samples.
                            then_field (λ c. c.sender_audio_port) u16_codec
                              (λ from.
                                then_field (λ c. c.receiver_audio_port) u16_codec
                                  (λ to. done (record {
                                    format = record {
                                      sample_rate = rate;
                                      channel_count = channels;
                                      bits_per_sample = bits;
                                    };
                                    samples_per_frame = samples;
                                    sender = record { bytes = sender };
                                    receiver = record { bytes = receiver };
                                    sender_audio_port = from;
                                    receiver_audio_port = to;
                                  }))
                                  (λ a b h. ap (λ x. x.receiver_audio_port) h))
                              (λ a b h. ap (λ x. x.sender_audio_port) h.1))
                          (λ a b h. ap (λ x. x.samples_per_frame) h.1.1))
                      (λ a b h. ap (λ x. x.format.bits_per_sample) h.1.1.1))
                  (λ a b h. ap (λ x. x.format.channel_count) h.1.1.1.1))
              (λ a b h. ap (λ x. x.format.sample_rate) h.1.1.1.1.1))
          (λ a b h. ap (λ x. x.receiver.bytes) h.1.1.1.1.1.1))
      (λ a b h. ap (λ x. x.sender.bytes) h.1.1.1.1.1.1.1)
