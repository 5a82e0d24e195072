-- ===== src/Session/Message/Shape.antt =====
-- The packet of a message, as the three parts of `Layout`, and the messages that have one.
use distributed_audio_system.Audio.{FormatFits}
use distributed_audio_system.Bytes.Codec.{
  bytes_codec, done, then_field, u16_codec, u32_codec, u8_codec,
}
use distributed_audio_system.Identity.{device_valid, session_valid}
use distributed_audio_system.Identity.Laws.{IsIdentity}
use distributed_audio_system.Prelude.{
  Bool, List, OfOption, Option, [], ap₂, arith, has_value, if◌then◌else◌, length, length-append,
  none, not, refl, some, true, ℕ, ◌&&◌, ◌++◌, ◌+◌, ◌<◌, ◌^◌, ◌||◌, ◌∙◌, ◌≡◌, ◌≤◌,
}
use distributed_audio_system.Session.Config.{AudioSessionConfig, config_is_valid}
use distributed_audio_system.Session.Message.{
  Body, Header, SessionControlMessage, SessionMessageType, SessionRejectReason, is_accept,
  is_no_reason, is_offer, is_reject, reason_code, reason_of_code, session_magic,
  session_protocol_version, type_code, type_of_code,
}
use distributed_audio_system.Session.Message.Layout.{body_codec, config_codec, header_codec}

-- The types of the fields.
pub record ConfigFits (c : AudioSessionConfig) : Type 0 where
  pub format_fits : FormatFits c.format
  pub samples_fit : c.samples_per_frame < 2 ^ 32
  pub sender_fits : IsIdentity c.sender.bytes
  pub receiver_fits : IsIdentity c.receiver.bytes
  pub sender_port_fits : c.sender_audio_port < 2 ^ 16
  pub receiver_port_fits : c.receiver_audio_port < 2 ^ 16

pub record MessageFits (m : SessionControlMessage) : Type 0 where
  pub session_fits : IsIdentity m.session_id.bytes
  pub source_fits : IsIdentity m.source.bytes
  pub destination_fits : IsIdentity m.destination.bytes
  pub config_fits : OfOption ConfigFits m.configuration

-- What both ends ask of a message.
pub record MessageValid (m : SessionControlMessage) : Type 0 where
  pub session_id_valid : session_valid m.session_id ≡ true
  pub source_valid : device_valid m.source ≡ true
  pub destination_valid : device_valid m.destination ≡ true
  pub presence : (is_offer m.type_ || is_accept m.type_) ≡ has_value m.configuration
  pub config_valid : OfOption (λ c. config_is_valid c ≡ true) m.configuration

-- A rejection gives its reason.
abbrev pub has_reason : SessionControlMessage → Bool
has_reason m = not (is_reject m.type_ && is_no_reason m.reason)

abbrev pub config_size : Option AudioSessionConfig → ℕ
config_size none = 0
config_size (some c) = 48

unfoldable pub config_bytes : Option AudioSessionConfig → List ℕ
config_bytes none = []
config_bytes (some c) = config_codec.write c

abbrev pub message_header : SessionControlMessage → Header
message_header m = record {
  magic = session_magic;
  version = session_protocol_version;
  raw_type = type_code m.type_;
  reserved = 0;
  payload_size = 50 + config_size m.configuration;
}

abbrev pub message_body : SessionControlMessage → Body
message_body m = record {
  session_id = m.session_id;
  source = m.source;
  destination = m.destination;
  reason = reason_code m.reason;
  has_config = if has_value m.configuration then 1 else 0;
}

unfoldable pub packet_of : SessionControlMessage → List ℕ
packet_of m =
    header_codec.write (message_header m)
    ++ (body_codec.write (message_body m) ++ config_bytes m.configuration)

pub type_code-lt : (t : SessionMessageType) → (0 < type_code t) × (type_code t ≤ 6)
unfolding type_code
type_code-lt t = ground arith

pub reason_code-lt : (r : SessionRejectReason) → reason_code r ≤ 9
unfolding reason_code
reason_code-lt r = ground arith

pub type_of_code-code : (t : SessionMessageType) → type_of_code (type_code t) ≡ t
unfolding type_of_code type_code
type_of_code-code t = ground arith

pub type_code-of_code : (v : ℕ) → 0 < v → v ≤ 6 → type_code (type_of_code v) ≡ v
unfolding type_of_code type_code
type_code-of_code v lo hi = ground arith

pub reason_of_code-code : (r : SessionRejectReason) → reason_of_code (reason_code r) ≡ r
unfolding reason_of_code reason_code
reason_of_code-code r = ground arith

pub reason_code-of_code : (v : ℕ) → v ≤ 9 → reason_code (reason_of_code v) ≡ v
unfolding reason_of_code reason_code
reason_code-of_code v h = ground arith

pub header-Fits : (m : SessionControlMessage) → header_codec.Fits (message_header m)
unfolding header_codec u8_codec u16_codec u32_codec done then_field
header-Fits m =
    let (lo, hi) = type_code-lt m.type_ in
    (omega arith, (omega arith, (omega arith, (omega arith, (ground arith, refl)))))

pub body-Fits : (m : SessionControlMessage) → MessageFits m → body_codec.Fits (message_body m)
unfolding body_codec u8_codec bytes_codec done then_field
body-Fits m f =
    let hi = reason_code-lt m.reason in
    (f.session_fits, (f.source_fits, (f.destination_fits, (omega arith, (ground arith, refl)))))

pub config-Fits : (c : AudioSessionConfig) → ConfigFits c → config_codec.Fits c
unfolding config_codec u16_codec u32_codec bytes_codec done then_field
config-Fits c f = (
  f.sender_fits,
  (
    f.receiver_fits,
    (
      f.format_fits.rate_fits,
      (
        f.format_fits.channels_fit,
        (
          f.format_fits.bits_fit,
          (f.samples_fit, (f.sender_port_fits, (f.receiver_port_fits, refl))),
        ),
      ),
    ),
  ),
)

pub Fits-config : (c : AudioSessionConfig) → config_codec.Fits c → ConfigFits c
unfolding config_codec u16_codec u32_codec bytes_codec done then_field
Fits-config c (sender, (receiver, (rate, (channels, (bits, (samples, (from, (to, e)))))))) =
    record {
      format_fits = record { rate_fits = rate; channels_fit = channels; bits_fit = bits };
      samples_fit = samples;
      sender_fits = sender;
      receiver_fits = receiver;
      sender_port_fits = from;
      receiver_port_fits = to;
    }

pub length-config_bytes :
    (o : Option AudioSessionConfig)
    → OfOption ConfigFits o
    → length (config_bytes o) ≡ config_size o
unfolding config_bytes
length-config_bytes none f = refl
length-config_bytes (some c) f = config_codec.length_write c (config-Fits c f)

pub length-payload :
    (m : SessionControlMessage)
    → MessageFits m
    → length (body_codec.write (message_body m) ++ config_bytes m.configuration)
      ≡ 50 + config_size m.configuration
length-payload m f =
    length-append (body_codec.write (message_body m)) _
    ∙ ap₂ ◌+◌ (body_codec.length_write (message_body m) (body-Fits m f))
        (length-config_bytes m.configuration f.config_fits)

pub length-packet_of :
    (m : SessionControlMessage)
    → MessageFits m
    → length (packet_of m) ≡ 62 + config_size m.configuration
unfolding packet_of
length-packet_of m f =
    length-append (header_codec.write (message_header m)) _
    ∙ ap₂ ◌+◌ (header_codec.length_write (message_header m) (header-Fits m)) (length-payload m f)
    ∙ omega arith

pub config_size-lt : (o : Option AudioSessionConfig) → config_size o ≤ 48
config_size-lt o = ground arith
