-- ===== src/Session/Message.antt =====
-- The messages of src/audio_session.cpp and their packets: a header of 12 bytes, three identities, and
-- a configuration in an offer and an acceptance.
pub mod Layout
pub mod Shape
pub mod Serialize
pub mod Totality
pub mod Parse
pub mod Accept
pub mod RoundTrip
use distributed_audio_system.Bytes.{
  Reader, append_u16, append_u32, append_u8, read_n, read_u16, read_u32, read_u8, return, ◌>>=◌,
}
use distributed_audio_system.Identity.{DeviceId, SessionId, device_valid, session_valid}
use distributed_audio_system.Prelude.{
  Bool, List, Option, Result, [], bool_eq, err, false, has_value, if◌then◌else◌, length, ltb, none,
  not, ok, some, true, ℕ, ◌%◌, ◌&&◌, ◌++◌, ◌+◌, ◌-◌, ◌==◌, ◌^◌, ◌||◌,
}
use distributed_audio_system.Session.Config.{AudioSessionConfig, config_is_valid}

pub data SessionMessageType : Type 0 where
  offer accept reject start stop ack : SessionMessageType

pub data SessionRejectReason : Type 0 where
  no_reason incompatible_format unsupported_sample_rate unsupported_channels invalid_configuration :
      SessionRejectReason
  unknown_device busy protocol_error timeout remote_unavailable : SessionRejectReason

pub data SessionParseError : Type 0 where
  no_error truncated invalid_magic unsupported_version invalid_type invalid_length :
      SessionParseError
  invalid_session_id invalid_device_id invalid_configuration invalid_reason excessive_packet :
      SessionParseError

pub record SessionControlMessage : Type 0 where
  pub type_ : SessionMessageType
  pub session_id : SessionId
  pub source : DeviceId
  pub destination : DeviceId
  pub configuration : Option AudioSessionConfig
  pub reason : SessionRejectReason

pub record SessionParseResult : Type 0 where
  pub message : Option SessionControlMessage
  pub error : SessionParseError

abbrev pub failure : SessionParseError → SessionParseResult
failure e = record { message = none; error = e }

abbrev pub session_magic : ℕ
session_magic = 0x5345_5331

abbrev pub session_protocol_version : ℕ
session_protocol_version = 1

abbrev pub session_header_size : ℕ
session_header_size = 12

abbrev pub session_max_packet_size : ℕ
session_max_packet_size = 256

-- The values of the enumerations, and the conversions back, of values in range.
unfoldable pub type_code : SessionMessageType → ℕ
type_code offer = 1
type_code accept = 2
type_code reject = 3
type_code SessionMessageType.start = 4
type_code SessionMessageType.stop = 5
type_code ack = 6

unfoldable pub type_of_code : ℕ → SessionMessageType
type_of_code v =
    if v == 1
    then offer
    else if v == 2
    then accept
    else if v == 3
    then reject
    else if v == 4
    then SessionMessageType.start
    else if v == 5
    then SessionMessageType.stop
    else ack

unfoldable pub reason_code : SessionRejectReason → ℕ
reason_code no_reason = 0
reason_code incompatible_format = 1
reason_code unsupported_sample_rate = 2
reason_code unsupported_channels = 3
reason_code SessionRejectReason.invalid_configuration = 4
reason_code unknown_device = 5
reason_code busy = 6
reason_code protocol_error = 7
reason_code timeout = 8
reason_code remote_unavailable = 9

unfoldable pub reason_of_code : ℕ → SessionRejectReason
reason_of_code v =
    if v == 0
    then no_reason
    else if v == 1
    then incompatible_format
    else if v == 2
    then unsupported_sample_rate
    else if v == 3
    then unsupported_channels
    else if v == 4
    then SessionRejectReason.invalid_configuration
    else if v == 5
    then unknown_device
    else if v == 6
    then busy
    else if v == 7
    then protocol_error
    else if v == 8
    then timeout
    else remote_unavailable

abbrev pub is_offer : SessionMessageType → Bool
is_offer offer = true
is_offer _ = false

abbrev pub is_accept : SessionMessageType → Bool
is_accept accept = true
is_accept _ = false

abbrev pub is_reject : SessionMessageType → Bool
is_reject reject = true
is_reject _ = false

abbrev pub is_no_reason : SessionRejectReason → Bool
is_no_reason no_reason = true
is_no_reason _ = false

-- The exceptions of `serialize_session_message`.
pub data SessionSerializeError : Type 0 where
  invalid_identity configuration_presence reason_required invalid_session_configuration too_large :
      SessionSerializeError

unfoldable pub append_config : List ℕ → AudioSessionConfig → List ℕ
append_config payload config =
    let payload = payload ++ config.sender.bytes in
    let payload = payload ++ config.receiver.bytes in
    let payload = append_u32 payload config.format.sample_rate in
    let payload = append_u16 payload config.format.channel_count in
    let payload = append_u16 payload config.format.bits_per_sample in
    let payload = append_u32 payload config.samples_per_frame in
    let payload = append_u16 payload config.sender_audio_port in
    append_u16 payload config.receiver_audio_port

-- The payload without the configuration.
unfoldable pub message_payload : SessionControlMessage → List ℕ
message_payload message =
    let payload = [] ++ message.session_id.bytes in
    let payload = payload ++ message.source.bytes in
    let payload = payload ++ message.destination.bytes in
    let payload = append_u8 payload (reason_code message.reason) in
    append_u8 payload (if has_value message.configuration then 1 else 0)

-- The end of `serialize_session_message`: the header goes before the payload.
unfoldable pub finish_packet :
    SessionControlMessage → List ℕ → Result SessionSerializeError (List ℕ)
finish_packet message payload =
    if ltb session_max_packet_size (length payload + session_header_size)
    then err too_large
    else let packet = append_u32 [] session_magic in
      let packet = append_u8 packet session_protocol_version in
      let packet = append_u8 packet (type_code message.type_) in
      let packet = append_u16 packet 0 in
      let packet = append_u32 packet (length payload % 2 ^ 32) in ok (packet ++ payload)

unfoldable pub serialize_session_message :
    SessionControlMessage → Result SessionSerializeError (List ℕ)
serialize_session_message message =
    if not (session_valid message.session_id)
      || not (device_valid message.source)
      || not (device_valid message.destination)
    then err invalid_identity
    else if not (
        bool_eq (is_offer message.type_ || is_accept message.type_)
          (has_value message.configuration))
    then err configuration_presence
    else if is_reject message.type_ && is_no_reason message.reason
    then err reason_required
    else elim message.configuration [
      | none ↦ finish_packet message (message_payload message)
      | some config ↦
          if not (config_is_valid config)
          then err invalid_session_configuration
          else finish_packet message (append_config (message_payload message) config)
    ]

-- What the parser reads first.
pub record Header : Type 0 where
  pub magic : ℕ
  pub version : ℕ
  pub raw_type : ℕ
  pub reserved : ℕ
  pub payload_size : ℕ

unfoldable pub read_header : Reader Header
read_header = do
  magic ← read_u32
  version ← read_u8
  raw_type ← read_u8
  reserved ← read_u16
  payload_size ← read_u32
  return (record {
    magic = magic;
    version = version;
    raw_type = raw_type;
    reserved = reserved;
    payload_size = payload_size;
  })

-- What it reads once the header has passed.
pub record Body : Type 0 where
  pub session_id : SessionId
  pub source : DeviceId
  pub destination : DeviceId
  pub reason : ℕ
  pub has_config : ℕ

unfoldable pub read_body : Reader Body
read_body = do
  session_bytes ← read_n 16
  source_bytes ← read_n 16
  destination_bytes ← read_n 16
  reason ← read_u8
  has_config ← read_u8
  return (record {
    session_id = record { bytes = session_bytes };
    source = record { bytes = source_bytes };
    destination = record { bytes = destination_bytes };
    reason = reason;
    has_config = has_config;
  })

unfoldable pub read_config : Reader AudioSessionConfig
read_config = do
  sender_bytes ← read_n 16
  receiver_bytes ← read_n 16
  sample_rate ← read_u32
  channel_count ← read_u16
  bits_per_sample ← read_u16
  samples_per_frame ← read_u32
  sender_audio_port ← read_u16
  receiver_audio_port ← read_u16
  return (record {
    format = record {
      sample_rate = sample_rate;
      channel_count = channel_count;
      bits_per_sample = bits_per_sample;
    };
    samples_per_frame = samples_per_frame;
    sender = record { bytes = sender_bytes };
    receiver = record { bytes = receiver_bytes };
    sender_audio_port = sender_audio_port;
    receiver_audio_port = receiver_audio_port;
  })

abbrev pub build_message : Header → Body → Option AudioSessionConfig → SessionControlMessage
build_message h b configuration = record {
  type_ = type_of_code h.raw_type;
  session_id = b.session_id;
  source = b.source;
  destination = b.destination;
  configuration = configuration;
  reason = reason_of_code b.reason;
}

-- The last part of the parser; `rest` is what follows the body. `none` is a read out of bounds.
unfoldable pub parse_config : Header → Body → List ℕ → Option SessionParseResult
parse_config h b rest =
    if not (b.has_config == 0)
    then if not (length rest == 48)
      then some (failure SessionParseError.invalid_configuration)
      else elim (read_config rest) [
        | none ↦ none
        | some (config, after) ↦
            if not (config_is_valid config)
            then some (failure SessionParseError.invalid_configuration)
            else some
                (record { message = some (build_message h b (some config)); error = no_error })
      ]
    else if not (length rest == 0)
    then some (failure invalid_length)
    else some (record { message = some (build_message h b none); error = no_error })

unfoldable pub check_body : Header → Body → List ℕ → Option SessionParseResult
check_body h b rest =
    let needs_config = is_offer (type_of_code h.raw_type) || is_accept (type_of_code h.raw_type) in
    if not (session_valid b.session_id)
      || not (device_valid b.source)
      || not (device_valid b.destination)
    then some (failure invalid_session_id)
    else if ltb 9 b.reason
    then some (failure invalid_reason)
    else if ltb 1 b.has_config
    then some (failure invalid_length)
    else if not (bool_eq needs_config (not (b.has_config == 0)))
    then some (failure SessionParseError.invalid_configuration)
    else parse_config h b rest

unfoldable pub check_header : List ℕ → Header → List ℕ → Option SessionParseResult
check_header packet h rest =
    if not (h.magic == session_magic)
    then some (failure invalid_magic)
    else if not (h.version == session_protocol_version)
    then some (failure unsupported_version)
    else if not (h.reserved == 0) || ltb h.raw_type 1 || ltb 6 h.raw_type
    then some (failure invalid_type)
    else if not (h.payload_size == length packet - session_header_size)
    then some (failure invalid_length)
    else if ltb h.payload_size 50
    then some (failure truncated)
    else elim (read_body rest) [ none ↦ none | some (b, after) ↦ check_body h b after ]

unfoldable pub deserialize_session_message : List ℕ → Option SessionParseResult
deserialize_session_message packet =
    if ltb (length packet) session_header_size
    then some (failure truncated)
    else if ltb session_max_packet_size (length packet)
    then some (failure excessive_packet)
    else elim (read_header packet) [ none ↦ none | some (h, rest) ↦ check_header packet h rest ]
