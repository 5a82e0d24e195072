-- ===== src/Discovery/Message.antt =====
-- The messages of src/device_discovery.cpp and their packets: a header of 12 bytes and what a device
-- says of itself, with strings and lists that carry their lengths.
pub mod Read
pub mod Layout
pub mod Bounds
pub mod Totality
pub mod Shape
pub mod Write
pub mod RoundTrip
use distributed_audio_system.Bytes.{
  Reader, append_u16, append_u32, append_u8, read_u16, read_u32, read_u8, return, ◌>>=◌,
}
use distributed_audio_system.Discovery.Device.{DeviceInfo}
use distributed_audio_system.Identity.{device_valid}
use distributed_audio_system.Prelude.{
  Bool, List, Option, Result, [], err, false, if◌then◌else◌, leb, length, ltb, none, not, ok, some,
  true, ℕ, ◌%◌, ◌&&◌, ◌++◌, ◌-◌, ◌==◌, ◌^◌, ◌||◌, ◌∷◌,
}

pub data MessageType : Type 0 where
  announce query response goodbye : MessageType

pub data DiscoveryParseError : Type 0 where
  no_error truncated invalid_magic unsupported_version invalid_type invalid_length :
      DiscoveryParseError
  invalid_device_id invalid_string invalid_capabilities excessive_packet : DiscoveryParseError

pub record DiscoveryMessage : Type 0 where
  pub type_ : MessageType
  pub device : Option DeviceInfo

pub record DiscoveryParseResult : Type 0 where
  pub message : Option DiscoveryMessage
  pub error : DiscoveryParseError

abbrev pub failure : DiscoveryParseError → DiscoveryParseResult
failure e = record { message = none; error = e }

abbrev pub discovery_magic : ℕ
discovery_magic = 0x4449_5331

abbrev pub discovery_version : ℕ
discovery_version = 1

abbrev pub discovery_header_size : ℕ
discovery_header_size = 12

abbrev pub discovery_max_packet_size : ℕ
discovery_max_packet_size = 1_024

abbrev pub discovery_max_name_length : ℕ
discovery_max_name_length = 96

abbrev pub discovery_max_address_length : ℕ
discovery_max_address_length = 64

abbrev pub discovery_max_capabilities : ℕ
discovery_max_capabilities = 16

unfoldable pub type_code : MessageType → ℕ
type_code announce = 1
type_code query = 2
type_code response = 3
type_code goodbye = 4

-- The conversion back, of a value in range.
unfoldable pub type_of_code : ℕ → MessageType
type_of_code v =
    if v == 1 then announce else if v == 2 then query else if v == 3 then response else goodbye

abbrev pub is_query : MessageType → Bool
is_query query = true
is_query _ = false

abbrev pub is_goodbye : MessageType → Bool
is_goodbye goodbye = true
is_goodbye _ = false

-- The exceptions of `serialize_discovery_message`.
pub data DiscoverySerializeError : Type 0 where
  device_required invalid_device string_too_long payload_too_large : DiscoverySerializeError

unfoldable pub append_string : List ℕ → List ℕ → ℕ → Result DiscoverySerializeError (List ℕ)
append_string out value limit =
    if ltb limit (length value) || ltb 0xFFFF (length value)
    then err string_too_long
    else ok (append_u16 out (length value % 2 ^ 16) ++ value)

-- `for (const auto value : values) append_u32(payload, value)`, and the same with append_u16.
unfoldable pub append_all : (List ℕ → ℕ → List ℕ) → List ℕ → List ℕ → List ℕ
append_all append out [] = out
append_all append out (v ∷ values) = append_all append (append out v) values

-- The test of `serialize_discovery_message`, as what it lets through.
unfoldable pub is_described : DeviceInfo → Bool
is_described info =
    device_valid info.id
    && not (length info.name == 0)
    && leb (length info.name) discovery_max_name_length
    && leb (length info.address) discovery_max_address_length
    && not (length info.sample_rates == 0)
    && leb (length info.sample_rates) discovery_max_capabilities
    && not (length info.channel_counts == 0)
    && leb (length info.channel_counts) discovery_max_capabilities
    && not (length info.bits_per_sample == 0)
    && leb (length info.bits_per_sample) discovery_max_capabilities

-- The numbers that follow the two strings.
unfoldable pub append_numbers : List ℕ → DeviceInfo → List ℕ
append_numbers payload info =
    let payload = append_u16 payload info.protocol_version in
    let payload = append_u16 payload info.audio_port in
    let payload = append_u16 payload info.discovery_port in
    let payload = append_u16 payload (length info.sample_rates % 2 ^ 16) in
    let payload = append_all append_u32 payload info.sample_rates in
    let payload = append_u16 payload (length info.channel_counts % 2 ^ 16) in
    let payload = append_all append_u16 payload info.channel_counts in
    let payload = append_u16 payload (length info.bits_per_sample % 2 ^ 16) in
    append_all append_u16 payload info.bits_per_sample

unfoldable pub append_device : List ℕ → DeviceInfo → Result DiscoverySerializeError (List ℕ)
append_device payload info =
    elim (append_string (payload ++ info.id.bytes) info.name discovery_max_name_length) [
      | err e ↦ err e
      | ok payload ↦ elim (append_string payload info.address discovery_max_address_length) [
        | err e ↦ err e
        | ok payload ↦ ok (append_numbers payload info)
      ]
    ]

-- The end of `serialize_discovery_message`: the header goes before the payload.
unfoldable pub finish_packet : MessageType → List ℕ → Result DiscoverySerializeError (List ℕ)
finish_packet t payload =
    if ltb (discovery_max_packet_size - discovery_header_size) (length payload)
    then err payload_too_large
    else let packet = append_u32 [] discovery_magic in
      let packet = append_u8 packet discovery_version in
      let packet = append_u8 packet (type_code t) in
      let packet = append_u16 packet 0 in
      let packet = append_u32 packet (length payload % 2 ^ 32) in ok (packet ++ payload)

unfoldable pub serialize_discovery_message :
    DiscoveryMessage → Result DiscoverySerializeError (List ℕ)
serialize_discovery_message message = elim message.device [
  | none ↦
      if not (is_query message.type_) then err device_required else finish_packet message.type_ []
  | some info ↦
      if not (is_described info) then err invalid_device else elim (append_device [] info) [
        | err e ↦ err e
        | ok payload ↦ finish_packet message.type_ payload
      ]
]

-- What the parser reads first.
pub record Header : Type 0 where
  pub magic : ℕ
  pub version : ℕ
  pub raw_type : ℕ
  pub reserved : ℕ
  pub payload_length : ℕ

unfoldable pub read_header : Reader Header
read_header = do
  magic ← read_u32
  version ← read_u8
  raw_type ← read_u8
  reserved ← read_u16
  payload_length ← read_u32
  return (record {
    magic = magic;
    version = version;
    raw_type = raw_type;
    reserved = reserved;
    payload_length = payload_length;
  })

-- The three numbers between the strings and the lists.
pub record Ports : Type 0 where
  pub protocol_version : ℕ
  pub audio_port : ℕ
  pub discovery_port : ℕ

unfoldable pub read_ports : Reader Ports
read_ports = do
  protocol_version ← read_u16
  audio_port ← read_u16
  discovery_port ← read_u16
  return (record {
    protocol_version = protocol_version;
    audio_port = audio_port;
    discovery_port = discovery_port;
  })
