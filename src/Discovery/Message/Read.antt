-- ===== src/Discovery/Message/Read.antt =====
-- `deserialize_discovery_message` of src/device_discovery.cpp.
use distributed_audio_system.Bytes.{Reader, read_n, read_u16, read_u32}
use distributed_audio_system.Discovery.Device.{DeviceInfo}
use distributed_audio_system.Discovery.Message.{
  DiscoveryMessage, DiscoveryParseResult, Header, MessageType, Ports, discovery_header_size,
  discovery_magic, discovery_max_address_length, discovery_max_capabilities,
  discovery_max_name_length, discovery_max_packet_size, discovery_version, excessive_packet,
  failure, invalid_capabilities, invalid_device_id, invalid_length, invalid_magic, invalid_string,
  invalid_type, is_query, no_error, query, read_header, read_ports, truncated, type_of_code,
  unsupported_version,
}
use distributed_audio_system.Identity.{device_valid}
use distributed_audio_system.Prelude.{
  Bool, List, Option, [], if◌then◌else◌, length, ltb, none, not, some, suc, zero, ℕ, ◌&&◌, ◌-◌,
  ◌==◌, ◌||◌, ◌∷◌,
}

-- What a part of the parser comes to: a read past the end, `return false`, or a value and the rest.
pub data Outcome (A : Type 0) : Type 0 where
  out_of_bounds refused : Outcome A
  taken : A → List ℕ → Outcome A

-- A read of the packet.
abbrev pub taken_from : {A : Type 0} → Option (A × List ℕ) → Outcome A
taken_from none = out_of_bounds
taken_from (some (a, rest)) = taken a rest

infixl 5 ◌>>=◌
abbrev pub ◌>>=◌ : {A B : Type 0} → Outcome A → (A → List ℕ → Outcome B) → Outcome B
out_of_bounds >>= f = out_of_bounds
refused >>= f = refused
taken a rest >>= f = f a rest

-- The parser reads on when `test` holds.
abbrev pub unless : {A : Type 0} → Bool → Outcome A → Outcome A
unless test next = if test then refused else next

unfoldable pub read_string : ℕ → List ℕ → Outcome (List ℕ)
read_string limit rest = unless (ltb (length rest) 2) (
    taken_from (read_u16 rest) >>= λ size rest.
    unless (ltb limit size || ltb (length rest) size) (taken_from (read_n size rest)))

-- The loop of `read_capabilities`, for values of `size` bytes.
unfoldable pub read_values : Reader ℕ → ℕ → ℕ → List ℕ → Outcome (List ℕ)
read_values reader size zero rest = taken [] rest
read_values reader size (suc count) rest = unless (ltb (length rest) size) (
    taken_from (reader rest) >>= λ v rest.
    read_values reader size count rest >>= λ values rest. taken (v ∷ values) rest)

unfoldable pub read_capabilities : Reader ℕ → ℕ → List ℕ → Outcome (List ℕ)
read_capabilities reader size rest = unless (ltb (length rest) 2) (
    taken_from (read_u16 rest) >>= λ count rest.
    unless (count == 0 || ltb discovery_max_capabilities count)
      (read_values reader size count rest))

-- The name and the address, and that the numbers fit after them.
unfoldable pub read_strings : List ℕ → Outcome (List ℕ × List ℕ)
read_strings rest = read_string discovery_max_name_length rest >>= λ name rest.
    unless (length name == 0) (
      read_string discovery_max_address_length rest >>= λ address rest.
      unless (ltb (length rest) 8) (taken (name, address) rest))

-- The three lists of what the device can do.
pub record Capabilities : Type 0 where
  pub sample_rates : List ℕ
  pub channel_counts : List ℕ
  pub bits_per_sample : List ℕ

unfoldable pub read_lists : List ℕ → Outcome Capabilities
read_lists rest = read_capabilities read_u32 4 rest >>= λ rates rest.
    read_capabilities read_u16 2 rest >>= λ channels rest.
    read_capabilities read_u16 2 rest >>= λ bits rest. unless (not (length rest == 0)) (
      taken (record { sample_rates = rates; channel_counts = channels; bits_per_sample = bits })
        rest)

abbrev pub build_device : List ℕ → List ℕ × List ℕ → Ports → Capabilities → DeviceInfo
build_device id (name, address) ports lists = record {
  id = record { bytes = id };
  name = name;
  protocol_version = ports.protocol_version;
  address = address;
  sample_rates = lists.sample_rates;
  channel_counts = lists.channel_counts;
  bits_per_sample = lists.bits_per_sample;
  audio_port = ports.audio_port;
  discovery_port = ports.discovery_port;
}

-- The parser's answer for a message that it accepts.
abbrev pub parsed : DiscoveryMessage → DiscoveryParseResult
parsed m = record { message = some m; error = no_error }

unfoldable pub parse_lists :
    MessageType → List ℕ → List ℕ × List ℕ → Ports → List ℕ → Option DiscoveryParseResult
parse_lists t id strings ports rest = elim (read_lists rest) [
  | out_of_bounds ↦ none
  | refused ↦ some (failure invalid_capabilities)
  | taken lists _ ↦
      some (parsed (record { type_ = t; device = some (build_device id strings ports lists) }))
]

unfoldable pub parse_strings : MessageType → List ℕ → List ℕ → Option DiscoveryParseResult
parse_strings t id rest = elim (read_strings rest) [
  | out_of_bounds ↦ none
  | refused ↦ some (failure invalid_string)
  | taken strings rest ↦ elim (read_ports rest) [
    | none ↦ none
    | some (ports, rest) ↦ parse_lists t id strings ports rest
  ]
]

-- The payload. `none` is a read out of bounds.
unfoldable pub parse_device : MessageType → List ℕ → Option DiscoveryParseResult
parse_device t rest =
    if ltb (length rest) 16 then some (failure truncated) else elim (read_n 16 rest) [
      | none ↦ none
      | some (id, rest) ↦
          if not (device_valid (record { bytes = id }))
          then some (failure invalid_device_id)
          else parse_strings t id rest
    ]

unfoldable pub check_header : List ℕ → Header → List ℕ → Option DiscoveryParseResult
check_header packet h rest =
    let out_of_range = ltb h.raw_type 1 || ltb 4 h.raw_type in
    if not (h.magic == discovery_magic)
    then some (failure invalid_magic)
    else if not (h.version == discovery_version)
    then some (failure unsupported_version)
    else if not (h.reserved == 0) || out_of_range
    then some (failure (if out_of_range then invalid_type else invalid_length))
    else if not (h.payload_length == length packet - discovery_header_size)
    then some (failure invalid_length)
    else if is_query (type_of_code h.raw_type) && not (h.payload_length == 0)
    then some (failure invalid_length)
    else if is_query (type_of_code h.raw_type)
    then some (parsed (record { type_ = query; device = none }))
    else parse_device (type_of_code h.raw_type) rest

unfoldable pub deserialize_discovery_message : List ℕ → Option DiscoveryParseResult
deserialize_discovery_message packet =
    if ltb (length packet) discovery_header_size
    then some (failure truncated)
    else if ltb discovery_max_packet_size (length packet)
    then some (failure excessive_packet)
    else elim (read_header packet) [ none ↦ none | some (h, rest) ↦ check_header packet h rest ]
