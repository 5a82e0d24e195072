-- ===== src/Discovery/Message/RoundTrip.antt =====
-- `deserialize_discovery_message` after `serialize_discovery_message` (src/device_discovery.cpp).
use mathlib.Core.List.{append-nil}
use distributed_audio_system.Bytes.{read_n, read_u16, read_u32}
use distributed_audio_system.Bytes.Codec.{done, then_field, u16_codec, u32_codec, u8_codec}
use distributed_audio_system.Bytes.Laws.{
  big_endian, read_n-append, read_u16-big_endian, read_u32-big_endian,
}
use distributed_audio_system.Discovery.Device.{DeviceInfo}
use distributed_audio_system.Discovery.Message.{
  DiscoveryMessage, DiscoveryParseResult, MessageType, discovery_max_address_length,
  discovery_max_name_length, failure, invalid_length, is_query, query, read_ports,
  serialize_discovery_message, type_code, type_of_code,
}
use distributed_audio_system.Discovery.Message.Layout.{header_codec, ports_codec}
use distributed_audio_system.Discovery.Message.Read.{
  Capabilities, Outcome, check_header, deserialize_discovery_message, parse_device, parse_lists,
  parse_strings, parsed, read_capabilities, read_lists, read_strings, taken, unless, ◌>>=◌,
}
use distributed_audio_system.Discovery.Message.Shape.{
  DeviceFits, counted, device_bytes, lists_bytes, numbers_bytes, ports_of,
  read_capabilities-counted, read_string-counted,
}
use distributed_audio_system.Discovery.Message.Write.{Described, header_of, serialize_device}
use distributed_audio_system.Prelude.{
  Bool, List, [], ap, arith, false, length, length-append, ltb, ok, refl, some, sym, ℕ, ◌++◌, ◌+◌,
  ◌<◌, ◌==◌, ◌^◌, ◌∙◌, ◌≡◌, ◌≤◌,
}

-- One part of the parser that succeeds.
then_taken :
    {A B : Type 0} {o : Outcome A} {a : A} {rest : List ℕ} (f : A → List ℕ → Outcome B)
    {x : Outcome B}
    → o ≡ taken a rest
    → f a rest ≡ x
    → (o >>= f) ≡ x
then_taken f e k = ap (λ o. o >>= f) e ∙ k

let_through :
    {A : Type 0} (test : Bool) {o x : Outcome A} → test ≡ false → o ≡ x → unless test o ≡ x
let_through test {o} e k = ap (λ t. unless t o) e ∙ k

read_strings-device :
    (info : DeviceInfo) (rest : List ℕ)
    → Described info
    → 8 ≤ length rest
    → read_strings (counted info.name info.name ++ (counted info.address info.address ++ rest))
      ≡ taken (info.name, info.address) rest
unfolding read_strings
read_strings-device info rest d long =
    then_taken _
      (read_string-counted discovery_max_name_length info.name _ d.name_bounded (omega arith))
      (let_through (length info.name == 0) (ground (arith, d.named)) (
        then_taken _
          (read_string-counted discovery_max_address_length info.address rest d.address_bounded
            (omega arith))
          (let_through (ltb (length rest) 8) (ground arith) refl)))

abbrev lists_of : DeviceInfo → Capabilities
lists_of info = record {
  sample_rates = info.sample_rates;
  channel_counts = info.channel_counts;
  bits_per_sample = info.bits_per_sample;
}

read_lists-device :
    (info : DeviceInfo)
    → Described info
    → DeviceFits info
    → read_lists (lists_bytes info) ≡ taken (lists_of info) []
unfolding read_lists
read_lists-device info d f =
    then_taken _
      (read_capabilities-counted read_u32 4 (2 ^ 32) info.sample_rates _ read_u32-big_endian
        f.rates_fit d.some_rate d.rates_bounded)
      (then_taken _
        (read_capabilities-counted read_u16 2 (2 ^ 16) info.channel_counts _ read_u16-big_endian
          f.channels_fit d.some_channel d.channels_bounded)
        (then_taken _
          (ap (read_capabilities read_u16 2) (sym (append-nil _))
            ∙ read_capabilities-counted read_u16 2 (2 ^ 16) info.bits_per_sample []
                read_u16-big_endian f.bits_fit d.some_bits d.bits_bounded)
          refl))

ports_of-Fits : (info : DeviceInfo) → DeviceFits info → ports_codec.Fits (ports_of info)
unfolding ports_codec u16_codec done then_field
ports_of-Fits info f = (f.version_fits, (f.audio_fits, (f.discovery_fits, refl)))

numbers_long : (info : DeviceInfo) → DeviceFits info → 8 ≤ length (numbers_bytes info)
unfolding big_endian
numbers_long info f =
    let whole : length (numbers_bytes info) ≡ 6 + length (lists_bytes info) =
      length-append (ports_codec.write (ports_of info)) (lists_bytes info)
      ∙ ap (λ (n : ℕ). n + length (lists_bytes info))
          (ports_codec.length_write (ports_of info) (ports_of-Fits info f)) in
    let lists : 2 ≤ length (lists_bytes info) = omega arith in omega arith

parse_device-bytes :
    (t : MessageType) (info : DeviceInfo)
    → Described info
    → DeviceFits info
    → parse_device t (device_bytes info) ≡ some (parsed (record { type_ = t; device = some info }))
unfolding parse_device parse_strings parse_lists device_bytes
parse_device-bytes t info d f =
    let strings =
      counted info.name info.name ++ (counted info.address info.address ++ numbers_bytes info) in
    let id : read_n 16 (info.id.bytes ++ strings) ≡ some (info.id.bytes, strings) =
      read_n-append 16 info.id.bytes strings f.id_fits.0 in
    let size : length (info.id.bytes ++ strings) ≡ 16 + length strings =
      length-append info.id.bytes strings ∙ ap (λ (n : ℕ). n + length strings) f.id_fits.0 in
    let texts = read_strings-device info (numbers_bytes info) d (numbers_long info f) in
    let ports : read_ports (numbers_bytes info) ≡ some (ports_of info, lists_bytes info) =
      ports_codec.reads (ports_of info) (lists_bytes info) (ports_of-Fits info f) in
    let lists = read_lists-device info d f in
    ground (arith, id, size, texts, ports, lists, d.id_valid)

type_code-lt : (t : MessageType) → (0 < type_code t) × (type_code t ≤ 4)
unfolding type_code
type_code-lt t = ground arith

type_of_code-code : (t : MessageType) → type_of_code (type_code t) ≡ t
unfolding type_of_code type_code
type_of_code-code t = ground arith

header_of-Fits : (t : MessageType) (n : ℕ) → n ≤ 1_012 → header_codec.Fits (header_of t n)
unfolding header_codec u8_codec u16_codec u32_codec done then_field
header_of-Fits t n h =
    let (lo, hi) = type_code-lt t in
    (omega arith, (omega arith, (omega arith, (omega arith, (omega arith, refl)))))

-- The header of a payload, and what follows.
parse_header :
    (t : MessageType) (payload : List ℕ) (r : DiscoveryParseResult)
    → length payload ≤ 1_012
    → check_header
        (header_codec.write (header_of t (length payload)) ++ payload)
        (header_of t (length payload))
        payload
      ≡ some r
    → deserialize_discovery_message (header_codec.write (header_of t (length payload)) ++ payload)
      ≡ some r
unfolding deserialize_discovery_message
parse_header t payload r h e =
    let header = header_of t (length payload) in
    let fits = header_of-Fits t (length payload) h in
    let size : length (header_codec.write header ++ payload) ≡ 12 + length payload =
      length-append (header_codec.write header) payload
      ∙ ap (λ (n : ℕ). n + length payload) (header_codec.length_write header fits) in
    let read = header_codec.reads header payload fits in ground (arith, size, read, e)

check_header-device :
    (t : MessageType) (payload : List ℕ) (m : DiscoveryMessage)
    → is_query t ≡ false
    → length payload ≤ 1_012
    → parse_device t payload ≡ some (parsed m)
    → check_header
        (header_codec.write (header_of t (length payload)) ++ payload)
        (header_of t (length payload))
        payload
      ≡ some (parsed m)
unfolding check_header
check_header-device t payload m q h e =
    let header = header_of t (length payload) in
    let size : length (header_codec.write header ++ payload) ≡ 12 + length payload =
      length-append (header_codec.write header) payload
      ∙ ap (λ (n : ℕ). n + length payload)
          (header_codec.length_write header (header_of-Fits t (length payload) h)) in
    let same = type_of_code-code t in
    let range = type_code-lt t in ground (arith, size, same, range, q, e)

-- An announcement, a response or a goodbye that is serialized is parsed back from its packet, if
-- the fields of the device are in the range of their types.
pub discovery_parse-serialize :
    (t : MessageType) (info : DeviceInfo) (p : List ℕ)
    → DeviceFits info
    → is_query t ≡ false
    → serialize_discovery_message (record { type_ = t; device = some info }) ≡ ok p
    → deserialize_discovery_message p ≡ some (parsed (record { type_ = t; device = some info }))
discovery_parse-serialize t info p f q e =
    let m : DiscoveryMessage = record { type_ = t; device = some info } in
    let (d, small, same) = serialize_device t info p e in
    ap deserialize_discovery_message same
    ∙ parse_header t (device_bytes info) (parsed m) small
        (check_header-device t (device_bytes info) m q small (parse_device-bytes t info d f))

device_bytes_nonempty : (info : DeviceInfo) → 2 ≤ length (device_bytes info)
unfolding device_bytes big_endian
device_bytes_nonempty info = omega (
  arith,
  length-append info.id.bytes
      (counted info.name info.name ++ (counted info.address info.address ++ numbers_bytes info)),
)

check_header-query :
    (payload : List ℕ)
    → 2 ≤ length payload
    → length payload ≤ 1_012
    → check_header
        (header_codec.write (header_of query (length payload)) ++ payload)
        (header_of query (length payload))
        payload
      ≡ some (failure invalid_length)
unfolding check_header
check_header-query payload lo h =
    let header = header_of query (length payload) in
    let size : length (header_codec.write header ++ payload) ≡ 12 + length payload =
      length-append (header_codec.write header) payload
      ∙ ap (λ (n : ℕ). n + length payload)
          (header_codec.length_write header (header_of-Fits query (length payload) h)) in
    let same = type_of_code-code query in
    let range = type_code-lt query in ground (arith, size, same, range)

-- When the serializer takes a query that carries a device, the parser refuses its packet.
query_with_device_refused :
    (info : DeviceInfo) (p : List ℕ)
    → serialize_discovery_message (record { type_ = query; device = some info }) ≡ ok p
    → deserialize_discovery_message p ≡ some (failure invalid_length)
query_with_device_refused info p e =
    let (d, small, same) = serialize_device query info p e in
    ap deserialize_discovery_message same
    ∙ parse_header query (device_bytes info) (failure invalid_length) small
        (check_header-query (device_bytes info) (device_bytes_nonempty info) small)
