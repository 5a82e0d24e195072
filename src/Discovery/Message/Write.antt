-- ===== src/Discovery/Message/Write.antt =====
-- What `serialize_discovery_message` writes, and for which messages.
use mathlib.Core.List.{append-nil, append_assoc}
use distributed_audio_system.Bytes.{append_u16, append_u32, append_u8}
use distributed_audio_system.Bytes.Codec.{done, then_field, u16_codec, u32_codec, u8_codec}
use distributed_audio_system.Bytes.Laws.{append_u16-big_endian, append_u32-big_endian, big_endian}
use distributed_audio_system.Discovery.Device.{DeviceInfo}
use distributed_audio_system.Discovery.Message.{
  Header, MessageType, append_all, append_device, append_numbers, append_string,
  discovery_header_size, discovery_magic, discovery_max_address_length, discovery_max_capabilities,
  discovery_max_name_length, discovery_max_packet_size, discovery_version, finish_packet,
  is_described, query, serialize_discovery_message, type_code,
}
use distributed_audio_system.Discovery.Message.Layout.{header_codec, ports_codec}
use distributed_audio_system.Discovery.Message.Shape.{
  counted, device_bytes, numbers_bytes, values_bytes,
}
use distributed_audio_system.Identity.{device_valid}
use distributed_audio_system.Prelude.{
  List, [], ap, arith, false, length, ltb, none, ok, some, sym, true, ℕ, ◌%◌, ◌++◌, ◌-◌, ◌<◌, ◌^◌,
  ◌∙◌, ◌∷◌, ◌≡◌, ◌≤◌,
}

-- What the test of the device lets through.
pub record Described (info : DeviceInfo) : Type 0 where
  pub id_valid : device_valid info.id ≡ true
  pub named : 0 < length info.name
  pub name_bounded : length info.name ≤ discovery_max_name_length
  pub address_bounded : length info.address ≤ discovery_max_address_length
  pub some_rate : 0 < length info.sample_rates
  pub rates_bounded : length info.sample_rates ≤ discovery_max_capabilities
  pub some_channel : 0 < length info.channel_counts
  pub channels_bounded : length info.channel_counts ≤ discovery_max_capabilities
  pub some_bits : 0 < length info.bits_per_sample
  pub bits_bounded : length info.bits_per_sample ≤ discovery_max_capabilities

is_described-Described : (info : DeviceInfo) → is_described info ≡ true → Described info
unfolding is_described
is_described-Described info h = record {
  id_valid = ground arith;
  named = ground arith;
  name_bounded = ground arith;
  address_bounded = ground arith;
  some_rate = ground arith;
  rates_bounded = ground arith;
  some_channel = ground arith;
  channels_bounded = ground arith;
  some_bits = ground arith;
  bits_bounded = ground arith;
}

append_all-values :
    (append : List ℕ → ℕ → List ℕ) (k : ℕ) (out vs : List ℕ)
    → ((out : List ℕ) (v : ℕ) → append out v ≡ out ++ big_endian k v)
    → append_all append out vs ≡ out ++ values_bytes k vs
unfolding append_all values_bytes
append_all-values append k out [] h = sym (append-nil out)
append_all-values append k out (v ∷ vs) h =
    append_all-values append k (append out v) vs h
    ∙ ap (λ o. o ++ values_bytes k vs) (h out v)
    ∙ append_assoc out (big_endian k v) (values_bytes k vs)

small_size : (vs : List ℕ) → length vs ≤ discovery_max_capabilities → length vs % 2 ^ 16 ≡ length vs
small_size vs h = omega arith

append_numbers_lem :
    (payload : List ℕ) (info : DeviceInfo)
    → Described info
    → append_numbers payload info ≡ payload ++ numbers_bytes info
unfolding append_numbers ports_codec u16_codec done then_field
append_numbers_lem payload info d =
    let rates : (out : List ℕ)
        → append_all append_u32 out info.sample_rates ≡ out ++ values_bytes 4 info.sample_rates =
      λ out. append_all-values append_u32 4 out info.sample_rates append_u32-big_endian in
    let channels : (out : List ℕ)
        → append_all append_u16 out info.channel_counts
          ≡ out ++ values_bytes 2 info.channel_counts =
      λ out. append_all-values append_u16 2 out info.channel_counts append_u16-big_endian in
    let bits : (out : List ℕ)
        → append_all append_u16 out info.bits_per_sample
          ≡ out ++ values_bytes 2 info.bits_per_sample =
      λ out. append_all-values append_u16 2 out info.bits_per_sample append_u16-big_endian in
    simp (
      rates,
      channels,
      bits,
      small_size info.sample_rates d.rates_bounded,
      small_size info.channel_counts d.channels_bounded,
      small_size info.bits_per_sample d.bits_bounded,
      append_u16-big_endian,
      append_assoc,
      append-nil,
    )

append_string_lem :
    (out s : List ℕ) (limit : ℕ)
    → length s ≤ limit
    → limit ≤ 1_000
    → append_string out s limit ≡ ok (out ++ counted s s)
unfolding append_string
append_string_lem out s limit h small =
    let size : length s % 2 ^ 16 ≡ length s = omega arith in
    let written : append_u16 out (length s) ++ s ≡ out ++ counted s s =
      ap (λ o. o ++ s) (append_u16-big_endian out (length s))
      ∙ append_assoc out (big_endian 2 (length s)) s in
    ground (arith, size, written)

append_device_lem :
    (info : DeviceInfo) → Described info → append_device [] info ≡ ok (device_bytes info)
unfolding append_device device_bytes
append_device_lem info d =
    let name =
      append_string_lem info.id.bytes info.name discovery_max_name_length d.name_bounded
        (omega arith) in
    let address =
      append_string_lem (info.id.bytes ++ counted info.name info.name) info.address
        discovery_max_address_length d.address_bounded (omega arith) in
    let numbers =
      append_numbers_lem
        ((info.id.bytes ++ counted info.name info.name) ++ counted info.address info.address) info
        d in
    let same =
      append_assoc (info.id.bytes ++ counted info.name info.name)
        (counted info.address info.address) (numbers_bytes info)
      ∙ append_assoc info.id.bytes (counted info.name info.name)
          (counted info.address info.address ++ numbers_bytes info) in
    let written = numbers ∙ same in ground (arith, name, address, written)

-- The header of a payload.
abbrev pub header_of : MessageType → ℕ → Header
header_of t size = record {
  magic = discovery_magic;
  version = discovery_version;
  raw_type = type_code t;
  reserved = 0;
  payload_length = size;
}

finish_packet_written :
    (t : MessageType) (payload : List ℕ)
    → length payload ≤ 1_012
    → finish_packet t payload ≡ ok (header_codec.write (header_of t (length payload)) ++ payload)
unfolding finish_packet append_u8 header_codec u8_codec u16_codec u32_codec done then_field
finish_packet_written t payload h =
    let small : length payload % 2 ^ 32 ≡ length payload = omega arith in
    let fits : ltb (discovery_max_packet_size - discovery_header_size) (length payload) ≡ false =
      ground arith in
    rw fits
      (rw small (simp (append_u16-big_endian, append_u32-big_endian, append_assoc, append-nil)))

finish_packet_lem :
    (t : MessageType) (payload p : List ℕ)
    → finish_packet t payload ≡ ok p
    → (length payload ≤ 1_012) × (p ≡ header_codec.write (header_of t (length payload)) ++ payload)
unfolding finish_packet
finish_packet_lem t payload p e =
    let small : length payload ≤ 1_012 = ground arith in
    let both = sym e ∙ finish_packet_written t payload small in (small, ground (arith, both))

-- A message that is serialized, with a device exactly when it is no query.
pub serialize_device :
    (t : MessageType) (info : DeviceInfo) (p : List ℕ)
    → serialize_discovery_message (record { type_ = t; device = some info }) ≡ ok p
    → Described info
      × (length (device_bytes info) ≤ 1_012)
      × (p ≡ header_codec.write (header_of t (length (device_bytes info))) ++ device_bytes info)
unfolding serialize_discovery_message
serialize_device t info p e =
    let d : Described info = is_described-Described info (ground arith) in
    let (small, same) =
      finish_packet_lem t (device_bytes info) p (ground (arith, append_device_lem info d)) in
    (d, small, same)

pub serialize_query :
    (p : List ℕ)
    → serialize_discovery_message (record { type_ = query; device = none }) ≡ ok p
    → p ≡ header_codec.write (header_of query 0) ++ []
unfolding serialize_discovery_message
serialize_query p e = (finish_packet_lem query [] p (ground arith)).1
