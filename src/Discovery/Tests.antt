-- ===== src/Discovery/Tests.antt =====
-- A device, its packets, and a registry that knows it, on which the theorems are used.
use distributed_audio_system.Bytes.{append_bytes, append_u16, append_u32, append_u8}
use distributed_audio_system.Bytes.Laws.{all_bytes-IsByte}
use distributed_audio_system.Discovery.Device.{DeviceInfo}
use distributed_audio_system.Discovery.Message.{
  announce, append_all, append_device, append_numbers, append_string, finish_packet, is_described,
  query, response, serialize_discovery_message, type_code,
}
use distributed_audio_system.Discovery.Message.Read.{deserialize_discovery_message, parsed}
use distributed_audio_system.Discovery.Message.RoundTrip.{discovery_parse-serialize}
use distributed_audio_system.Discovery.Message.Shape.{DeviceFits}
use distributed_audio_system.Discovery.Registry.{DeviceRegistry, expire, lookup, seen}
use distributed_audio_system.Discovery.Registry.Laws.{RegistryInv}
use distributed_audio_system.Discovery.Service.{DiscoveryService, poll}
use distributed_audio_system.Discovery.Service.Exchange.{query-response}
use distributed_audio_system.Discovery.Service.Polls.{Answers, poll-Answers}
use distributed_audio_system.Identity.{DeviceId, any_nonzero, device_valid}
use distributed_audio_system.Prelude.{
  Bool, List, Option, [], arith, false, length, none, ok, refl, some, true, ℕ, ◌∷◌, ◌≡◌,
}
use distributed_audio_system.Prelude.Int.{pos}
use distributed_audio_system.Prelude.Map.{find}

abbrev sample_id : DeviceId
sample_id = record { bytes = 218 ∷ 0 ∷ 0 ∷ 0 ∷ 0 ∷ 0 ∷ 0 ∷ 0 ∷ 0 ∷ 0 ∷ 0 ∷ 0 ∷ 0 ∷ 0 ∷ 0 ∷ 1 ∷ [] }

abbrev sample_device : DeviceInfo
sample_device = record {
  id = sample_id;
  name = 109 ∷ 105 ∷ 99 ∷ [];
  protocol_version = 1;
  address = 58 ∷ 58 ∷ 49 ∷ [];
  sample_rates = 48_000 ∷ [];
  channel_counts = 2 ∷ [];
  bits_per_sample = 16 ∷ [];
  audio_port = 5_000;
  discovery_port = 5_002;
}

abbrev announce_packet : List ℕ
announce_packet =
    68 ∷ 73 ∷ 83 ∷ 49 ∷ 1 ∷ 1 ∷ 0 ∷ 0 ∷ 0 ∷ 0 ∷ 0 ∷ 46 ∷ 218 ∷ 0 ∷ 0 ∷ 0 ∷ 0 ∷ 0 ∷ 0 ∷ 0 ∷ 0 ∷ 0 ∷ 0
    ∷ 0 ∷ 0 ∷ 0 ∷ 0 ∷ 1 ∷ 0 ∷ 3 ∷ 109 ∷ 105 ∷ 99 ∷ 0 ∷ 3 ∷ 58 ∷ 58 ∷ 49 ∷ 0 ∷ 1 ∷ 19 ∷ 136 ∷ 19
    ∷ 138 ∷ 0 ∷ 1 ∷ 0 ∷ 0 ∷ 187 ∷ 128 ∷ 0 ∷ 1 ∷ 0 ∷ 2 ∷ 0 ∷ 1 ∷ 0 ∷ 16 ∷ []

abbrev query_packet : List ℕ
query_packet =
    68 ∷ 73 ∷ 83 ∷ 49 ∷ 1 ∷ 2 ∷ 0 ∷ 0 ∷ 0 ∷ 0 ∷ 0 ∷ 46 ∷ 218 ∷ 0 ∷ 0 ∷ 0 ∷ 0 ∷ 0 ∷ 0 ∷ 0 ∷ 0 ∷ 0 ∷ 0
    ∷ 0 ∷ 0 ∷ 0 ∷ 0 ∷ 1 ∷ 0 ∷ 3 ∷ 109 ∷ 105 ∷ 99 ∷ 0 ∷ 3 ∷ 58 ∷ 58 ∷ 49 ∷ 0 ∷ 1 ∷ 19 ∷ 136 ∷ 19
    ∷ 138 ∷ 0 ∷ 1 ∷ 0 ∷ 0 ∷ 187 ∷ 128 ∷ 0 ∷ 1 ∷ 0 ∷ 2 ∷ 0 ∷ 1 ∷ 0 ∷ 16 ∷ []

sample_device-DeviceFits : DeviceFits sample_device
sample_device-DeviceFits = record {
  id_fits = (refl, all_bytes-IsByte sample_id.bytes refl);
  version_fits = omega arith;
  audio_fits = omega arith;
  discovery_fits = omega arith;
  rates_fit = (omega arith, tt);
  channels_fit = (omega arith, tt);
  bits_fit = (omega arith, tt);
}

serialize_announce :
    serialize_discovery_message (record { type_ = announce; device = some sample_device })
    ≡ ok announce_packet
unfolding serialize_discovery_message is_described device_valid any_nonzero append_device
    append_string append_numbers append_all finish_packet append_u8 append_u16 append_u32
    append_bytes type_code
serialize_announce = refl

serialize_query_with_device :
    serialize_discovery_message (record { type_ = query; device = some sample_device })
    ≡ ok query_packet
unfolding serialize_discovery_message is_described device_valid any_nonzero append_device
    append_string append_numbers append_all finish_packet append_u8 append_u16 append_u32
    append_bytes type_code
serialize_query_with_device = refl

discovery_parse-serialize_example :
    deserialize_discovery_message announce_packet
    ≡ some (parsed (record { type_ = announce; device = some sample_device }))
discovery_parse-serialize_example =
    discovery_parse-serialize announce sample_device announce_packet sample_device-DeviceFits refl
      serialize_announce

abbrev sample_registry : DeviceRegistry
sample_registry = record {
  stale_timeout = pos 10;
  entries = (sample_id, seen sample_device (pos 0)) ∷ [];
}

sample_registry-RegistryInv : RegistryInv sample_registry
unfolding device_valid any_nonzero find
sample_registry-RegistryInv = record { distinct = (refl, tt); filed = ((refl, refl), tt) }

abbrev sample_service : DiscoveryService
sample_service = record {
  local_info = sample_device;
  port = 5_002;
  registry = sample_registry;
  stopped = false;
}

abbrev response_packet : List ℕ
response_packet =
    68 ∷ 73 ∷ 83 ∷ 49 ∷ 1 ∷ 3 ∷ 0 ∷ 0 ∷ 0 ∷ 0 ∷ 0 ∷ 46 ∷ 218 ∷ 0 ∷ 0 ∷ 0 ∷ 0 ∷ 0 ∷ 0 ∷ 0 ∷ 0 ∷ 0 ∷ 0
    ∷ 0 ∷ 0 ∷ 0 ∷ 0 ∷ 1 ∷ 0 ∷ 3 ∷ 109 ∷ 105 ∷ 99 ∷ 0 ∷ 3 ∷ 58 ∷ 58 ∷ 49 ∷ 0 ∷ 1 ∷ 19 ∷ 136 ∷ 19
    ∷ 138 ∷ 0 ∷ 1 ∷ 0 ∷ 0 ∷ 187 ∷ 128 ∷ 0 ∷ 1 ∷ 0 ∷ 2 ∷ 0 ∷ 1 ∷ 0 ∷ 16 ∷ []

serialize_response :
    serialize_discovery_message (record { type_ = response; device = some sample_device })
    ≡ ok response_packet
unfolding serialize_discovery_message is_described device_valid any_nonzero append_device
    append_string append_numbers append_all finish_packet append_u8 append_u16 append_u32
    append_bytes type_code
serialize_response = refl

abbrev bare_query : List ℕ
bare_query = 68 ∷ 73 ∷ 83 ∷ 49 ∷ 1 ∷ 2 ∷ 0 ∷ 0 ∷ 0 ∷ 0 ∷ 0 ∷ 0 ∷ []

serialize_bare_query :
    serialize_discovery_message (record { type_ = query; device = none }) ≡ ok bare_query
unfolding serialize_discovery_message finish_packet append_u8 append_u16 append_u32 append_bytes
    type_code
serialize_bare_query = refl

-- Every address resolves, and sendto takes the whole packet.
abbrev resolves_all : ℕ → Bool
resolves_all address = true

abbrev sends_all : ℕ → List ℕ → Option ℕ
sends_all address packet = some (length packet)

poll-Answers_example :
    (last : DiscoveryService) × (n : ℕ) × (replies : List (ℕ × List ℕ)) × (poll resolves_all
        sends_all sample_service
        (pos 5)
        ((9, bare_query) ∷ (8, 1 ∷ []) ∷ [])
      ≡ some (ok (last, n, replies)))
    × Answers sample_service last response_packet n 2 replies
poll-Answers_example =
    poll-Answers resolves_all sends_all (pos 5) response_packet sample_service
      ((9, bare_query) ∷ (8, 1 ∷ []) ∷ []) refl sample_registry-RegistryInv serialize_response

query-response_example :
    (poll resolves_all sends_all sample_service (pos 5) ((9, bare_query) ∷ [])
      ≡ some (
          ok (
            record sample_service { registry = (expire sample_registry (pos 5)).0 },
            1,
            (9, response_packet) ∷ [],
          )))
    × (known : DiscoveryService) × (poll resolves_all sends_all sample_service
          (pos 6)
          ((8, response_packet) ∷ [])
        ≡ some (ok (known, 1, [])))
    × (lookup known.registry sample_id ≡ some (seen sample_device (pos 6)))
query-response_example =
    query-response resolves_all sends_all 9 8 sample_service sample_service (pos 5) (pos 6)
      bare_query response_packet serialize_bare_query serialize_response sample_device-DeviceFits
      refl refl refl sample_registry-RegistryInv refl
