-- ===== src/Discovery/Service/Exchange.antt =====
-- A query and its answer, between two services.
use distributed_audio_system.Bytes.{
  append_bytes, append_u16, append_u32, append_u8, read_bytes, read_u16, read_u32, read_u8,
}
use distributed_audio_system.Discovery.Device.{DeviceInfo}
use distributed_audio_system.Discovery.Message.{
  DiscoveryMessage, discovery_max_packet_size, finish_packet, query, read_header, response,
  serialize_discovery_message, type_code, type_of_code,
}
use distributed_audio_system.Discovery.Message.Read.{
  check_header, deserialize_discovery_message, parsed,
}
use distributed_audio_system.Discovery.Message.RoundTrip.{discovery_parse-serialize}
use distributed_audio_system.Discovery.Message.Shape.{DeviceFits}
use distributed_audio_system.Discovery.Message.Write.{serialize_device}
use distributed_audio_system.Discovery.Registry.{
  DeviceRegistry, expire, is_stale, lookup, observe, seen,
}
use distributed_audio_system.Discovery.Registry.Invariant.{observe-RegistryInv}
use distributed_audio_system.Discovery.Registry.Laws.{RegistryInv, expire-lookup, observe-lookup}
use distributed_audio_system.Discovery.Service.{
  DiscoveryService, answer, poll, poll_loop, send, take_notice,
}
use distributed_audio_system.Identity.{device_eq, device_eq_iff, device_valid}
use distributed_audio_system.Prelude.{
  Bool, List, Option, [], ap, arith, false, none, ok, refl, some, subst, sym, take, take_long, true,
  ℕ, ◌∙◌, ◌∷◌, ◌≡◌,
}
use distributed_audio_system.Prelude.Int.{ltb_ℤ, pos, sub_self, ℤ}

query_parses :
    (q : List ℕ)
    → serialize_discovery_message (record { type_ = query; device = none }) ≡ ok q
    → deserialize_discovery_message (take discovery_max_packet_size q)
      ≡ some (parsed (record { type_ = query; device = none }))
unfolding serialize_discovery_message finish_packet deserialize_discovery_message read_header
    check_header append_u8 append_u16 append_u32 append_bytes read_u8 read_u16 read_u32 read_bytes
    type_code type_of_code
query_parses q e =
    let written : q ≡ 68 ∷ 73 ∷ 83 ∷ 49 ∷ 1 ∷ 2 ∷ 0 ∷ 0 ∷ 0 ∷ 0 ∷ 0 ∷ 0 ∷ [] = ground (arith, e) in
    subst
      (λ (x : List ℕ).
        deserialize_discovery_message (take discovery_max_packet_size x)
        ≡ some (parsed (record { type_ = query; device = none })))
      (sym written) refl

-- A packet that is parsed fits the buffer.
take-parsed :
    (packet : List ℕ) (message : DiscoveryMessage)
    → deserialize_discovery_message packet ≡ some (parsed message)
    → take discovery_max_packet_size packet ≡ packet
unfolding deserialize_discovery_message
take-parsed packet message e = take_long discovery_max_packet_size packet (ground (arith, e))

observe_same_timeout :
    (r : DeviceRegistry) (info : DeviceInfo) (now : ℤ)
    → (observe r info now).0.stale_timeout ≡ r.stale_timeout
unfolding observe
observe_same_timeout r info now = ground arith

-- A device that was just heard of is known.
observe-expire :
    (r : DeviceRegistry) (info : DeviceInfo) (now : ℤ)
    → RegistryInv r
    → device_valid info.id ≡ true
    → ltb_ℤ (pos 0) r.stale_timeout ≡ true
    → lookup (expire (observe r info now).0 now).0 info.id ≡ some (seen info now)
observe-expire r info now v valid positive =
    let kept =
      (expire-lookup (observe r info now).0 now info.id (observe-RegistryInv r info now v)).0 in
    let self : device_eq info.id info.id ≡ true = (device_eq_iff info.id info.id).1 refl in
    let learnt : lookup (observe r info now).0 info.id ≡ some (seen info now) =
      (observe-lookup r info now info.id).0 ∙ rw (valid, self) refl in
    let fresh : is_stale r.stale_timeout now (seen info now) ≡ false =
      rw (sub_self now) (rw positive refl) in
    kept ∙ rw (learnt, observe_same_timeout r info now, fresh) refl

-- A running service whose sender's address resolves answers a query with its response, and when
-- the asking service, which runs too, polls that response, what it knows of the device is what the
-- device says of itself. The device information is in the range of its types, its response can be
-- serialized, and the registry of the asking service is well formed, with a positive timeout.
pub query-response :
    {A : Type 0} (resolves : A → Bool) (sent : A → List ℕ → Option ℕ) (asking answering : A)
    (a b : DiscoveryService) (now later : ℤ) (q p : List ℕ)
    → serialize_discovery_message (record { type_ = query; device = none }) ≡ ok q
    → serialize_discovery_message (record { type_ = response; device = some b.local_info }) ≡ ok p
    → DeviceFits b.local_info
    → a.stopped ≡ false
    → b.stopped ≡ false
    → resolves asking ≡ true
    → RegistryInv a.registry
    → ltb_ℤ (pos 0) a.registry.stale_timeout ≡ true
    → (poll resolves sent b now ((asking, q) ∷ [])
        ≡ some (ok (record b { registry = (expire b.registry now).0 }, 1, (asking, p) ∷ [])))
      × (known : DiscoveryService) × (poll resolves sent a later ((answering, p) ∷ [])
          ≡ some (ok (known, 1, [])))
      × (lookup known.registry b.local_info.id ≡ some (seen b.local_info later))
unfolding poll poll_loop answer send take_notice
query-response resolves sent asking answering a b now later q p eq ep fits ua ub there v positive =
    let asks = query_parses q eq in
    let back = discovery_parse-serialize response b.local_info p fits refl ep in
    let tells : deserialize_discovery_message (take discovery_max_packet_size p)
        ≡ some (parsed (record { type_ = response; device = some b.local_info })) =
      ap deserialize_discovery_message (take-parsed p _ back) ∙ back in
    let valid = (serialize_device response b.local_info p ep).0.id_valid in
    (
      ground (arith, asks, ep, ub, there),
      record a { registry = (expire (observe a.registry b.local_info later).0 later).0 },
      ground (arith, tells, ua),
      observe-expire a.registry b.local_info later v valid positive,
    )
