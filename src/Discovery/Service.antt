-- ===== src/Discovery/Service.antt =====
-- src/device_discovery.cpp: DiscoveryService, which answers queries and keeps the registry. The socket is
-- a parameter: an address is whatever recvfrom gives, and the arguments say whether inet_pton takes it and
-- what sendto answers.
pub mod Polls
pub mod Exchange
use distributed_audio_system.Discovery.Device.{DeviceInfo}
use distributed_audio_system.Discovery.Message.{
  DiscoveryMessage, DiscoverySerializeError, MessageType, discovery_max_packet_size, is_goodbye,
  is_query, response, serialize_discovery_message,
}
use distributed_audio_system.Discovery.Message.Read.{deserialize_discovery_message}
use distributed_audio_system.Discovery.Registry.{DeviceRegistry, expire, observe, remove}
use distributed_audio_system.Identity.{device_valid}
use distributed_audio_system.Prelude.{
  Bool, List, Option, Result, [], err, false, if◌then◌else◌, length, none, not, ok, some, take,
  true, ℕ, ◌++◌, ◌+◌, ◌==◌, ◌||◌, ◌∷◌,
}
use distributed_audio_system.Prelude.Int.{ℤ}

pub record DiscoveryService : Type 0 where
  pub local_info : DeviceInfo
  pub port : ℕ
  pub registry : DeviceRegistry
  pub stopped : Bool

-- The answer is that of the call and the packet that is handed to sendto, if one is.
unfoldable pub send :
    {A : Type 0}
    → (A → Bool)
    → (A → List ℕ → Option ℕ)
    → DiscoveryService
    → MessageType
    → A
    → Result DiscoverySerializeError (Bool × Option (List ℕ))
send resolves sent service t address =
    if service.stopped
    then ok (false, none)
    else elim (serialize_discovery_message
        (record { type_ = t; device = if is_query t then none else some service.local_info })) [
          | err e ↦ err e
          | ok packet ↦
              if not (resolves address)
              then ok (false, none)
              else ok (
                elim (sent address packet) [ none ↦ false | some n ↦ n == length packet ],
                some packet,
              )
        ]

-- The registry after a message that is not a query.
unfoldable pub take_notice : DeviceRegistry → DiscoveryMessage → ℤ → DeviceRegistry
take_notice registry message now = elim message.device [
  | none ↦ registry
  | some info ↦
      if is_goodbye message.type_
      then (remove registry info.id).0
      else (observe registry info now).0
]

-- The packets that a message is answered by, with the address of each.
unfoldable pub answer :
    {A : Type 0}
    → (A → Bool)
    → (A → List ℕ → Option ℕ)
    → DiscoveryService
    → DiscoveryMessage
    → A
    → Result DiscoverySerializeError (List (A × List ℕ))
answer resolves sent service message sender =
    if not (is_query message.type_)
    then ok []
    else elim (send resolves sent service response sender) [
      | err e ↦ err e
      | ok (responded, packet) ↦ ok (elim packet [ none ↦ [] | some p ↦ (sender, p) ∷ [] ])
    ]

abbrev pub noted : DiscoveryService → DiscoveryMessage → ℤ → DiscoveryService
noted service message now =
    if is_query message.type_
    then service
    else record service { registry = take_notice service.registry message now }

-- The loop of `poll` over the datagrams that are there, which recvfrom cuts to the size of the buffer. The
-- answer has the number of messages and the packets sent. The outer `none` is a read out of bounds.
unfoldable pub poll_loop :
    {A : Type 0}
    → (A → Bool)
    → (A → List ℕ → Option ℕ)
    → DiscoveryService
    → ℤ
    → List (A × List ℕ)
    → Option (Result DiscoverySerializeError (DiscoveryService × ℕ × List (A × List ℕ)))
poll_loop resolves sent service now [] = some (ok (service, 0, []))
poll_loop resolves sent service now ((sender, datagram) ∷ datagrams) =
    let skipped = poll_loop resolves sent service now datagrams in
    elim (deserialize_discovery_message (take discovery_max_packet_size datagram)) [
      | none ↦ none
      | some parsed ↦ elim parsed.message [
        | none ↦ skipped
        | some message ↦ elim (answer resolves sent service message sender) [
          | err e ↦ some (err e)
          | ok replies ↦ elim (poll_loop resolves sent (noted service message now) now datagrams) [
            | none ↦ none
            | some (err e) ↦ some (err e)
            | some (ok (last, processed, later)) ↦ some (ok (last, 1 + processed, replies ++ later))
          ]
        ]
      ]
    ]

unfoldable pub poll :
    {A : Type 0}
    → (A → Bool)
    → (A → List ℕ → Option ℕ)
    → DiscoveryService
    → ℤ
    → List (A × List ℕ)
    → Option (Result DiscoverySerializeError (DiscoveryService × ℕ × List (A × List ℕ)))
poll resolves sent service now datagrams =
    if service.stopped
    then some (ok (service, 0, []))
    else elim (poll_loop resolves sent service now datagrams) [
      | none ↦ none
      | some (err e) ↦ some (err e)
      | some (ok (last, processed, replies)) ↦
          some (ok (record last { registry = (expire last.registry now).0 }, processed, replies))
    ]

-- `none` is the exception.
unfoldable pub update_local_info : DiscoveryService → DeviceInfo → Option DiscoveryService
update_local_info service info =
    if not (device_valid info.id) || length info.name == 0
    then none
    else some (record service { local_info = record info { discovery_port = service.port } })

unfoldable pub shutdown : DiscoveryService → DiscoveryService
shutdown service = record service { stopped = true }
