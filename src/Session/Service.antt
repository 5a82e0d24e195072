-- ===== src/Session/Service.antt =====
-- src/audio_session.cpp: SessionControlService, which passes the messages that arrive to its manager and
-- sends the answers. The socket is a parameter: an address is whatever recvfrom gives, and the arguments
-- say whether inet_pton takes it and what sendto answers.
pub mod Polls
use distributed_audio_system.Prelude.{
  Bool, List, Option, Result, [], err, false, if◌then◌else◌, length, none, not, ok, some, take,
  true, ℕ, ◌++◌, ◌+◌, ◌==◌, ◌∷◌,
}
use distributed_audio_system.Prelude.Int.{ℤ}
use distributed_audio_system.Session.Manager.{AudioSessionManager, handle}
use distributed_audio_system.Session.Manager.Expiry.{expire}
use distributed_audio_system.Session.Message.{
  SessionControlMessage, SessionSerializeError, deserialize_session_message,
  serialize_session_message, session_max_packet_size,
}

pub record SessionControlService : Type 0 where
  pub manager : AudioSessionManager
  pub stopped : Bool

-- The answer is that of the call and the packet that is handed to sendto, if one is.
unfoldable pub send :
    {A : Type 0}
    → (A → Bool)
    → (A → List ℕ → Option ℕ)
    → SessionControlService
    → SessionControlMessage
    → A
    → Result SessionSerializeError (Bool × Option (List ℕ))
send resolves sent service message address =
    if service.stopped then ok (false, none) else elim (serialize_session_message message) [
      | err e ↦ err e
      | ok packet ↦
          if not (resolves address)
          then ok (false, none)
          else ok (
            elim (sent address packet) [ none ↦ false | some n ↦ n == length packet ],
            some packet,
          )
    ]

-- The packets that the answer of the manager makes, with the address of each.
unfoldable pub respond :
    {A : Type 0}
    → (A → Bool)
    → (A → List ℕ → Option ℕ)
    → SessionControlService
    → Option SessionControlMessage
    → A
    → Result SessionSerializeError (List (A × List ℕ))
respond resolves sent service response sender = elim response [
  | none ↦ ok []
  | some message ↦ elim (send resolves sent service message sender) [
    | err e ↦ err e
    | ok (was_sent, packet) ↦ ok (elim packet [ none ↦ [] | some p ↦ (sender, p) ∷ [] ])
  ]
]

-- The loop of `poll` over the datagrams that are there, which recvfrom cuts to the size of the buffer. The
-- answer has the number of messages and the packets sent. The outer `none` is a read out of bounds.
unfoldable pub poll_loop :
    {A : Type 0}
    → (A → Bool)
    → (A → List ℕ → Option ℕ)
    → SessionControlService
    → ℤ
    → List (A × List ℕ)
    → Option (Result SessionSerializeError (SessionControlService × ℕ × List (A × List ℕ)))
poll_loop resolves sent service now [] = some (ok (service, 0, []))
poll_loop resolves sent service now ((sender, datagram) ∷ datagrams) =
    let skipped = poll_loop resolves sent service now datagrams in
    elim (deserialize_session_message (take session_max_packet_size datagram)) [
      | none ↦ none
      | some parsed ↦ elim parsed.message [
        | none ↦ skipped
        | some message ↦
            let (manager, response) = handle service.manager message now in
            elim (respond resolves sent service response sender) [
              | err e ↦ some (err e)
              | ok replies ↦
                  elim (poll_loop resolves sent (record service { manager = manager }) now
                    datagrams) [
                      | none ↦ none
                      | some (err e) ↦ some (err e)
                      | some (ok (last, processed, later)) ↦
                          some (ok (last, 1 + processed, replies ++ later))
                    ]
            ]
      ]
    ]

unfoldable pub poll :
    {A : Type 0}
    → (A → Bool)
    → (A → List ℕ → Option ℕ)
    → SessionControlService
    → ℤ
    → List (A × List ℕ)
    → Option (Result SessionSerializeError (SessionControlService × ℕ × List (A × List ℕ)))
poll resolves sent service now datagrams =
    if service.stopped
    then some (ok (service, 0, []))
    else elim (poll_loop resolves sent service now datagrams) [
      | none ↦ none
      | some (err e) ↦ some (err e)
      | some (ok (last, processed, replies)) ↦
          some (ok (record last { manager = (expire last.manager now).0 }, processed, replies))
    ]

unfoldable pub shutdown : SessionControlService → SessionControlService
shutdown service = record service { stopped = true }
