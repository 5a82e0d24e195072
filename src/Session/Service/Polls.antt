-- ===== src/Session/Service/Polls.antt =====
-- What a call of `poll` of SessionControlService (src/audio_session.cpp) comes to.
use distributed_audio_system.Bytes.{IsByte}
use distributed_audio_system.Identity.{SessionId}
use distributed_audio_system.Prelude.{
  All, All-take, Bool, Bool-cases, List, OfOption, Option, Option-cases, [], ap, arith, false, inl,
  inr, length, length-append, none, ok, refl, some, take, ℕ, ◌++◌, ◌+◌, ◌∙◌, ◌∷◌, ◌≡◌, ◌≤◌,
}
use distributed_audio_system.Prelude.Int.{ℤ}
use distributed_audio_system.Prelude.Map.{Map}
use distributed_audio_system.Session.Manager.{AudioSessionManager, SessionInfo, handle}
use distributed_audio_system.Session.Manager.Expiry.{expire, expire_session, update_all}
use distributed_audio_system.Session.Manager.Lifecycle.{
  Continues, Continues-refl, Continues-trans, if-Continues, touch, transition-Continues,
}
use distributed_audio_system.Session.Manager.Replies.{
  Continues-Sound, ManagerInv, SoundEntry, Writable, handle-Inv,
}
use distributed_audio_system.Session.Message.{
  Body, Header, SessionControlMessage, SessionParseResult, check_body, check_header,
  deserialize_session_message, parse_config, read_body, read_header, session_max_packet_size,
  timeout,
}
use distributed_audio_system.Session.Message.Accept.{accepted}
use distributed_audio_system.Session.Message.Parse.{parsed}
use distributed_audio_system.Session.Message.Serialize.{MessageValid-serialize}
use distributed_audio_system.Session.Message.Shape.{packet_of}
use distributed_audio_system.Session.Message.Totality.{session_parse_total}
use distributed_audio_system.Session.Service.{SessionControlService, poll, poll_loop, respond, send}
use distributed_audio_system.Session.State.{failed}

All-update_all :
    (f : SessionInfo → SessionInfo) (sessions : Map SessionId SessionInfo)
    → ((i : SessionInfo) → Continues i (f i))
    → All SoundEntry sessions
    → All SoundEntry (update_all f sessions)
unfolding update_all
All-update_all f [] c a = tt
All-update_all f ((k, i) ∷ sessions) c a =
    (Continues-Sound k i (f i) (c i) a.0, All-update_all f sessions c a.1)

expire-ManagerInv : (m : AudioSessionManager) (now : ℤ) → ManagerInv m → ManagerInv (expire m now).0
unfolding expire
expire-ManagerInv m now v = record {
  local_valid = v.local_valid;
  local_fits = v.local_fits;
  sound =
      All-update_all (expire_session m.negotiation_timeout now) m.sessions
        (λ (i : SessionInfo).
          if-Continues _ i _ i
            (Continues-trans (touch i i.last_activity timeout) (transition-Continues _ failed))
            (Continues-refl i))
        v.sound;
}

abbrev pub OfBytes : {A : Type 0} → A × List ℕ → Type 0
OfBytes (sender, datagram) = All IsByte datagram

parse_config-whole :
    (h : Header) (b : Body) (rest : List ℕ) (r : SessionParseResult) (m : SessionControlMessage)
    → parse_config h b rest ≡ some r
    → r.message ≡ some m
    → r ≡ parsed m
unfolding parse_config
parse_config-whole h b rest r m e f = ground arith

check_body-whole :
    (h : Header) (b : Body) (rest : List ℕ) (r : SessionParseResult) (m : SessionControlMessage)
    → check_body h b rest ≡ some r
    → r.message ≡ some m
    → r ≡ parsed m
unfolding check_body
check_body-whole h b rest r m e f = ground (arith, parse_config-whole h b rest r m)

-- A parser's answer that has a message has no error.
deserialize-whole :
    (packet : List ℕ) (r : SessionParseResult) (m : SessionControlMessage)
    → deserialize_session_message packet ≡ some r
    → r.message ≡ some m
    → r ≡ parsed m
unfolding deserialize_session_message check_header
deserialize-whole packet r m e f = elim (Option-cases (read_header packet)) [
  | inl fault ↦ ground (arith, e, f, fault)
  | inr ((h, rest), read) ↦ elim (Option-cases (read_body rest)) [
    | inl fault ↦ ground (arith, e, f, read, fault)
    | inr ((b, after), found) ↦ ground (arith, e, f, read, found, check_body-whole h b after r m)
  ]
]

module _ {A : Type 0} (resolves : A → Bool) (sent : A → List ℕ → Option ℕ) (now : ℤ) where
  respond_lem :
      (service : SessionControlService) (response : Option SessionControlMessage) (sender : A)
      → service.stopped ≡ false
      → OfOption Writable response
      → (replies : List (A × List ℕ)) × (respond resolves sent service response sender ≡ ok replies)
        × (length replies ≤ 1)
  unfolding respond send
  respond_lem service none sender up w = ([], refl, omega arith)
  respond_lem service (some message) sender up w =
      let written = MessageValid-serialize message w.fits w.valid w.reasoned in
      elim (Bool-cases (resolves sender)) [
        | inl there ↦
            ((sender, packet_of message) ∷ [], ground (arith, up, written, there), omega arith)
        | inr nowhere ↦ ([], ground (arith, up, written, nowhere), omega arith)
      ]

  poll_loop_lem :
      (service : SessionControlService) (datagrams : List (A × List ℕ))
      → service.stopped ≡ false
      → ManagerInv service.manager
      → All OfBytes datagrams
      → (last : SessionControlService) × (n : ℕ) × (replies : List (A × List ℕ)) × (poll_loop
            resolves sent service now datagrams
          ≡ some (ok (last, n, replies)))
        × (length replies ≤ n)
        × (n ≤ length datagrams)
        × ManagerInv last.manager
  unfolding poll_loop
  poll_loop_lem service [] up v b = (service, 0, [], refl, omega arith, omega arith, v)
  poll_loop_lem service ((sender, datagram) ∷ datagrams) up v b =
      let packet = take session_max_packet_size datagram in
      let (r, read) = session_parse_total packet in
      elim (Option-cases r.message) [
        | inl bad ↦
            let (last, n, replies, e, few, fewer, w) = poll_loop_lem service datagrams up v b.1 in
            (last, n, replies, ground (arith, read, bad, e), few, omega (arith, fewer), w)
        | inr (message, good) ↦
            let whole = read ∙ ap some (deserialize-whole packet r message read good) in
            let (valid, fits, same) =
              accepted packet message (All-take IsByte session_max_packet_size datagram b.0)
                whole in
            let (w, x) = handle-Inv service.manager v message now valid fits in
            let outcome = handle service.manager message now in
            let (replies, said, one) = respond_lem service outcome.1 sender up x in
            let (last, n, later, e, few, fewer, y) =
              poll_loop_lem (record service { manager = outcome.0 }) datagrams up w b.1 in
            (
              last,
              1 + n,
              replies ++ later,
              ground (arith, read, good, said, e),
              rw (length-append replies later) (omega (arith, one, few)),
              omega (arith, fewer),
              y,
            )
      ]

-- Whatever datagrams of bytes are there, poll handles them all, throws nothing, and answers each message at most
-- once, if the service runs and its device and sessions have valid identities and configurations, in the range
-- of their types; its device and sessions have them afterwards too.
pub session_poll_total :
    {A : Type 0} (resolves : A → Bool) (sent : A → List ℕ → Option ℕ) (now : ℤ)
    (service : SessionControlService) (datagrams : List (A × List ℕ))
    → service.stopped ≡ false
    → ManagerInv service.manager
    → All OfBytes datagrams
    → (last : SessionControlService) × (n : ℕ) × (replies : List (A × List ℕ)) × (poll resolves sent
          service now datagrams
        ≡ some (ok (last, n, replies)))
      × (length replies ≤ n)
      × (n ≤ length datagrams)
      × ManagerInv last.manager
unfolding poll
session_poll_total resolves sent now service datagrams up v b =
    let (last, n, replies, e, few, fewer, w) =
      poll_loop_lem resolves sent now service datagrams up v b in
    (
      record last { manager = (expire last.manager now).0 },
      n,
      replies,
      ground (arith, up, e),
      few,
      fewer,
      expire-ManagerInv last.manager now w,
    )
