-- ===== src/Discovery/Service/Polls.antt =====
-- What a call of poll comes to, whatever datagrams are there.
use distributed_audio_system.Discovery.Device.{DeviceInfo}
use distributed_audio_system.Discovery.Message.{
  DiscoveryMessage, discovery_max_packet_size, is_goodbye, is_query, response,
  serialize_discovery_message,
}
use distributed_audio_system.Discovery.Message.Totality.{discovery_parse_total}
use distributed_audio_system.Discovery.Registry.{DeviceRegistry, expire}
use distributed_audio_system.Discovery.Registry.Invariant.{
  expire-RegistryInv, observe-RegistryInv, remove-RegistryInv,
}
use distributed_audio_system.Discovery.Registry.Laws.{RegistryInv}
use distributed_audio_system.Discovery.Service.{
  DiscoveryService, answer, noted, poll, poll_loop, send, take_notice,
}
use distributed_audio_system.Prelude.{
  All, Bool, Bool-cases, List, Option, Option-cases, [], arith, false, inl, inr, length, ok, refl,
  some, subst, suc, sym, take, ℕ, ◌++◌, ◌+◌, ◌∙◌, ◌∷◌, ◌≡◌, ◌≤◌, ◌⊎◌,
}
use distributed_audio_system.Prelude.Int.{ℤ}

-- The service answered with one packet only, at most once for each message.
pub record Answers {A : Type 0} (initial final : DiscoveryService) (p : List ℕ)
    (processed datagrams : ℕ) (replies : List (A × List ℕ)) : Type 0 where
  pub own_packet : All {A = A × List ℕ} (λ r. r.1 ≡ p) replies
  pub few_replies : length replies ≤ processed
  pub few_messages : processed ≤ datagrams
  pub same_info : final.local_info ≡ initial.local_info
  pub running : final.stopped ≡ false
  pub filed : RegistryInv final.registry

take_notice-RegistryInv :
    (r : DeviceRegistry) (message : DiscoveryMessage) (now : ℤ)
    → RegistryInv r
    → RegistryInv (take_notice r message now)
unfolding take_notice
take_notice-RegistryInv r message now v = elim (Option-cases message.device) [
  | inl nothing ↦ rw (nothing, take_notice) v
  | inr (info, given) ↦ elim (Bool-cases (is_goodbye message.type_)) [
    | inl bye ↦ rw (given, bye, take_notice) (remove-RegistryInv r info.id v)
    | inr other ↦ rw (given, other, take_notice) (observe-RegistryInv r info now v)
  ]
]

module _ {A : Type 0} (resolves : A → Bool) (sent : A → List ℕ → Option ℕ) (now : ℤ)
    (p : List ℕ) where
  noted-Answers :
      (service : DiscoveryService) (message : DiscoveryMessage)
      → service.stopped ≡ false
      → RegistryInv service.registry
      → Answers {A = A} service (noted service message now) p 0 0 []
  noted-Answers service message up v = elim (Bool-cases (is_query message.type_)) [
    | inl asked ↦ rw asked (record {
      own_packet = tt;
      few_replies = omega arith;
      few_messages = omega arith;
      same_info = refl;
      running = up;
      filed = v;
    })
    | inr told ↦ rw told (record {
      own_packet = tt;
      few_replies = omega arith;
      few_messages = omega arith;
      same_info = refl;
      running = up;
      filed = take_notice-RegistryInv service.registry message now v;
    })
  ]

  answer_lem :
      (service : DiscoveryService) (message : DiscoveryMessage) (sender : A)
      → service.stopped ≡ false
      → serialize_discovery_message (record { type_ = response; device = some service.local_info })
        ≡ ok p
      → (replies : List (A × List ℕ)) × (answer resolves sent service message sender ≡ ok replies)
        × ((replies ≡ []) ⊎ (replies ≡ (sender, p) ∷ []))
  unfolding answer send
  answer_lem service message sender up e = elim (Bool-cases (is_query message.type_)) [
    | inr told ↦ ([], rw (told, answer) refl, inl refl)
    | inl asked ↦ elim (Bool-cases (resolves sender)) [
      | inl there ↦ ((sender, p) ∷ [], ground (arith, asked, up, e, there), inr refl)
      | inr nowhere ↦ ([], ground (arith, asked, up, e, nowhere), inl refl)
    ]
  ]

  replies_follow :
      (a b c : DiscoveryService) (sender : A) (replies later : List (A × List ℕ)) (n m : ℕ)
      → (replies ≡ []) ⊎ (replies ≡ (sender, p) ∷ [])
      → Answers {A = A} a b p 0 0 []
      → Answers b c p n m later
      → Answers a c p (1 + n) (suc m) (replies ++ later)
  replies_follow a b c sender replies later n m (inl e) x y = rw e (record {
    own_packet = y.own_packet;
    few_replies = omega (arith, y.few_replies);
    few_messages = omega (arith, y.few_messages);
    same_info = y.same_info ∙ x.same_info;
    running = y.running;
    filed = y.filed;
  })
  replies_follow a b c sender replies later n m (inr e) x y = rw e (record {
    own_packet = (refl, y.own_packet);
    few_replies = omega (arith, y.few_replies);
    few_messages = omega (arith, y.few_messages);
    same_info = y.same_info ∙ x.same_info;
    running = y.running;
    filed = y.filed;
  })

  skip :
      (a b : DiscoveryService) (n m : ℕ) (replies : List (A × List ℕ))
      → Answers a b p n m replies
      → Answers a b p n (suc m) replies
  skip a b n m replies x = record {
    own_packet = x.own_packet;
    few_replies = x.few_replies;
    few_messages = omega (arith, x.few_messages);
    same_info = x.same_info;
    running = x.running;
    filed = x.filed;
  }

  poll_loop-Answers :
      (service : DiscoveryService) (datagrams : List (A × List ℕ))
      → service.stopped ≡ false
      → RegistryInv service.registry
      → serialize_discovery_message (record { type_ = response; device = some service.local_info })
        ≡ ok p
      → (last : DiscoveryService) × (n : ℕ) × (replies : List (A × List ℕ)) × (poll_loop resolves
            sent service now datagrams
          ≡ some (ok (last, n, replies)))
        × Answers service last p n (length datagrams) replies
  unfolding poll_loop
  poll_loop-Answers service [] up v e = (
    service,
    0,
    [],
    refl,
    record {
      own_packet = tt;
      few_replies = omega arith;
      few_messages = omega arith;
      same_info = refl;
      running = up;
      filed = v;
    },
  )
  poll_loop-Answers service ((sender, datagram) ∷ datagrams) up v e =
      let (r, read) = discovery_parse_total (take discovery_max_packet_size datagram) in
      elim (Option-cases r.message) [
        | inl bad ↦
            let (last, n, replies, f, x) = poll_loop-Answers service datagrams up v e in
            (
              last,
              n,
              replies,
              ground (arith, read, bad, f),
              skip service last n (length datagrams) replies x,
            )
        | inr (message, good) ↦
            let (replies, said, which) = answer_lem service message sender up e in
            let mid = noted service message now in
            let x = noted-Answers service message up v in
            let again =
              subst
                (λ (i : DeviceInfo).
                  serialize_discovery_message (record { type_ = response; device = some i }) ≡ ok p)
                (sym x.same_info) e in
            let (last, n, later, f, y) = poll_loop-Answers mid datagrams x.running x.filed again in
            (
              last,
              1 + n,
              replies ++ later,
              ground (arith, read, good, said, f),
              replies_follow service mid last sender replies later n (length datagrams) which x y,
            )
      ]

-- If a service runs, its registry is well formed and its response can be serialized, its poll
-- handles whatever datagrams are there, throws nothing, sends no packet but that response, at most
-- one for each message, and keeps its device information and a registry that is well formed.
pub poll-Answers :
    {A : Type 0} (resolves : A → Bool) (sent : A → List ℕ → Option ℕ) (now : ℤ) (p : List ℕ)
    (service : DiscoveryService) (datagrams : List (A × List ℕ))
    → service.stopped ≡ false
    → RegistryInv service.registry
    → serialize_discovery_message (record { type_ = response; device = some service.local_info })
      ≡ ok p
    → (last : DiscoveryService) × (n : ℕ) × (replies : List (A × List ℕ)) × (poll resolves sent
          service now datagrams
        ≡ some (ok (last, n, replies)))
      × Answers service last p n (length datagrams) replies
unfolding poll
poll-Answers resolves sent now p service datagrams up v e =
    let (last, n, replies, f, x) = poll_loop-Answers resolves sent now p service datagrams up v e in
    (
      record last { registry = (expire last.registry now).0 },
      n,
      replies,
      ground (arith, up, f),
      record {
        own_packet = x.own_packet;
        few_replies = x.few_replies;
        few_messages = x.few_messages;
        same_info = x.same_info;
        running = x.running;
        filed = expire-RegistryInv last.registry now x.filed;
      },
    )
