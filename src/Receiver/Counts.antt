-- ===== src/Receiver/Counts.antt =====
-- What the counters of a receiver say of the datagrams that arrived.
use distributed_audio_system.Audio.{AudioFrame}
use distributed_audio_system.Bytes.{IsByte}
use distributed_audio_system.Packet.{max_packet_size}
use distributed_audio_system.Packet.Parse.{deserialize_total}
use distributed_audio_system.Prelude.{
  All, Bool-cases, List, Option, Option-cases, [], arith, err, inl, inr, length, ltb, none, ok,
  refl, some, suc, ℕ, ◌+◌, ◌<◌, ◌^◌, ◌∷◌, ◌≡◌,
}
use distributed_audio_system.Receiver.{datagram, receive, receive_packet}
use distributed_audio_system.Sequence.{
  SequenceTracker, add_u64, observe, observe_next, record_malformed, record_received,
}

abbrev with_frame : Option AudioFrame → List AudioFrame → List AudioFrame
with_frame none fs = fs
with_frame (some f) fs = f ∷ fs

-- The tracker and the frames after some datagrams; `none` if a call fails.
unfoldable pub receive_all :
    SequenceTracker → List (List ℕ) → Option (SequenceTracker × List AudioFrame)
receive_all t [] = some (t, [])
receive_all t (d ∷ ds) = elim (receive t (datagram d)) [
  | none ↦ none
  | some (err e) ↦ none
  | some (ok (u, o)) ↦ elim (receive_all u ds) [
    | none ↦ none
    | some (v, fs) ↦ some (v, with_frame o fs)
  ]
]

-- Some calls counted each of `packets` datagrams, of which `delivered` gave a frame.
pub record Counted (t u : SequenceTracker) (packets delivered : ℕ) : Type 0 where
  pub received : u.statistics.packets_received ≡ add_u64 t.statistics.packets_received packets
  pub accepted : u.statistics.packets_accepted ≡ add_u64 t.statistics.packets_accepted delivered
  pub malformed :
      add_u64 u.statistics.malformed_packets delivered
      ≡ add_u64 t.statistics.malformed_packets packets

abbrev pub InRange : SequenceTracker → Type 0
InRange t =
    (t.statistics.packets_received < 2 ^ 64)
    × (t.statistics.packets_accepted < 2 ^ 64)
    × (t.statistics.malformed_packets < 2 ^ 64)

Counted-trans :
    (t u v : SequenceTracker) (d n m total : ℕ)
    → total ≡ d + m
    → Counted t u 1 d
    → Counted u v n m
    → Counted t v (suc n) total
Counted-trans t u v d n m total e p q = record {
  received = omega (arith, p.received, q.received);
  accepted = omega (arith, p.accepted, q.accepted);
  malformed = omega (arith, p.malformed, q.malformed);
}

observe-Counted :
    (t : SequenceTracker) (sequence : ℕ)
    → InRange t
    → Counted t (observe (record_received t) sequence).0 1 1
      × InRange (observe (record_received t) sequence).0
unfolding observe observe_next record_received
observe-Counted t sequence h = ground arith

malformed-Counted :
    (t : SequenceTracker)
    → InRange t
    → Counted t (record_malformed (record_received t)) 1 0
      × InRange (record_malformed (record_received t))
unfolding record_malformed record_received
malformed-Counted t h = ground arith

abbrev delivered : Option AudioFrame → ℕ
delivered none = 0
delivered (some f) = 1

receive_packet-Counted :
    (t : SequenceTracker) (d : List ℕ)
    → InRange t
    → All IsByte d
    → (u : SequenceTracker) × (o : Option AudioFrame) × (receive_packet (record_received t) d
        ≡ some (u, o))
      × Counted t u 1 (delivered o)
      × InRange u
unfolding receive_packet
receive_packet-Counted t d h bytes =
    let (r, e) = deserialize_total d bytes in
    elim (Option-cases r.frame) [
      | inl bad ↦
          let (c, i) = malformed-Counted t h in
          (record_malformed (record_received t), none, ground (arith, e, bad), c, i)
      | inr (f, good) ↦
          let (c, i) = observe-Counted t f.sequence_number h in
          ((observe (record_received t) f.sequence_number).0, some f, ground (arith, e, good), c, i)
    ]

receive-Counted :
    (t : SequenceTracker) (d : List ℕ)
    → InRange t
    → All IsByte d
    → (u : SequenceTracker) × (o : Option AudioFrame) × (receive t (datagram d) ≡ some (ok (u, o)))
      × Counted t u 1 (delivered o)
      × InRange u
unfolding receive
receive-Counted t d h bytes = elim (Bool-cases (ltb max_packet_size (length d))) [
  | inl long ↦
      let (c, i) = malformed-Counted t h in
      (record_malformed (record_received t), none, rw long refl, c, i)
  | inr fits ↦
      let (u, o, e, c, i) = receive_packet-Counted t d h bytes in (u, o, rw (fits, e) refl, c, i)
]

with_frame-Counted :
    (t u v : SequenceTracker) (o : Option AudioFrame) (ds : List (List ℕ)) (fs : List AudioFrame)
    → Counted t u 1 (delivered o)
    → Counted u v (length ds) (length fs)
    → Counted t v (suc (length ds)) (length (with_frame o fs))
with_frame-Counted t u v none ds fs c k = Counted-trans t u v 0 _ _ _ (omega arith) c k
with_frame-Counted t u v (some f) ds fs c k = Counted-trans t u v 1 _ _ _ (omega arith) c k

-- Whatever datagrams of bytes arrive, the receiver handles them all: each is counted as received,
-- and either gives a frame and is counted as accepted, or is counted as malformed, all modulo 2 ^
-- 64. The counters start in 64 bits.
pub receive_all-Counted :
    (t : SequenceTracker) (ds : List (List ℕ))
    → InRange t
    → All (All IsByte) ds
    → (u : SequenceTracker) × (fs : List AudioFrame) × (receive_all t ds ≡ some (u, fs))
      × Counted t u (length ds) (length fs)
unfolding receive_all
receive_all-Counted t [] h bytes = (t, [], refl, ground arith)
receive_all-Counted t (d ∷ ds) h bytes =
    let (u, o, e, c, i) = receive-Counted t d h bytes.0 in
    let (v, fs, rest, k) = receive_all-Counted u ds i bytes.1 in
    (v, with_frame o fs, ground (arith, e, rest), with_frame-Counted t u v o ds fs c k)
