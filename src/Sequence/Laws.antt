-- ===== src/Sequence/Laws.antt =====
-- What the tracker makes of a packet that lies `d` ahead of the last one, or behind it.
use distributed_audio_system.Prelude.{
  ℕ, suc, ◌+◌, ◌-◌, ◌^◌, ◌≤◌, ◌<◌, ◌≡◌, refl, subst, ◌∙◌, true, ◌==◌, if◌then◌else◌, List, [], ◌∷◌,
  length, arith, All,
}
use distributed_audio_system.Sequence.{
  SequenceTracker, expected, duplicate, gap, out_of_order, observe, add_u64,
}

-- A tracker that has seen a packet.
pub record Started (t : SequenceTracker) : Type 0 where
  pub seen : t.has_last_sequence ≡ true
  pub last_fits : t.last_sequence < 2 ^ 64

-- After a first packet, one that is `d` ahead, for 0 < d < 2 ^ 63, is accepted and moves the last
-- number; the numbers between are counted as missing.
observe_ahead :
    (t : SequenceTracker) (d : ℕ)
    → Started t
    → 0 < d
    → d < 2 ^ 63
    → observe t (add_u64 t.last_sequence d) ≡ (
      record {
        statistics = record t.statistics {
          packets_accepted = add_u64 t.statistics.packets_accepted 1;
          estimated_missing_packets =
              if d == 1
              then t.statistics.estimated_missing_packets
              else add_u64 t.statistics.estimated_missing_packets (d - 1);
        };
        has_last_sequence = true;
        last_sequence = add_u64 t.last_sequence d;
      },
      if d == 1 then expected else gap,
    )
unfolding observe
observe_ahead t d s lo hi = ground (arith, s.seen, s.last_fits)

-- After a first packet, one with a 64-bit number that is `d` behind, for d ≤ 2 ^ 63, is accepted
-- and moves nothing: it is counted as a duplicate for d = 0, else as late.
observe_behind :
    (t : SequenceTracker) (sequence d : ℕ)
    → Started t
    → sequence < 2 ^ 64
    → d ≤ 2 ^ 63
    → add_u64 sequence d ≡ t.last_sequence
    → observe t sequence ≡ (
      record {
        statistics = record t.statistics {
          packets_accepted = add_u64 t.statistics.packets_accepted 1;
          duplicate_packets =
              if d == 0
              then add_u64 t.statistics.duplicate_packets 1
              else t.statistics.duplicate_packets;
          out_of_order_packets =
              if d == 0
              then t.statistics.out_of_order_packets
              else add_u64 t.statistics.out_of_order_packets 1;
        };
        has_last_sequence = true;
        last_sequence = t.last_sequence;
      },
      if d == 0 then duplicate else out_of_order,
    )
unfolding observe
observe_behind t sequence d s q hi e = ground (arith, s.seen, s.last_fits)

pub observe_all : SequenceTracker → List ℕ → SequenceTracker
observe_all t [] = t
observe_all t (sequence ∷ rest) = observe_all (observe t sequence).0 rest

-- The sequence numbers that lie the given distances apart, after `last`.
abbrev pub ahead : ℕ → List ℕ → List ℕ
ahead last [] = []
ahead last (d ∷ ds) = add_u64 last d ∷ ahead (add_u64 last d) ds

abbrev pub sum : List ℕ → ℕ
sum [] = 0
sum (d ∷ ds) = d + sum ds

abbrev pub IsAhead : ℕ → Type 0
IsAhead d = (0 < d) × (d < 2 ^ 63)

-- What a stream of packets in order adds up to, however many wrap-arounds it passes.
pub record Covers (t u : SequenceTracker) (distance packets : ℕ) : Type 0 where
  pub last : u.last_sequence ≡ add_u64 t.last_sequence distance
  pub accepted : u.statistics.packets_accepted ≡ add_u64 t.statistics.packets_accepted packets
  pub accounted :
      add_u64 u.statistics.estimated_missing_packets packets
      ≡ add_u64 t.statistics.estimated_missing_packets distance
  pub no_duplicate : u.statistics.duplicate_packets ≡ t.statistics.duplicate_packets
  pub no_late : u.statistics.out_of_order_packets ≡ t.statistics.out_of_order_packets

observe-Started :
    (t : SequenceTracker) (d : ℕ)
    → Started t
    → IsAhead d
    → Started (observe t (add_u64 t.last_sequence d)).0
observe-Started t d s h =
    rw (observe_ahead t d s h.0 h.1) (record { seen = refl; last_fits = omega arith })

observe-Covers :
    (t : SequenceTracker) (d : ℕ)
    → Started t
    → t.statistics.estimated_missing_packets < 2 ^ 64
    → IsAhead d
    → Covers t (observe t (add_u64 t.last_sequence d)).0 d 1
observe-Covers t d s m h = rw (observe_ahead t d s h.0 h.1) (ground arith)

Covers-trans :
    (t u v : SequenceTracker) (d e n : ℕ)
    → Covers t u d 1
    → Covers u v e n
    → Covers t v (d + e) (suc n)
Covers-trans t u v d e n p q = record {
  last = omega (arith, p.last, q.last);
  accepted = omega (arith, p.accepted, q.accepted);
  accounted = omega (arith, p.accounted, q.accounted);
  no_duplicate = q.no_duplicate ∙ p.no_duplicate;
  no_late = q.no_late ∙ p.no_late;
}

-- The counters stay in their type.
observe-bounds :
    (t : SequenceTracker) (d : ℕ)
    → Started t
    → t.statistics.estimated_missing_packets < 2 ^ 64
    → IsAhead d
    → ((observe t (add_u64 t.last_sequence d)).0.statistics.packets_accepted < 2 ^ 64)
      × ((observe t (add_u64 t.last_sequence d)).0.statistics.estimated_missing_packets < 2 ^ 64)
observe-bounds t d s m h = rw (observe_ahead t d s h.0 h.1) (ground arith)

-- Packets that each lie between 1 and 2 ^ 63 - 1 ahead of the one before, after a first one and
-- with counters in 64 bits: the last number moves by the sum of the distances, every packet is
-- counted as accepted, the accepted and the missing packets together make up that sum, and none is
-- counted as duplicate or late, all modulo 2 ^ 64.
pub observe_all-Covers :
    (t : SequenceTracker) (ds : List ℕ)
    → Started t
    → t.statistics.packets_accepted < 2 ^ 64
    → t.statistics.estimated_missing_packets < 2 ^ 64
    → All IsAhead ds
    → Covers t (observe_all t (ahead t.last_sequence ds)) (sum ds) (length ds)
unfolding observe_all
observe_all-Covers t [] s a m h = ground arith
observe_all-Covers t (d ∷ ds) s a m h =
    let u = (observe t (add_u64 t.last_sequence d)).0 in
    let step = observe-Covers t d s m h.0 in
    let (a', m') = observe-bounds t d s m h.0 in
    let later = observe_all-Covers u ds (observe-Started t d s h.0) a' m' h.1 in
    Covers-trans t u _ d (sum ds) (length ds) step
      (subst (λ l. Covers u (observe_all u (ahead l ds)) (sum ds) (length ds)) step.last later)
