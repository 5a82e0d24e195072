-- ===== src/Resilience/Arrivals.antt =====
-- The loop over the arrivals in `run_deterministic_resilience` of src/network_resilience.cpp.
use distributed_audio_system.Float.{Float}
use distributed_audio_system.Impairment.{ImpairedFrame}
use distributed_audio_system.Jitter.{InsertResult}
use distributed_audio_system.Jitter.Insert.{insert-Inv}
use distributed_audio_system.Jitter.Invariant.{Inv}
use distributed_audio_system.Liveness.{
  RecoveryConfig, SessionLiveness, session_liveness, streaming, update, valid_traffic,
}
use distributed_audio_system.Prelude.{
  All, List, [], arith, length, refl, some, true, ℕ, ◌%◌, ◌+◌, ◌<◌, ◌^◌, ◌∙◌, ◌∷◌, ◌≡◌,
}
use distributed_audio_system.Prelude.Int.{ltb_ℤ, pos, sub_self, ℤ}
use distributed_audio_system.Resilience.{AdaptiveJitterBuffer, NetworkStatistics, insert_frame}
use distributed_audio_system.Resilience.Frames.{EventOk}
use distributed_audio_system.Resilience.Run.{arrive_all, count_event}
use distributed_audio_system.Sequence.{add_u64}

-- The peer was heard of in time.
pub record Hears (l : SessionLiveness) : Type 0 where
  pub streams : l.state ≡ streaming
  pub available : l.peer_is_available ≡ true
  pub warns : ltb_ℤ (pos 0) l.config.warning_timeout ≡ true
  pub disconnects : ltb_ℤ (pos 0) l.config.disconnect_timeout ≡ true

traffic-Hears : (l : SessionLiveness) (now : ℤ) → Hears l → Hears (update (valid_traffic l now) now)
unfolding update valid_traffic
traffic-Hears l now v =
    let gap = sub_self now in ground (arith, gap, v.streams, v.available, v.warns, v.disconnects)

pub session_liveness-Hears :
    (c : RecoveryConfig) (l : SessionLiveness) → session_liveness c ≡ some l → Hears l
unfolding session_liveness
session_liveness-Hears c l e = ground (arith, e)

-- What the arrivals count: each packet is sent, received, and ends in one of four ways.
pub record Counted {ℓ} {D : Type ℓ} (s t : NetworkStatistics D) (packets : ℕ) : Type 0 where
  pub sent : t.packets_sent ≡ add_u64 s.packets_sent packets
  pub received : t.packets_received ≡ add_u64 s.packets_received packets
  pub ways :
      (t.packets_accepted + t.duplicate_packets + t.late_packets + t.packets_rejected) % 2 ^ 64
      ≡ (s.packets_accepted + s.duplicate_packets + s.late_packets + s.packets_rejected + packets)
        % 2 ^ 64
  pub same_missing : t.missing_packets ≡ s.missing_packets
  pub same_unrecoverable : t.unrecoverable_packets ≡ s.unrecoverable_packets
  pub same_concealed : t.concealed_frames ≡ s.concealed_frames

module _ {ℓ} {D : Type ℓ} ⦃d : Float D⦄ where
  count_event-Counted :
      (s : NetworkStatistics D) (e : ImpairedFrame) (r : InsertResult)
      → Counted s (count_event s e r) 1
  count_event-Counted s e InsertResult.inserted = ground arith
  count_event-Counted s e InsertResult.duplicate = ground arith
  count_event-Counted s e InsertResult.late = ground arith
  count_event-Counted s e InsertResult.overflow = ground arith
  count_event-Counted s e InsertResult.incompatible = ground arith
  count_event-Counted s e InsertResult.stopped = ground arith

  pub arrive_all-Counted :
      (b : AdaptiveJitterBuffer D) (s : NetworkStatistics D) (l : SessionLiveness)
      (arrived : List ImpairedFrame)
      → Inv b.buffer
      → Hears l
      → (s.packets_sent < 2 ^ 64) × (s.packets_received < 2 ^ 64)
      → All EventOk arrived
      → let end = arrive_all b s l arrived in
        Inv end.0.buffer × Counted s end.1 (length arrived) × Hears end.2
  unfolding arrive_all
  arrive_all-Counted b s l [] v h r ok_ = (
    v,
    record {
      sent = omega (arith, r.0);
      received = omega (arith, r.1);
      ways = omega arith;
      same_missing = refl;
      same_unrecoverable = refl;
      same_concealed = refl;
    },
    h,
  )
  arrive_all-Counted b s l (e ∷ arrived) v h r ok_ =
      let inserted_one = insert_frame b e.frame in
      let one = count_event-Counted s e inserted_one.1 in
      let (w, rest, still) =
        arrive_all-Counted inserted_one.0 (count_event s e inserted_one.1)
          (update (valid_traffic l e.arrival_time) e.arrival_time) arrived
          (insert-Inv b.buffer e.frame v ok_.0.0 ok_.0.1) (traffic-Hears l e.arrival_time h)
          (omega (arith, one.sent), omega (arith, one.received)) ok_.1 in
      (
        w,
        record {
          sent = omega (arith, one.sent, rest.sent);
          received = omega (arith, one.received, rest.received);
          ways = omega (arith, one.ways, rest.ways);
          same_missing = rest.same_missing ∙ one.same_missing;
          same_unrecoverable = rest.same_unrecoverable ∙ one.same_unrecoverable;
          same_concealed = rest.same_concealed ∙ one.same_concealed;
        },
        still,
      )
