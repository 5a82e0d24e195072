-- ===== src/Resilience/Outcome.antt =====
-- What comes out of `run_deterministic_resilience` of src/network_resilience.cpp.
use distributed_audio_system.Audio.{AudioFrame}
use distributed_audio_system.Float.{Float}
use distributed_audio_system.Impairment.{ImpairedFrame, ImpairmentPlan, apply_impairment}
use distributed_audio_system.Jitter.{PlaybackItem}
use distributed_audio_system.Jitter.Invariant.{Inv}
use distributed_audio_system.Jitter.Playback.{is_played, pop-Pops, pop_uninitialized}
use distributed_audio_system.Jitter.Pop.{pop-Inv}
use distributed_audio_system.Jitter.Trace.{count_from, pull, step_counts}
use distributed_audio_system.Liveness.{RecoveryConfig, SessionLiveness, session_liveness}
use distributed_audio_system.Prelude.{
  All, Bool, Bool-cases, List, [], ap, arith, false, if◌then◌else◌, inl, inr, length, ok, refl,
  some, suc, sym, true, zero, ℕ, ◌%◌, ◌&&◌, ◌+◌, ◌^◌, ◌∙◌, ◌∷◌, ◌≡◌,
}
use distributed_audio_system.Prelude.Int.{pos, ℤ, ◌*ℤ◌}
use distributed_audio_system.Resilience.{
  AdaptiveJitterBuffer, AdaptiveJitterConfig, NetworkStatistics, adaptive_jitter_buffer,
  new_statistics, pop_item,
}
use distributed_audio_system.Resilience.Arrivals.{arrive_all-Counted, session_liveness-Hears}
use distributed_audio_system.Resilience.Depth.{adaptive-DepthInv}
use distributed_audio_system.Resilience.Frames.{FrameOk, arrivals_keep}
use distributed_audio_system.Resilience.Run.{
  ResilienceResult, arrive_all, count_played, frame_step, is_streaming, pop_all,
  run_deterministic_resilience, run_network,
}

nothing_added :
    (plays : Bool) (n : ℕ) (rest : List ℕ)
    → plays ≡ false
    → rest ≡ []
    → (if plays then n ∷ rest else rest) ≡ []
nothing_added true n rest p q = cc
nothing_added false n rest p q = q

in_a_row :
    (started : Bool) (n : ℕ) (xs : List ℕ)
    → (started ≡ true → xs ≡ count_from n (length xs))
    → (started ≡ false → xs ≡ [])
    → (k : ℕ) × (xs ≡ count_from k (length xs))
unfolding count_from
in_a_row true n xs p q = (n, p refl)
in_a_row false n xs p q = (n, rw (q refl) refl)

module _ {ℓ} {D : Type ℓ} ⦃d : Float D⦄ where
  -- The pops change three counters only, and all three in the same way.
  record Played (s t : NetworkStatistics D) : Type 0 where
    kept_sent : t.packets_sent ≡ s.packets_sent
    kept_received : t.packets_received ≡ s.packets_received
    kept_accepted : t.packets_accepted ≡ s.packets_accepted
    kept_duplicates : t.duplicate_packets ≡ s.duplicate_packets
    kept_late : t.late_packets ≡ s.late_packets
    kept_rejected : t.packets_rejected ≡ s.packets_rejected
    together : t.missing_packets ≡ t.concealed_frames
    together_lost : t.unrecoverable_packets ≡ t.concealed_frames

  count_played-Played :
      (s : NetworkStatistics D) (item : PlaybackItem)
      → s.missing_packets ≡ s.concealed_frames
      → s.unrecoverable_packets ≡ s.concealed_frames
      → Played s (count_played s item)
  count_played-Played s item p q = elim (Bool-cases (is_played item.status && item.concealed)) [
    | inl shown ↦ rw shown (ground (arith, p, q))
    | inr other ↦ rw other (ground (arith, p, q))
  ]

  then-Played : (s t u : NetworkStatistics D) → Played s t → Played t u → Played s u
  then-Played s t u a b = record {
    kept_sent = b.kept_sent ∙ a.kept_sent;
    kept_received = b.kept_received ∙ a.kept_received;
    kept_accepted = b.kept_accepted ∙ a.kept_accepted;
    kept_duplicates = b.kept_duplicates ∙ a.kept_duplicates;
    kept_late = b.kept_late ∙ a.kept_late;
    kept_rejected = b.kept_rejected ∙ a.kept_rejected;
    together = b.together;
    together_lost = b.together_lost;
  }

  pop_all-Played :
      (rounds index : ℕ) (step_ : ℤ) (b : AdaptiveJitterBuffer D) (s : NetworkStatistics D)
      → Inv b.buffer
      → s.missing_packets ≡ s.concealed_frames
      → s.unrecoverable_packets ≡ s.concealed_frames
      → let end = pop_all rounds index step_ b s in
        Inv end.0.buffer
        × Played s end.1
        × (b.buffer.sequence_initialized ≡ true
            → end.2 ≡ count_from b.buffer.next_sequence (length end.2))
        × (b.buffer.sequence_initialized ≡ false → end.2 ≡ [])
  unfolding pop_all count_from
  pop_all-Played zero index step_ b s v p q = (v, ground (arith, p, q), λ h. refl, λ h. refl)
  pop_all-Played (suc rounds) index step_ b s v p q =
      let now = step_ *ℤ pos index in
      let one = pop_item b now in
      let one_played = count_played-Played s one.1 p q in
      let (w, rest, counts, nothing) =
        pop_all-Played rounds (index + 1) step_ one.0 (count_played s one.1)
          (pop-Inv b.buffer now v) one_played.together one_played.together_lost in
      let pops = pop-Pops b.buffer now v in
      (
        w,
        then-Played s _ _ one_played rest,
        λ h. step_counts b.buffer (pull now) _ v h (counts (pops.keeps_started ∙ h)),
        λ h.
            nothing_added _ _ _ (pop_uninitialized b.buffer now h)
              (nothing (pops.keeps_started ∙ h)),
      )

  run_built :
      (frames : List AudioFrame) (plan : ImpairmentPlan) (c : AdaptiveJitterConfig)
      (recovery : RecoveryConfig) (b : AdaptiveJitterBuffer D) (l : SessionLiveness)
      (arrived : List ImpairedFrame)
      → adaptive_jitter_buffer c ≡ some b
      → session_liveness recovery ≡ some l
      → apply_impairment frames plan (pos 0) ≡ ok arrived
      → run_deterministic_resilience frames plan c recovery ≡ ok (run_network frames arrived b l)
  unfolding run_deterministic_resilience
  run_built frames plan c recovery b l arrived eb el ea =
      rw (eb, run_deterministic_resilience) (rw (el, ea) refl)

  -- Once its objects are built and the impairment is applied, the run has a result, for frames such as the constructor
  -- of a frame lets through, with 64-bit numbers. Each arrival is counted as sent and as received, and as accepted,
  -- duplicate, late or rejected, modulo 2 ^ 64; the numbers that are played follow one another, none left out and none
  -- twice, modulo 2 ^ 64; the missing, the unrecoverable and the concealed frames are the same number; and the session
  -- is always reported as recovered.
  pub run_deterministic_resilience_lem :
      (frames : List AudioFrame) (plan : ImpairmentPlan) (c : AdaptiveJitterConfig)
      (recovery : RecoveryConfig) (b : AdaptiveJitterBuffer D) (l : SessionLiveness)
      (arrived : List ImpairedFrame)
      → All FrameOk frames
      → adaptive_jitter_buffer c ≡ some b
      → session_liveness recovery ≡ some l
      → apply_impairment frames plan (pos 0) ≡ ok arrived
      → (r : ResilienceResult D) × (run_deterministic_resilience frames plan c recovery ≡ ok r)
        × (r.statistics.packets_sent ≡ length arrived % 2 ^ 64)
        × (r.statistics.packets_received ≡ length arrived % 2 ^ 64)
        × ((r.statistics.packets_accepted + r.statistics.duplicate_packets
                + r.statistics.late_packets + r.statistics.packets_rejected)
              % 2 ^ 64
            ≡ length arrived % 2 ^ 64)
        × ((n : ℕ) × (r.playback_sequence ≡ count_from n (length r.playback_sequence)))
        × (r.statistics.missing_packets ≡ r.statistics.concealed_frames)
        × (r.statistics.unrecoverable_packets ≡ r.statistics.concealed_frames)
        × (r.is_recovered ≡ true)
  unfolding run_deterministic_resilience new_statistics apply_impairment count_from
  run_deterministic_resilience_lem frames plan c recovery b l arrived h eb el ea =
      let made = adaptive-DepthInv c b eb in
      let heard_of = session_liveness-Hears recovery l el in
      let all_ok = arrivals_keep FrameOk frames plan (pos 0) (pos 0) _ _ arrived h ea in
      let (v, shown, still) =
        arrive_all-Counted b new_statistics l arrived made.0.inv heard_of (omega arith, omega arith)
          all_ok in
      let after_ = arrive_all b new_statistics l arrived in
      let end_ = pop_all (length frames + 2) 0 (frame_step frames) after_.0 after_.1 in
      let (w, popped_, counts, nothing) =
        pop_all-Played (length frames + 2) 0 (frame_step frames) after_.0 after_.1 v
          (shown.same_missing ∙ sym shown.same_concealed)
          (shown.same_unrecoverable ∙ sym shown.same_concealed) in
      let sent : end_.1.packets_sent ≡ length arrived % 2 ^ 64 =
        popped_.kept_sent ∙ shown.sent ∙ omega arith in
      let received : end_.1.packets_received ≡ length arrived % 2 ^ 64 =
        popped_.kept_received ∙ shown.received ∙ omega arith in
      let ways : (end_.1.packets_accepted + end_.1.duplicate_packets + end_.1.late_packets
              + end_.1.packets_rejected)
            % 2 ^ 64
          ≡ length arrived % 2 ^ 64 =
        omega (
          arith, shown.ways, popped_.kept_accepted, popped_.kept_duplicates, popped_.kept_late,
          popped_.kept_rejected,
        ) in
      (
        run_network frames arrived b l,
        run_built frames plan c recovery b l arrived eb el ea,
        sent,
        received,
        ways,
        in_a_row _ _ _ counts nothing,
        popped_.together,
        popped_.together_lost,
        ap is_streaming still.streams,
      )
