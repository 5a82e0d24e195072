-- ===== src/Resilience/Frames.antt =====
-- The frames that the simulated network of src/network_impairment.cpp hands on.
use distributed_audio_system.Audio.{AudioFrame}
use distributed_audio_system.Audio.Laws.{IsFrame}
use distributed_audio_system.Impairment.{
  ImpairedFrame, ImpairmentPlan, arrivals, arrive, contains, find_frame, negative_delay, next_delay,
  unknown_sequence,
}
use distributed_audio_system.Prelude.{
  All, Bool, Bool-cases, List, Option-cases, Result-cases, [], err, false, inl, inr, ok, refl, some,
  subst, sym, true, ℕ, ◌<◌, ◌==◌, ◌^◌, ◌∙◌, ◌∷◌, ◌≡◌,
}
use distributed_audio_system.Prelude.Int.{ltb_ℤ, pos, ℤ, ◌*ℤ◌, ◌+ℤ◌}

-- A frame as the constructor of frames builds it, with a number of 64 bits.
abbrev pub FrameOk : AudioFrame → Type 0
FrameOk f = IsFrame f × (f.sequence_number < 2 ^ 64)

abbrev pub EventOk : ImpairedFrame → Type 0
EventOk e = FrameOk e.frame

-- What holds of every frame holds of every frame that arrives.
module _ (P : AudioFrame → Type 0) where
  find_frame_keeps :
      (frames : List AudioFrame) (n : ℕ) (f : AudioFrame)
      → All P frames
      → find_frame frames n ≡ some f
      → P f
  unfolding find_frame
  find_frame_keeps [] n f h e = cc
  find_frame_keeps (g ∷ frames) n f h e = elim (Bool-cases (g.sequence_number == n)) [
    | inl here_ ↦
        let found : find_frame (g ∷ frames) n ≡ some g = rw here_ refl in
        let same : g ≡ f = cc in subst P same h.0
    | inr later ↦
        let found : find_frame (g ∷ frames) n ≡ find_frame frames n = rw later refl in
        find_frame_keeps frames n f h.1 (sym found ∙ e)
  ]

  arrive_keeps :
      (b : Bool) (e : ImpairedFrame) (later : List ImpairedFrame)
      → P e.frame
      → All (λ (e : ImpairedFrame). P e.frame) later
      → All (λ (e : ImpairedFrame). P e.frame) (arrive b e later)
  arrive_keeps true e later h hs = (h, (h, hs))
  arrive_keeps false e later h hs = (h, hs)

  pub arrivals_keep :
      (frames : List AudioFrame) (plan : ImpairmentPlan) (start delay : ℤ) (delays : List ℤ)
      (order : List ℕ) (arrived : List ImpairedFrame)
      → All P frames
      → arrivals frames plan start delay delays order ≡ ok arrived
      → All (λ (e : ImpairedFrame). P e.frame) arrived
  unfolding arrivals
  arrivals_keep frames plan start delay delays [] arrived h e =
      let nothing : arrived ≡ [] = cc in rw nothing tt
  arrivals_keep frames plan start delay delays (n ∷ order) arrived h e =
      elim (Bool-cases (contains plan.lost_sequences n)) [
        | inl gone ↦
            let skips : arrivals frames plan start delay delays (n ∷ order)
                ≡ arrivals frames plan start delay delays order =
              rw (gone, arrivals) refl in
            arrivals_keep frames plan start delay delays order arrived h (sym skips ∙ e)
        | inr kept ↦
            let next_ = next_delay delay delays in
            elim (Option-cases (find_frame frames n)) [
              | inl unknown ↦
                  let failed : arrivals frames plan start delay delays (n ∷ order)
                      ≡ err unknown_sequence =
                    rw (kept, unknown, arrivals) refl in
                  absurd cc
              | inr (f, found) ↦ elim (Bool-cases (ltb_ℤ next_.0 (pos 0))) [
                | inl negative ↦
                    let failed : arrivals frames plan start delay delays (n ∷ order)
                        ≡ err negative_delay =
                      rw (kept, found, negative, arrivals) refl in
                    absurd cc
                | inr late ↦
                    elim (Result-cases (arrivals frames plan start next_.0 next_.1 order)) [
                      | inl (x, bad) ↦
                          let failed : arrivals frames plan start delay delays (n ∷ order) ≡ err x =
                            rw (kept, found, late, bad, arrivals) refl in
                          absurd cc
                      | inr (later, good) ↦
                          let a : ImpairedFrame = record {
                            frame = f;
                            arrival_time = start +ℤ next_.0 *ℤ pos 1_000_000;
                          } in
                          let all_of : arrivals frames plan start delay delays (n ∷ order)
                              ≡ ok (arrive (contains plan.duplicate_sequences n) a later) =
                            rw (kept, found, late, good, arrivals) refl in
                          let same : arrive (contains plan.duplicate_sequences n) a later
                              ≡ arrived =
                            cc in
                          subst (All (λ (e : ImpairedFrame). P e.frame)) same (
                            arrive_keeps (contains plan.duplicate_sequences n) a later
                              (find_frame_keeps frames n f h found)
                              (arrivals_keep frames plan start next_.0 next_.1 order later h good))
                    ]
              ]
            ]
      ]
