-- ===== src/Clock/Simulated/Totals.antt =====
-- What src/simulated_playback.cpp counts over a run.
use mathlib.Core.List.{append-nil, append_assoc}
use distributed_audio_system.Audio.{AudioFrame}
use distributed_audio_system.Clock.Simulated.{
  SimulatedPlayback, consume, count_item, count_kind, count_samples, play_frame, play_item,
}
use distributed_audio_system.Float.{Float}
use distributed_audio_system.Jitter.{PlaybackItem, PullStatus, missing, playing}
use distributed_audio_system.Jitter.Playback.{is_played}
use distributed_audio_system.Prelude.{
  Bool, Bool-cases, List, Option, Result, [], ap, arith, err, false, if◌then◌else◌, inl, inr,
  length, none, ok, refl, some, suc, sym, true, ℕ, ◌&&◌, ◌++◌, ◌+◌, ◌<◌, ◌^◌, ◌∙◌, ◌∷◌, ◌≡◌,
}
use distributed_audio_system.Samples.{SampleError, pcm16_to_float}
use distributed_audio_system.Sequence.{add_u64}

-- The numbers of the items that are played, the times that there was none, and the substitutes.
abbrev pub played_numbers : List PlaybackItem → List ℕ
played_numbers [] = []
played_numbers (item ∷ items) =
    if is_played item.status
    then item.sequence_number ∷ played_numbers items
    else played_numbers items

abbrev pub is_underrun : PullStatus → Bool
is_underrun PullStatus.not_ready = true
is_underrun _ = false

abbrev pub underruns_of : List PlaybackItem → ℕ
underruns_of [] = 0
underruns_of (item ∷ items) =
    if is_underrun item.status then suc (underruns_of items) else underruns_of items

abbrev pub substitutes_of : List PlaybackItem → ℕ
substitutes_of [] = 0
substitutes_of (item ∷ items) =
    if is_played item.status && item.concealed
    then suc (substitutes_of items)
    else substitutes_of items

-- The counters after some items.
pub record Totals {ℓ} {F : Type ℓ} (p q : SimulatedPlayback F) (items : List PlaybackItem)
    : Type 0 where
  pub order : q.playback_sequence ≡ p.playback_sequence ++ played_numbers items
  pub total :
      q.total_frames_processed ≡ add_u64 p.total_frames_processed (length (played_numbers items))
  pub starved : q.underruns ≡ add_u64 p.underruns (underruns_of items)
  pub substituted :
      q.concealed_frames_played ≡ add_u64 p.concealed_frames_played (substitutes_of items)
  pub parts :
      add_u64 (q.real_frames_played + q.concealed_frames_played) p.total_frames_processed
      ≡ add_u64 (p.real_frames_played + p.concealed_frames_played) q.total_frames_processed

-- The counters are numbers of 64 bits.
pub record InRange {ℓ} {F : Type ℓ} (p : SimulatedPlayback F) : Type 0 where
  pub total_range : p.total_frames_processed < 2 ^ 64
  pub starved_range : p.underruns < 2 ^ 64
  pub substituted_range : p.concealed_frames_played < 2 ^ 64

module _ {ℓ} {F : Type ℓ} ⦃f : Float F⦄ where
  unfoldable pub consume_all :
      SimulatedPlayback F → List PlaybackItem → Result SampleError (SimulatedPlayback F)
  consume_all p [] = ok p
  consume_all p (item ∷ items) = elim (consume p item) [
    | err e ↦ err e
    | ok q ↦ consume_all q items
  ]

  -- Playing a frame leaves the other counters alone.
  play_frame-fields :
      (p q : SimulatedPlayback F) (frame : Option AudioFrame)
      → play_frame p frame ≡ ok q
      → q ≡ record p {
        samples_played = q.samples_played;
        payload_checksum = q.payload_checksum;
        peak_level = q.peak_level;
      }
  unfolding play_frame
  play_frame-fields p q none e = let same : q ≡ p = cc in rw same refl
  play_frame-fields p q (some frame) e = go (pcm16_to_float frame) refl
    where
      go :
          (r : Result SampleError (List F))
          → pcm16_to_float frame ≡ r
          → q ≡ record p {
            samples_played = q.samples_played;
            payload_checksum = q.payload_checksum;
            peak_level = q.peak_level;
          }
      go (err x) h =
          let failed : play_frame p (some frame) ≡ err x = rw (h, play_frame) refl in absurd cc
      go (ok samples) h =
          let success : play_frame p (some frame) ≡ ok (count_samples p frame samples) =
            rw (h, play_frame) refl in
          let result : q ≡ count_samples p frame samples = cc in rw result refl

  play_item-Totals :
      (p q : SimulatedPlayback F) (item : PlaybackItem)
      → is_played item.status ≡ true
      → play_item p item ≡ ok q
      → InRange p
      → Totals p q (item ∷ []) × InRange q
  play_item-Totals p q item plays e r = go (play_frame (count_item p item) item.frame) refl
    where
      go :
          (x : Result SampleError (SimulatedPlayback F))
          → play_frame (count_item p item) item.frame ≡ x
          → Totals p q (item ∷ []) × InRange q
      go (err x) h = let failed : play_item p item ≡ err x = rw (h, play_item) refl in absurd cc
      go (ok x) h =
          let fields = play_frame-fields (count_item p item) x item.frame h in
          let success : play_item p item ≡ ok (count_kind x item.concealed) =
            rw (h, play_item) refl in
          let result : q ≡ count_kind x item.concealed = cc in
          rw (result, fields)
            (elim (Bool-cases item.concealed) [
              | inl substitute ↦ rw substitute (ground (arith, plays))
              | inr real ↦ rw real (ground (arith, plays))
            ])

  consume-Totals :
      (p q : SimulatedPlayback F) (item : PlaybackItem)
      → consume p item ≡ ok q
      → InRange p
      → Totals p q (item ∷ []) × InRange q
  unfolding consume
  consume-Totals p q item e r = go item.status refl
    where
      go : (s : PullStatus) → item.status ≡ s → Totals p q (item ∷ []) × InRange q
      go playing h = play_item-Totals p q item (rw h refl) (sym (rw (h, consume) refl) ∙ e) r
      go missing h = play_item-Totals p q item (rw h refl) (sym (rw (h, consume) refl) ∙ e) r
      go PullStatus.not_ready h =
          let waits : consume p item ≡ ok (record p { underruns = add_u64 p.underruns 1 }) =
            rw (h, consume) refl in
          let result : q ≡ record p { underruns = add_u64 p.underruns 1 } = cc in
          rw result (ground (arith, h, append-nil p.playback_sequence))
      go PullStatus.stopped h =
          let waits : consume p item ≡ ok p = rw (h, consume) refl in
          let result : q ≡ p = cc in rw result (ground (arith, h, append-nil p.playback_sequence))

  then-Totals :
      (p q r : SimulatedPlayback F) (item : PlaybackItem) (items : List PlaybackItem)
      → Totals p q (item ∷ [])
      → Totals q r items
      → Totals p r (item ∷ items)
  then-Totals p q r item items a b = record {
    order =
        b.order
        ∙ ap (λ l. l ++ played_numbers items) a.order
        ∙ append_assoc p.playback_sequence _ (played_numbers items)
        ∙ elim (Bool-cases (is_played item.status)) [
          | inl plays ↦ rw plays refl
          | inr waits ↦ rw waits refl
        ];
    total = ground (arith, a.total, b.total);
    starved = ground (arith, a.starved, b.starved);
    substituted = ground (arith, a.substituted, b.substituted);
    parts = omega (arith, a.parts, b.parts);
  }

  -- Over any items that are consumed without an exception: the numbers of the items with a frame or a substitute are
  -- appended to the sequence, in their order; the total grows by their number, the underruns by that of the
  -- times that there was none, and the concealed frames by that of the substitutes, modulo 2 ^ 64; and the real
  -- frames make up the rest. The counters start in 64 bits.
  pub consume_all-Totals :
      (p q : SimulatedPlayback F) (items : List PlaybackItem)
      → consume_all p items ≡ ok q
      → InRange p
      → Totals p q items
  unfolding consume_all
  consume_all-Totals p q [] e r =
      let same : q ≡ p = cc in rw same (ground (arith, append-nil p.playback_sequence))
  consume_all-Totals p q (item ∷ items) e r =
      go (consume p item) refl (λ x h range. consume_all-Totals x q items h range)
    where
      go :
          (x : Result SampleError (SimulatedPlayback F))
          → consume p item ≡ x
          → ((x : SimulatedPlayback F) → consume_all x items ≡ ok q → InRange x → Totals x q items)
          → Totals p q (item ∷ items)
      go (err x) h later =
          let failed : consume_all p (item ∷ items) ≡ err x = rw (h, consume_all) refl in absurd cc
      go (ok x) h later =
          let (one, range) = consume-Totals p x item h r in
          let rest : consume_all x items ≡ ok q = sym (rw (h, consume_all) refl) ∙ e in
          then-Totals p x q item items one (later x rest range)
