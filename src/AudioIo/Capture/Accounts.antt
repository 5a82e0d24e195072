-- ===== src/AudioIo/Capture/Accounts.antt =====
-- What becomes of the frames that are offered to CaptureBuffer of src/audio_io.cpp.
use mathlib.Core.List.{append-nil, append_assoc}
use distributed_audio_system.Audio.{AudioFrame}
use distributed_audio_system.AudioIo.Capture.{CaptureBuffer, capture_buffer, close, pop, push}
use distributed_audio_system.AudioIo.Capture.Calls.{
  Call, Flow, call, calls, closing, frame_out, offers, popping, pushing, then_flow,
}
use distributed_audio_system.AudioIo.Capture.Steps.{Accounted, CaptureInv, call-Accounted}
use distributed_audio_system.Prelude.{
  Bool-cases, List, Option, [], ap, arith, false, inl, inr, length, length-append, none, refl, some,
  subst, sym, ℕ, ◌%◌, ◌++◌, ◌+◌, ◌^◌, ◌∙◌, ◌∷◌, ◌≡◌, ◌≤◌,
}
use distributed_audio_system.Sequence.{add_u64}

append-empty : (xs ys : List AudioFrame) → xs ++ ys ≡ [] → (xs ≡ []) × (ys ≡ [])
append-empty [] ys e = (refl, e)
append-empty (x ∷ xs) ys e = cc

-- Two flows one after the other, of which the first threw nothing away.
flow_open :
    (held middle last a₁ d₁ a₂ d₂ c₂ : List AudioFrame)
    → held ++ a₁ ≡ d₁ ++ middle
    → middle ++ a₂ ≡ d₂ ++ (c₂ ++ last)
    → held ++ (a₁ ++ a₂) ≡ (d₁ ++ d₂) ++ (c₂ ++ last)
flow_open held middle last a₁ d₁ a₂ d₂ c₂ p q =
    sym (append_assoc held a₁ a₂)
    ∙ ap (λ l. l ++ a₂) p
    ∙ append_assoc d₁ middle a₂
    ∙ ap (◌++◌ d₁) q
    ∙ sym (append_assoc d₁ d₂ (c₂ ++ last))

then-Accounted :
    (a b c : CaptureBuffer) (x y : Flow)
    → CaptureInv b
    → Accounted a b x
    → Accounted b c y
    → Accounted a c (then_flow x y)
then-Accounted a b c x y v p q = elim (Bool-cases b.closed) [
  | inl shut ↦
      let none_in = q.shut shut in
      let none_left = v.emptied shut in
      let (none_out, none_kept) =
        append-empty y.delivered (y.discarded ++ c.frames)
          (sym q.order ∙ rw (none_left, none_in) refl) in
      let (none_lost, none_held) = append-empty y.discarded c.frames none_kept in
      record {
        order =
            let e : a.frames ++ x.accepted ≡ x.delivered ++ (x.discarded ++ []) =
              p.order ∙ rw none_left refl in
            rw (none_in, none_out, none_lost, none_held)
              (rw (append-nil x.accepted, append-nil x.delivered, append-nil x.discarded)
                (e ∙ rw (append-nil x.discarded) refl));
        captured_count =
            omega (arith, p.captured_count, q.captured_count, length-append x.accepted y.accepted);
        dropped_count = omega (arith, p.dropped_count, q.dropped_count);
        shut = λ e. rw (p.shut e, none_in) refl;
        unshut = λ e. let still = q.stays shut in cc;
        stays = λ e. q.stays (p.stays e);
        kept_capacity = q.kept_capacity ∙ p.kept_capacity;
      }
  | inr open_ ↦
      let none_lost = p.unshut open_ in
      record {
        order = rw none_lost (
            flow_open a.frames b.frames c.frames x.accepted x.delivered y.accepted y.delivered
              y.discarded (p.order ∙ rw none_lost refl) q.order);
        captured_count =
            omega (arith, p.captured_count, q.captured_count, length-append x.accepted y.accepted);
        dropped_count = omega (arith, p.dropped_count, q.dropped_count);
        shut = λ e. let still = p.stays e in cc;
        unshut = λ e. rw (none_lost, q.unshut e) refl;
        stays = λ e. q.stays (p.stays e);
        kept_capacity = q.kept_capacity ∙ p.kept_capacity;
      }
]

calls-Accounted :
    (b : CaptureBuffer) (cs : List Call)
    → CaptureInv b
    → CaptureInv (calls b cs).0 × Accounted b (calls b cs).0 (calls b cs).1
unfolding calls
calls-Accounted b [] v = (
  v,
  record {
    order = append-nil b.frames;
    captured_count = omega (arith, v.captured_range);
    dropped_count = omega (arith, v.dropped_range);
    shut = λ _. refl;
    unshut = λ _. refl;
    stays = λ e. e;
    kept_capacity = refl;
  },
)
calls-Accounted b (c ∷ cs) v =
    let (w, p) = call-Accounted b c v in
    let (z, q) = calls-Accounted (call b c).0 cs w in
    (z, then-Accounted b (call b c).0 (calls (call b c).0 cs).0 (call b c).1 _ w p q)

frame_out_lem :
    (o : Option AudioFrame) → ((frame_out o).accepted ≡ []) × ((frame_out o).refused ≡ 0)
frame_out_lem none = (refl, refl)
frame_out_lem (some f) = (refl, refl)

calls-offers :
    (b : CaptureBuffer) (cs : List Call)
    → length (calls b cs).1.accepted + (calls b cs).1.refused ≡ offers cs
unfolding calls offers push
calls-offers b [] = refl
calls-offers b (pushing f ∷ cs) = ground (arith, calls-offers (call b (pushing f)).0 cs)
calls-offers b (popping ∷ cs) =
    let (nothing, zero_) = frame_out_lem (pop b).1 in
    ground (arith, nothing, zero_, calls-offers (pop b).0 cs)
calls-offers b (closing ∷ cs) = ground (arith, calls-offers (close b) cs)

-- From the constructor on, whatever is called: the frames that were accepted are, in their order, those
-- delivered, those thrown away by `close` and those still held, which are no more than the capacity; and the
-- counters are the numbers of accepted and of refused frames, which make up all that were offered, modulo 2 ^ 64.
pub capture_accounts :
    (capacity : ℕ) (b : CaptureBuffer) (cs : List Call)
    → capture_buffer capacity ≡ some b
    → let x = (calls b cs).1 in
      let c = (calls b cs).0 in
      (x.accepted ≡ x.delivered ++ (x.discarded ++ c.frames))
      × (length c.frames ≤ capacity)
      × (c.statistics.captured_frames ≡ length x.accepted % 2 ^ 64)
      × (c.statistics.dropped_frames ≡ x.refused % 2 ^ 64)
      × (length x.accepted + x.refused ≡ offers cs)
unfolding capture_buffer
capture_accounts capacity b cs e =
    let fresh : b ≡ record {
      capacity = capacity;
      frames = [];
      statistics = record { captured_frames = 0; dropped_frames = 0; captured_samples = 0 };
      closed = false;
    } =
      ground arith in
    let v : CaptureInv b = rw fresh (record {
      bound = omega arith;
      emptied = λ _. refl;
      captured_range = omega arith;
      dropped_range = omega arith;
    }) in
    let (w, p) = calls-Accounted b cs v in
    (
      ap (λ (x : CaptureBuffer). x.frames ++ (calls b cs).1.accepted) (sym fresh) ∙ p.order,
      subst (λ n. length (calls b cs).0.frames ≤ n)
          (p.kept_capacity ∙ ap (λ (x : CaptureBuffer). x.capacity) fresh) w.bound,
      p.captured_count
          ∙ ap
              (λ (x : CaptureBuffer).
                add_u64 x.statistics.captured_frames (length (calls b cs).1.accepted))
              fresh
          ∙ omega arith,
      p.dropped_count
          ∙ ap (λ (x : CaptureBuffer). add_u64 x.statistics.dropped_frames (calls b cs).1.refused)
              fresh
          ∙ omega arith,
      calls-offers b cs,
    )
