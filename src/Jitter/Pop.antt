-- ===== src/Jitter/Pop.antt =====
-- `pop` and `close` of src/jitter_buffer.cpp, and the invariant.
use distributed_audio_system.Audio.{AudioFrame}
use distributed_audio_system.Audio.Laws.{IsFrame}
use distributed_audio_system.Jitter.{
  BufferState, JitterBuffer, close, is_buffering, is_stopped, make_concealed_frame, pop, pop_found,
  pop_missing, refresh_state,
}
use distributed_audio_system.Jitter.Invariant.{
  ConfigValid, HasFormat, InWindow, Inv, MapInv, rewait-Inv, same_map, stop-Inv,
}
use distributed_audio_system.Prelude.{
  Bool-cases, OfOption, Option-cases, ap, arith, false, inl, inr, length, length-replicate, ltb,
  none, not, refl, some, subst, true, ℕ, ◌&&◌, ◌<◌, ◌==◌, ◌^◌, ◌||◌, ◌≡◌, ◌≤◌,
}
use distributed_audio_system.Prelude.Int.{ltb_ℤ, ℤ, ◌+ℤ◌}
use distributed_audio_system.Prelude.Map.{
  All-erase, All-find, All-other, Distinct-erase, erase, find, find-erase_self, length-erase,
  nat_key,
}
use distributed_audio_system.Sequence.{add_u64}

-- Moving on by one keeps a frame in the window, unless it is the one passed over.
advance-InWindow :
    (next : ℕ) (e : ℕ × AudioFrame)
    → next < 2 ^ 64
    → (e.0 == next) ≡ false
    → InWindow next e
    → InWindow (add_u64 next 1) e
advance-InWindow next (k, f) h other (number, fits, near, frame) =
    (number, fits, ground arith, frame)

refresh_state-Inv :
    (b : JitterBuffer)
    → MapInv b
    → length b.frames ≤ b.statistics.maximum_depth
    → b.statistics.maximum_depth ≤ b.capacity
    → (b.state ≡ BufferState.buffering → length b.frames < b.prebuffer_target)
    → ConfigValid b.config
    → Inv (refresh_state b)
unfolding refresh_state
refresh_state-Inv b m deep bounded filling valid = record {
  map_inv = same_map b _ _ m;
  size_inv = record {
    valid = valid;
    room = omega arith;
    filling = ground (arith, filling);
    drains = ground arith;
    depth = refl;
    deepest = deep;
    bounded = bounded;
  };
}

pop_found-Inv :
    (b : JitterBuffer) (f : AudioFrame)
    → Inv b
    → find b.next_sequence b.frames ≡ some f
    → Inv (pop_found b f).0
unfolding pop_found
pop_found-Inv b f v e =
    let m = v.map_inv in
    let s = v.size_inv in
    let n = length-erase b.next_sequence b.frames f e in
    refresh_state-Inv _
      (record {
        next_fits = omega arith;
        distinct = Distinct-erase b.next_sequence b.frames m.distinct;
        window =
            All-other (InWindow b.next_sequence) (InWindow (add_u64 b.next_sequence 1))
              b.next_sequence (erase b.next_sequence b.frames)
              (find-erase_self b.next_sequence b.frames m.distinct)
              (λ x other p. advance-InWindow b.next_sequence x m.next_fits other p)
              (All-erase (InWindow b.next_sequence) b.next_sequence b.frames m.window);
        formats = All-erase (HasFormat b.format) b.next_sequence b.frames m.formats;
        paired = m.paired;
        previous = (All-find (InWindow b.next_sequence) b.next_sequence b.frames m.window e).3;
        started = λ u. absurd (omega (arith, n, ap length (m.started u)));
      })
      (omega (arith, n, s.depth, s.deepest)) s.bounded (λ u. omega (arith, n, s.filling u)) s.valid

-- A substitute has the format, and so the size and the alignment, of the frame before it.
pub concealed-IsFrame :
    (b : JitterBuffer) (f : AudioFrame)
    → OfOption IsFrame b.previous_frame
    → make_concealed_frame b ≡ some f
    → IsFrame f × (f.sequence_number ≡ b.next_sequence)
unfolding make_concealed_frame
concealed-IsFrame b f p e = elim (Option-cases b.previous_frame) [
  | inl nothing ↦ absurd (ground (arith, nothing))
  | inr (g, before) ↦
      let v : IsFrame g = subst (OfOption IsFrame) before p in
      let n = length-replicate {A = ℕ} (length g.payload) 0 in
      (ground (arith, before, n, v.valid, v.whole, v.aligned), ground (arith, before))
]

pop_missing-Inv :
    (b : JitterBuffer) (now : ℤ)
    → Inv b
    → find b.next_sequence b.frames ≡ none
    → Inv (pop_missing b now).0
unfolding pop_missing
pop_missing-Inv b now v absent =
    let m = v.map_inv in
    let s = v.size_inv in
    elim (Bool-cases b.waiting_for_missing) [
      | inl waits ↦ elim (Bool-cases (ltb_ℤ now b.missing_deadline)) [
        | inl early ↦ simp (waits, early) v
        | inr due ↦ elim (Option-cases (make_concealed_frame b)) [
          | inl nothing ↦ simp (waits, due, nothing) (simp (← waits) (stop-Inv b v))
          | inr (f, e) ↦
              simp (waits, due, e)
                (refresh_state-Inv _
                  (record {
                    next_fits = omega arith;
                    distinct = m.distinct;
                    window =
                        All-other (InWindow b.next_sequence) (InWindow (add_u64 b.next_sequence 1))
                          b.next_sequence b.frames absent
                          (λ x other p. advance-InWindow b.next_sequence x m.next_fits other p)
                          m.window;
                    formats = m.formats;
                    paired = m.paired;
                    previous = m.previous;
                    started = m.started;
                  })
                  (omega (arith, s.depth, s.deepest)) s.bounded s.filling s.valid)
        ]
      ]
      | inr starts ↦ simp starts (rewait-Inv b true (now +ℤ b.missing_wait) v)
    ]

pub pop-Inv : (b : JitterBuffer) (now : ℤ) → Inv b → Inv (pop b now).0
unfolding pop
pop-Inv b now v = elim (Bool-cases (is_stopped b.state && length b.frames == 0)) [
  | inl over ↦ simp over v
  | inr going ↦
      elim (Bool-cases (
        not b.sequence_initialized
        || is_buffering b.state && ltb (length b.frames) b.prebuffer_target)) [
          | inl early ↦ simp (going, early) v
          | inr started ↦ elim (Option-cases (find b.next_sequence b.frames)) [
            | inl absent ↦ simp (going, started, absent) (pop_missing-Inv b now v absent)
            | inr (f, present) ↦ simp (going, started, present) (pop_found-Inv b f v present)
          ]
        ]
]

pub close-Inv : (b : JitterBuffer) → Inv b → Inv (close b)
unfolding close
close-Inv b v =
    let s = v.size_inv in
    refresh_state-Inv _ (same_map b b.statistics _ v.map_inv) (omega (arith, s.depth, s.deepest))
      s.bounded (λ e. absurd (ground (arith, e))) s.valid
