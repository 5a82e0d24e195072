-- ===== src/Stream/Receiver/Order.antt =====
-- What a listener hears of the receiver of src/audio_stream.cpp, when datagrams arrive and frames are played in turn.
use mathlib.Core.List.{append-nil}
use distributed_audio_system.Bytes.{IsByte}
use distributed_audio_system.Float.{Float, Floats}
use distributed_audio_system.Prelude.{
  All, List, Option, [], arith, err, none, ok, refl, some, suc, sym, ℕ, ◌++◌, ◌^◌, ◌∙◌, ◌∷◌, ◌≡◌,
  ◌≤◌,
}
use distributed_audio_system.Prelude.Int.{ℤ}
use distributed_audio_system.Sequence.{add_u64}
use distributed_audio_system.Stream.Receiver.{AudioStreamReceiver, poll_receiver}
use distributed_audio_system.Stream.Receiver.Accounts.{running_answer}
use distributed_audio_system.Stream.Receiver.Changes.{
  Climbs, Heard, Offsets-Climbs, Streaming, quiet-Heard, then-Heard,
}
use distributed_audio_system.Stream.Receiver.Playback.{playback_step}
use distributed_audio_system.Stream.Receiver.Steps.{playback_step-Change, take_datagrams-Receives}

pub data Event : Type 0 where
  arriving : ℤ → List (List ℕ) → Event
  playing_at : ℤ → Event

abbrev pub EventFits : Event → Type 0
EventFits (arriving arrival packets) = All (All IsByte) packets
EventFits (playing_at now) = Unit

-- The times that a step is played.
abbrev pub playings : List Event → ℕ
playings [] = 0
playings (arriving arrival packets ∷ es) = playings es
playings (playing_at now ∷ es) = suc (playings es)

module _ {ℓ κ} {F : Type ℓ} {D : Type κ} ⦃f : Float F⦄ ⦃m : Floats D⦄ where
  -- One event; `none` is an exception or a read out of bounds.
  abbrev pub event : AudioStreamReceiver F D → Event → Option (AudioStreamReceiver F D)
  event r (arriving arrival packets) = elim (poll_receiver r arrival packets) [
    | none ↦ none
    | some (r', n) ↦ some r'
  ]
  event r (playing_at now) = elim (playback_step r now) [ err e ↦ none | ok (r', n) ↦ some r' ]

  unfoldable pub events : AudioStreamReceiver F D → List Event → Option (AudioStreamReceiver F D)
  events r [] = some r
  events r (e ∷ es) = elim (event r e) [ none ↦ none | some r' ↦ events r' es ]

  events_step :
      (r r' r'' : AudioStreamReceiver F D) (e : Event) (es : List Event)
      → event r e ≡ some r'
      → events r' es ≡ some r''
      → events r (e ∷ es) ≡ some r''
  unfolding events
  events_step r r' r'' e es one rest = rw (one, events) rest

  run-Heard :
      (r : AudioStreamReceiver F D) (es : List Event)
      → Streaming r
      → All EventFits es
      → (r' : AudioStreamReceiver F D) × (events r es ≡ some r')
        × (steps : ℕ) × (steps ≤ playings es)
        × Heard steps r r'
  unfolding events
  run-Heard r [] v h = (
    r,
    refl,
    0,
    omega arith,
    ([], sym (append-nil r.playback.playback_sequence), omega (arith, v.inv.map_inv.next_fits), tt),
  )
  run-Heard r (arriving arrival packets ∷ es) v h =
      let (r', n, answer, kept) = take_datagrams-Receives r arrival packets h.0 v in
      let polled = running_answer r arrival packets v.runs ∙ answer in
      let (r'', rest, steps, bound, later) = run-Heard r' es kept.still h.1 in
      (
        r'',
        events_step r r' r'' (arriving arrival packets) es (rw (polled, event) refl) rest,
        steps,
        bound,
        quiet-Heard steps r r' r'' kept.next_kept kept.sequence_kept later,
      )
  run-Heard r (playing_at now ∷ es) v h =
      let (r', n, answer, still, change) = playback_step-Change r now v in
      let (r'', rest, steps, bound, later) = run-Heard r' es still h.1 in
      let (total, one_more, all) = then-Heard steps r r' r'' v.inv.map_inv.next_fits change later in
      (
        r'',
        events_step r r' r'' (playing_at now) es (rw (answer, event) refl) rest,
        total,
        omega (arith, one_more, bound),
        all,
      )

  -- From a running receiver whose buffer has its invariant, 16-bit frames and its first frame, for datagrams of bytes
  -- and at most 2 ^ 64 steps of the playback in any order: no call fails; the buffer's next number moves on, modulo
  -- 2 ^ 64, by no more than the steps that are played; and the numbers that the playback consumes over the run have 64
  -- bits, and their distances from the buffer's next number at the start go up from each to the one after it and stay
  -- below that by which the next number moved.
  pub events-Climbs :
      (r : AudioStreamReceiver F D) (es : List Event)
      → Streaming r
      → All EventFits es
      → playings es ≤ 2 ^ 64
      → (r' : AudioStreamReceiver F D) × (events r es ≡ some r')
        × (steps : ℕ) × (steps ≤ playings es)
        × (r'.jitter_buffer.next_sequence ≡ add_u64 r.jitter_buffer.next_sequence steps)
        × (numbers : List ℕ) × (r'.playback.playback_sequence
            ≡ r.playback.playback_sequence ++ numbers)
        × Climbs r.jitter_buffer.next_sequence 0 steps numbers
  events-Climbs r es v h few =
      let (r', all, steps, bound, (numbers, appended, moved, offsets)) = run-Heard r es v h in
      (
        r',
        all,
        steps,
        bound,
        moved,
        numbers,
        appended,
        Offsets-Climbs r.jitter_buffer.next_sequence 0 steps numbers v.inv.map_inv.next_fits
            (omega (arith, bound, few)) offsets,
      )
