-- ===== src/Synchronization/Advance/Sound.antt =====
-- What `advance` of src/multi_device_sync.cpp keeps of an endpoint.
use distributed_audio_system.Clock.Simulated.{SimulatedPlayback, consume}
use distributed_audio_system.Clock.Simulated.Playable.{consume_pcm, consume_quiet}
use distributed_audio_system.Float.{Float, Floats}
use distributed_audio_system.Impairment.{ImpairedFrame}
use distributed_audio_system.Jitter.{InsertResult, PlaybackItem, insert, pop}
use distributed_audio_system.Jitter.Insert.{insert-Inv}
use distributed_audio_system.Jitter.Invariant.{Inv}
use distributed_audio_system.Jitter.Pcm.{PcmBuffer, insert-PcmBuffer, pop-PcmBuffer}
use distributed_audio_system.Jitter.Playback.{is_played}
use distributed_audio_system.Jitter.Pop.{pop-Inv}
use distributed_audio_system.Prelude.{
  All, Bool-cases, List, [], ap, arith, inl, inr, length, not, ok, refl, subst, sym, ◌%◌, ◌+◌, ◌^◌,
  ◌||◌, ◌∷◌, ◌≡◌,
}
use distributed_audio_system.Prelude.Int.{ltb_ℤ, ℤ}
use distributed_audio_system.Sequence.{add_u64}
use distributed_audio_system.Synchronization.{
  EndpointMetrics, PlaybackEndpoint, is_stopped_endpoint,
}
use distributed_audio_system.Synchronization.Advance.{
  advance, count_insertion, count_item, play_next, receive_event, receive_until, refreshed,
}
use distributed_audio_system.Synchronization.Advance.Order.{
  InOrder, Playable, insert-InOrder, pop-InOrder,
}

abbrev pub AllPlayable : List ImpairedFrame → Type 0
AllPlayable = All (λ (a : ImpairedFrame). Playable a.frame)

count_insertion_lem {ℓ} :
    {D : Type ℓ} (s : EndpointMetrics D) (r : InsertResult)
    → (count_insertion s r).frames_received ≡ s.frames_received
count_insertion_lem s r = ground arith

count_item_lem {ℓ} :
    {D : Type ℓ} (s : EndpointMetrics D) (item : PlaybackItem)
    → (count_item s item).frames_received ≡ s.frames_received
count_item_lem s item = ground arith

-- The buffer is in order and holds frames of 16 bits, and what was played goes on in it.
pub record Sound {ℓ κ} {F : Type ℓ} {D : Type κ} (e : PlaybackEndpoint F D) : Type 0 where
  pub inv : Inv e.jitter_buffer
  pub pcm : PcmBuffer e.jitter_buffer
  pub order : InOrder e.jitter_buffer e.playback.playback_sequence

module _ {ℓ κ} {F : Type ℓ} {D : Type κ} ⦃f : Float F⦄ ⦃m : Floats D⦄ where
  receive_event-Sound :
      (e : PlaybackEndpoint F D) (a : ImpairedFrame)
      → Sound e
      → Playable a.frame
      → Sound (receive_event e a)
        × ((receive_event e a).metrics.frames_received ≡ add_u64 e.metrics.frames_received 1)
  unfolding receive_event
  receive_event-Sound e a v p = (
    record {
      inv = insert-Inv e.jitter_buffer a.frame v.inv p.0.0 p.0.1;
      pcm = insert-PcmBuffer e.jitter_buffer a.frame v.pcm p.1;
      order = insert-InOrder e.jitter_buffer a.frame _ v.order;
    },
    count_insertion_lem _ (insert e.jitter_buffer a.frame).1,
  )

  receive_until-Sound :
      (e : PlaybackEndpoint F D) (t : ℤ) (as_ : List ImpairedFrame)
      → Sound e
      → AllPlayable as_
      → Sound (receive_until e t as_)
        × AllPlayable (receive_until e t as_).arrivals
        × (((receive_until e t as_).metrics.frames_received
                + length (receive_until e t as_).arrivals)
              % 2 ^ 64
            ≡ (e.metrics.frames_received + length as_) % 2 ^ 64)
  unfolding receive_until
  receive_until-Sound e t [] v ps = (record { inv = v.inv; pcm = v.pcm; order = v.order }, tt, refl)
  receive_until-Sound e t (a ∷ as_) v ps = elim (Bool-cases (ltb_ℤ t a.arrival_time)) [
    | inl early ↦ rw early (record { inv = v.inv; pcm = v.pcm; order = v.order }, ps, refl)
    | inr due ↦
        let (w, one) = receive_event-Sound e a v ps.0 in
        let (w', rest, sum) = receive_until-Sound (receive_event e a) t as_ w ps.1 in
        rw due (w', rest, omega (arith, sum, one))
  ]

  -- The item that a buffer hands out is consumed, and the numbers stay in order.
  consume_popped :
      (e : PlaybackEndpoint F D) (t : ℤ)
      → Sound e
      → (q : SimulatedPlayback F) × (consume e.playback (pop e.jitter_buffer t).1 ≡ ok q)
        × InOrder (pop e.jitter_buffer t).0 q.playback_sequence
  consume_popped e t v =
      let b = (pop e.jitter_buffer t).0 in
      let item = (pop e.jitter_buffer t).1 in
      let played = e.playback.playback_sequence in
      let o = pop-InOrder e.jitter_buffer t played v.inv v.order in
      elim (Bool-cases (is_played item.status)) [
        | inl plays ↦
            let frame_pcm = (pop-PcmBuffer e.jitter_buffer t v.pcm).1 in
            let (q, consumed, appended) = consume_pcm e.playback item plays frame_pcm in
            (q, consumed, subst (InOrder b) (rw plays (sym appended)) o)
        | inr waits ↦
            let (q, consumed, same) = consume_quiet e.playback item waits in
            (q, consumed, subst (InOrder b) (rw waits (sym same)) o)
      ]

  play_next-Sound :
      (e : PlaybackEndpoint F D) (t : ℤ)
      → Sound e
      → (e' : PlaybackEndpoint F D) × (play_next e t ≡ ok e')
        × Sound e'
        × (e'.arrivals ≡ e.arrivals)
        × (e'.metrics.frames_received ≡ e.metrics.frames_received)
  unfolding play_next
  play_next-Sound e t v =
      let (q, consumed, o) = consume_popped e t v in
      let taken : PlaybackEndpoint F D = record e { jitter_buffer = (pop e.jitter_buffer t).0 } in
      (
        record taken { playback = q; metrics = refreshed taken (pop e.jitter_buffer t).1 },
        rw (consumed, play_next) refl,
        record {
          inv = pop-Inv e.jitter_buffer t v.inv;
          pcm = (pop-PcmBuffer e.jitter_buffer t v.pcm).0;
          order = o;
        },
        refl,
        count_item_lem e.metrics (pop e.jitter_buffer t).1,
      )

  pub advance-Sound :
      (e : PlaybackEndpoint F D) (t : ℤ)
      → Sound e
      → AllPlayable e.arrivals
      → (e' : PlaybackEndpoint F D) × (advance e t ≡ ok e')
        × Sound e'
        × AllPlayable e'.arrivals
        × ((e'.metrics.frames_received + length e'.arrivals) % 2 ^ 64
            ≡ (e.metrics.frames_received + length e.arrivals) % 2 ^ 64)
  unfolding advance
  advance-Sound e t v ps = elim (Bool-cases (not e.loaded || is_stopped_endpoint e)) [
    | inl idle ↦ (e, rw idle refl, v, ps, refl)
    | inr runs ↦
        let (w, rest, sum) = receive_until-Sound e t e.arrivals v ps in
        let (e', played, w', same, kept) = play_next-Sound (receive_until e t e.arrivals) t w in
        (
          e',
          rw runs played,
          w',
          subst AllPlayable (sym same) rest,
          rw (kept, ap (λ xs. length xs) same) sum,
        )
  ]
