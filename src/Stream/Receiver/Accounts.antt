-- ===== src/Stream/Receiver/Accounts.antt =====
-- What the receiver of src/audio_stream.cpp makes of the datagrams that arrive.
use distributed_audio_system.Audio.{AudioFrame}
use distributed_audio_system.Bytes.{IsByte}
use distributed_audio_system.Float.{Float, Floats}
use distributed_audio_system.Jitter.Insert.{insert-Inv}
use distributed_audio_system.Jitter.Invariant.{Inv}
use distributed_audio_system.Prelude.{
  All, Bool, Bool-cases, List, Option, [], arith, false, if◌then◌else◌, inl, inr, length, ltb, none,
  refl, some, suc, true, ℕ, ◌%◌, ◌+◌, ◌<◌, ◌^◌, ◌∙◌, ◌∷◌, ◌≡◌,
}
use distributed_audio_system.Prelude.Int.{ℤ}
use distributed_audio_system.Sequence.{
  SequenceTracker, add_u64, observe, observe_next, record_received,
}
use distributed_audio_system.Stream.{frame_matches, is_running}
use distributed_audio_system.Stream.Receiver.{
  AudioStreamReceiver, accept_frame, count_datagram, count_malformed, poll_datagrams, poll_receiver,
  receive_size, take_datagram, take_frame,
}
use distributed_audio_system.Stream.Totality.{Decoded, deserialize_media_total}

observe_received :
    (t : SequenceTracker) (n : ℕ)
    → (observe t n).0.statistics.packets_received ≡ t.statistics.packets_received
unfolding observe observe_next
observe_received t n = ground arith

-- The counters after some datagrams, of which some were processed.
pub record Tally {ℓ κ} {F : Type ℓ} {D : Type κ} (r r' : AudioStreamReceiver F D)
    (datagrams processed : ℕ) : Type 0 where
  pub received :
      r'.statistics.datagrams_received ≡ add_u64 r.statistics.datagrams_received datagrams
  pub parts :
      (r'.statistics.malformed_packets + r'.statistics.incompatible_packets + processed) % 2 ^ 64
      ≡ (r.statistics.malformed_packets + r.statistics.incompatible_packets + datagrams) % 2 ^ 64
  pub tracked :
      r'.sequence_tracker.statistics.packets_received
      ≡ add_u64 r.sequence_tracker.statistics.packets_received processed

-- The counters are numbers of 64 bits.
pub record InRange {ℓ κ} {F : Type ℓ} {D : Type κ} (r : AudioStreamReceiver F D) : Type 0 where
  pub datagrams_range : r.statistics.datagrams_received < 2 ^ 64
  pub tracked_range : r.sequence_tracker.statistics.packets_received < 2 ^ 64

module _ {ℓ κ} {F : Type ℓ} {D : Type κ} ⦃f : Float F⦄ ⦃m : Floats D⦄ where
  -- A datagram was answered, and the counters and the buffer are in order.
  abbrev Taken : AudioStreamReceiver F D → AudioStreamReceiver F D × Bool → Type 0
  Taken r (one, processed) =
      Inv one.jitter_buffer × Tally r one 1 (if processed then 1 else 0) × InRange one

  take_frame-Taken :
      (r : AudioStreamReceiver F D) (arrival : ℤ) (o : Option AudioFrame)
      → Inv r.jitter_buffer
      → InRange r
      → Decoded o
      → Taken r (take_frame (count_datagram r) arrival o)
  unfolding accept_frame record_received
  take_frame-Taken r arrival none v h d = (
    v,
    record { received = refl; parts = omega arith; tracked = omega (arith, h.tracked_range) },
    record { datagrams_range = omega arith; tracked_range = h.tracked_range },
  )
  take_frame-Taken r arrival (some frame) v h d = elim (Bool-cases (frame_matches frame r.config)) [
    | inl fits ↦
        let same = observe_received (record_received r.sequence_tracker) frame.sequence_number in
        rw fits (
          insert-Inv r.jitter_buffer frame v d.0 d.1,
          record { received = refl; parts = omega arith; tracked = same },
          record { datagrams_range = omega arith; tracked_range = omega (arith, same) },
        )
    | inr other ↦ rw other (
      v,
      record { received = refl; parts = omega arith; tracked = omega (arith, h.tracked_range) },
      record { datagrams_range = omega arith; tracked_range = h.tracked_range },
    )
  ]

  take_datagram-Taken :
      (r : AudioStreamReceiver F D) (arrival : ℤ) (packet : List ℕ)
      → All IsByte packet
      → Inv r.jitter_buffer
      → InRange r
      → (x : AudioStreamReceiver F D × Bool) × (take_datagram r arrival packet ≡ some x) × Taken r x
  unfolding take_datagram
  take_datagram-Taken r arrival packet bytes v h =
      elim (Bool-cases (ltb receive_size (length packet))) [
        | inl long ↦ (
          (count_malformed (count_datagram r), false),
          rw long refl,
          (
            v,
            record {
              received = refl;
              parts = omega arith;
              tracked = omega (arith, h.tracked_range);
            },
            record { datagrams_range = omega arith; tracked_range = h.tracked_range },
          ),
        )
        | inr fits ↦
            let (o, answer, decoded) = deserialize_media_total r.session_id packet bytes in
            (
              take_frame (count_datagram r) arrival o,
              rw (fits, answer) refl,
              take_frame-Taken r arrival o v h decoded,
            )
      ]

  pub running_answer :
      (r : AudioStreamReceiver F D) (arrival : ℤ) (packets : List (List ℕ))
      → is_running r.state ≡ true
      → poll_receiver r arrival packets ≡ poll_datagrams r arrival packets
  unfolding poll_receiver
  running_answer r arrival packets runs = rw runs refl

  pub poll_datagrams_step :
      (r one r' : AudioStreamReceiver F D) (arrival : ℤ) (packet : List ℕ) (packets : List (List ℕ))
      (processed : Bool) (n : ℕ)
      → take_datagram r arrival packet ≡ some (one, processed)
      → poll_datagrams one arrival packets ≡ some (r', n)
      → poll_datagrams r arrival (packet ∷ packets) ≡ some (r', if processed then suc n else n)
  unfolding poll_datagrams
  poll_datagrams_step r one r' arrival packet packets processed n p q =
      rw (p, poll_datagrams) (rw q refl)

  poll_datagrams-Tally :
      (r : AudioStreamReceiver F D) (arrival : ℤ) (packets : List (List ℕ))
      → All (All IsByte) packets
      → Inv r.jitter_buffer
      → InRange r
      → (r' : AudioStreamReceiver F D) × (n : ℕ) × (poll_datagrams r arrival packets ≡ some (r', n))
        × Tally r r' (length packets) n
        × Inv r'.jitter_buffer
  unfolding poll_datagrams
  poll_datagrams-Tally r arrival [] bytes v h = (
    r,
    0,
    refl,
    record {
      received = omega (arith, h.datagrams_range);
      parts = refl;
      tracked = omega (arith, h.tracked_range);
    },
    v,
  )
  poll_datagrams-Tally r arrival (packet ∷ packets) bytes v h =
      let ((one, processed), answer, taken) = take_datagram-Taken r arrival packet bytes.0 v h in
      let (kept, tally, range) = taken in
      let (r', n, rest, later, w) = poll_datagrams-Tally one arrival packets bytes.1 kept range in
      (
        r',
        if processed then suc n else n,
        poll_datagrams_step r one r' arrival packet packets processed n answer rest,
        record {
          received = omega (arith, tally.received, later.received);
          parts = ground (arith, tally.parts, later.parts);
          tracked = ground (arith, tally.tracked, later.tracked);
        },
        w,
      )

  -- Whatever datagrams of bytes arrive at a running receiver, no read of `poll` is out of bounds. It counts each datagram once as received;
  -- each one is processed, which its answer and the sequence tracker count, or malformed or incompatible;
  -- and the jitter buffer keeps its invariant. The counters start in 64 bits.
  pub poll_receiver-Tally :
      (r : AudioStreamReceiver F D) (arrival : ℤ) (packets : List (List ℕ))
      → is_running r.state ≡ true
      → All (All IsByte) packets
      → Inv r.jitter_buffer
      → InRange r
      → (r' : AudioStreamReceiver F D) × (n : ℕ) × (poll_receiver r arrival packets ≡ some (r', n))
        × Tally r r' (length packets) n
        × Inv r'.jitter_buffer
  poll_receiver-Tally r arrival packets runs bytes v h =
      let (r', n, answer, tally, w) = poll_datagrams-Tally r arrival packets bytes v h in
      (r', n, running_answer r arrival packets runs ∙ answer, tally, w)
