-- ===== src/Stream/Receiver/Steps.antt =====
-- What `poll` and `playback_step` of the receiver of src/audio_stream.cpp change.
use distributed_audio_system.Audio.{AudioFrame}
use distributed_audio_system.Bytes.{IsByte}
use distributed_audio_system.Clock.Simulated.{SimulatedPlayback, consume}
use distributed_audio_system.Clock.Simulated.Playable.{consume_pcm}
use distributed_audio_system.Float.{Float, Floats}
use distributed_audio_system.Jitter.{pop}
use distributed_audio_system.Jitter.Insert.{insert-Inv}
use distributed_audio_system.Jitter.Pcm.{insert-PcmBuffer, pop-PcmBuffer}
use distributed_audio_system.Jitter.Playback.{is_played, pop-Pops}
use distributed_audio_system.Jitter.Pop.{pop-Inv}
use distributed_audio_system.Jitter.Trace.{insert_keeps}
use distributed_audio_system.Prelude.{
  All, Bool, Bool-cases, List, Option, [], ap, false, if◌then◌else◌, inl, inr, length, ltb, none,
  ok, refl, some, suc, true, ℕ, ◌++◌, ◌∙◌, ◌∷◌, ◌≡◌,
}
use distributed_audio_system.Prelude.Int.{ℤ}
use distributed_audio_system.Sequence.{add_u64}
use distributed_audio_system.Stream.{frame_matches, is_running}
use distributed_audio_system.Stream.Receiver.{
  AudioStreamReceiver, accept_frame, count_datagram, count_malformed, is_too_early, poll_datagrams,
  receive_size, take_datagram, take_frame,
}
use distributed_audio_system.Stream.Receiver.Accounts.{poll_datagrams_step}
use distributed_audio_system.Stream.Receiver.Changes.{Change, Streaming, heard, lost, quiet}
use distributed_audio_system.Stream.Receiver.Playback.{decision_of, playback_step, played_item}
use distributed_audio_system.Stream.Totality.{Decoded, deserialize_media_total}

module _ {ℓ κ} {F : Type ℓ} {D : Type κ} ⦃f : Float F⦄ ⦃m : Floats D⦄ where
  -- A datagram changes the buffer by an insertion at most.
  pub record Receives (r r' : AudioStreamReceiver F D) : Type 0 where
    pub still : Streaming r'
    pub next_kept : r'.jitter_buffer.next_sequence ≡ r.jitter_buffer.next_sequence
    pub sequence_kept : r'.playback.playback_sequence ≡ r.playback.playback_sequence

  take_frame-Receives :
      (r : AudioStreamReceiver F D) (arrival : ℤ) (o : Option AudioFrame)
      → Streaming r
      → Decoded o
      → Receives r (take_frame (count_datagram r) arrival o).0
  unfolding accept_frame
  take_frame-Receives r arrival none v d = record {
    still = record { runs = v.runs; inv = v.inv; pcm = v.pcm; initialized = v.initialized };
    next_kept = refl;
    sequence_kept = refl;
  }
  take_frame-Receives r arrival (some frame) v d =
      elim (Bool-cases (frame_matches frame r.config)) [
        | inr other ↦ rw other (record {
          still = record { runs = v.runs; inv = v.inv; pcm = v.pcm; initialized = v.initialized };
          next_kept = refl;
          sequence_kept = refl;
        })
        | inl fits ↦
            let keeps = insert_keeps r.jitter_buffer frame v.initialized in
            rw fits (record {
              still = record {
                runs = v.runs;
                inv = insert-Inv r.jitter_buffer frame v.inv d.0 d.1;
                pcm = insert-PcmBuffer r.jitter_buffer frame v.pcm d.2;
                initialized = keeps.1;
              };
              next_kept = keeps.0;
              sequence_kept = refl;
            })
      ]

  take_datagram-Receives :
      (r : AudioStreamReceiver F D) (arrival : ℤ) (packet : List ℕ)
      → All IsByte packet
      → Streaming r
      → (x : AudioStreamReceiver F D × Bool) × (take_datagram r arrival packet ≡ some x)
        × Receives r x.0
  unfolding take_datagram
  take_datagram-Receives r arrival packet bytes v =
      elim (Bool-cases (ltb receive_size (length packet))) [
        | inl long ↦ (
          (count_malformed (count_datagram r), false),
          rw long refl,
          record {
            still = record { runs = v.runs; inv = v.inv; pcm = v.pcm; initialized = v.initialized };
            next_kept = refl;
            sequence_kept = refl;
          },
        )
        | inr fits ↦
            let (o, answer, decoded) = deserialize_media_total r.session_id packet bytes in
            (
              take_frame (count_datagram r) arrival o,
              rw (fits, answer) refl,
              take_frame-Receives r arrival o v decoded,
            )
      ]

  pub take_datagrams-Receives :
      (r : AudioStreamReceiver F D) (arrival : ℤ) (packets : List (List ℕ))
      → All (All IsByte) packets
      → Streaming r
      → (r' : AudioStreamReceiver F D) × (n : ℕ) × (poll_datagrams r arrival packets ≡ some (r', n))
        × Receives r r'
  unfolding poll_datagrams
  take_datagrams-Receives r arrival [] bytes v =
      (r, 0, refl, record { still = v; next_kept = refl; sequence_kept = refl })
  take_datagrams-Receives r arrival (packet ∷ packets) bytes v =
      let ((one, processed), answer, kept) = take_datagram-Receives r arrival packet bytes.0 v in
      let (r', n, rest, later) = take_datagrams-Receives one arrival packets bytes.1 kept.still in
      (
        r',
        if processed then suc n else n,
        poll_datagrams_step r one r' arrival packet packets processed n answer rest,
        record {
          still = later.still;
          next_kept = later.next_kept ∙ kept.next_kept;
          sequence_kept = later.sequence_kept ∙ kept.sequence_kept;
        },
      )

  -- A step of a running receiver, by what it takes from the buffer.
  step_waits :
      (r : AudioStreamReceiver F D) (now : ℤ)
      → is_running r.state ≡ true
      → is_played (pop r.jitter_buffer now).1.status ≡ false
      → playback_step r now ≡ ok (record r { jitter_buffer = (pop r.jitter_buffer now).0 }, 0)
  unfolding playback_step
  step_waits r now runs waits = rw (runs, waits) refl

  step_early :
      (r : AudioStreamReceiver F D) (now : ℤ)
      → is_running r.state ≡ true
      → is_played (pop r.jitter_buffer now).1.status ≡ true
      → is_too_early (
          decision_of
            (record r { jitter_buffer = (pop r.jitter_buffer now).0 })
            (pop r.jitter_buffer now).1
            now)
        ≡ true
      → playback_step r now ≡ ok (record r { jitter_buffer = (pop r.jitter_buffer now).0 }, 0)
  unfolding playback_step
  step_early r now runs plays early = rw (runs, plays, early) refl

  step_plays :
      (r : AudioStreamReceiver F D) (now : ℤ) (q : SimulatedPlayback F)
      → is_running r.state ≡ true
      → is_played (pop r.jitter_buffer now).1.status ≡ true
      → is_too_early (
          decision_of
            (record r { jitter_buffer = (pop r.jitter_buffer now).0 })
            (pop r.jitter_buffer now).1
            now)
        ≡ false
      → consume r.playback (pop r.jitter_buffer now).1 ≡ ok q
      → playback_step r now
        ≡ ok (
          played_item
              (record r { jitter_buffer = (pop r.jitter_buffer now).0 })
              q
              (pop r.jitter_buffer now).1,
          1,
        )
  unfolding playback_step
  step_plays r now q runs plays due e = rw (runs, plays, due, e) refl

  pub playback_step-Change :
      (r : AudioStreamReceiver F D) (now : ℤ)
      → Streaming r
      → (r' : AudioStreamReceiver F D) × (n : ℕ) × (playback_step r now ≡ ok (r', n))
        × Streaming r'
        × Change r r'
  playback_step-Change r now v =
      let b = (pop r.jitter_buffer now).0 in
      let item = (pop r.jitter_buffer now).1 in
      let p = pop-Pops r.jitter_buffer now v.inv in
      let (pcm, frame_pcm) = pop-PcmBuffer r.jitter_buffer now v.pcm in
      let still : Streaming (record r { jitter_buffer = b }) = record {
        runs = v.runs;
        inv = pop-Inv r.jitter_buffer now v.inv;
        pcm = pcm;
        initialized = p.keeps_started ∙ v.initialized;
      } in
      elim (Bool-cases (is_played item.status)) [
        | inr waits ↦ (
          record r { jitter_buffer = b },
          0,
          step_waits r now v.runs waits,
          still,
          quiet (p.moves ∙ rw waits refl) refl,
        )
        | inl plays ↦
            let next : b.next_sequence ≡ add_u64 r.jitter_buffer.next_sequence 1 =
              p.moves ∙ rw plays refl in
            elim (Bool-cases
              (is_too_early (decision_of (record r { jitter_buffer = b }) item now))) [
                | inl early ↦ (
                  record r { jitter_buffer = b },
                  0,
                  step_early r now v.runs plays early,
                  still,
                  lost next refl,
                )
                | inr due ↦
                    let (q, consumed, appended) = consume_pcm r.playback item plays frame_pcm in
                    (
                      played_item (record r { jitter_buffer = b }) q item,
                      1,
                      step_plays r now q v.runs plays due consumed,
                      record {
                        runs = still.runs;
                        inv = still.inv;
                        pcm = still.pcm;
                        initialized = still.initialized;
                      },
                      heard next
                          (appended ∙ ap (λ n. r.playback.playback_sequence ++ n ∷ []) p.number),
                    )
              ]
      ]
