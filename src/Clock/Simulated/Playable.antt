-- ===== src/Clock/Simulated/Playable.antt =====
-- Frames that src/simulated_playback.cpp consumes without an exception.
use distributed_audio_system.Audio.{AudioFrame}
use distributed_audio_system.Clock.Simulated.{
  SimulatedPlayback, consume, count_item, count_kind, count_samples, play_frame, play_item,
}
use distributed_audio_system.Float.{Float}
use distributed_audio_system.Jitter.{PlaybackItem, PullStatus, missing, playing}
use distributed_audio_system.Jitter.Pcm.{PcmFrame}
use distributed_audio_system.Jitter.Playback.{is_played}
use distributed_audio_system.Prelude.{
  Bool, OfOption, Option, [], arith, false, none, ok, refl, some, true, ◌++◌, ◌∙◌, ◌∷◌, ◌≡◌,
}
use distributed_audio_system.Samples.{samples_of}
use distributed_audio_system.Samples.Output.{pcm16_to_float_lem}
use distributed_audio_system.Sequence.{add_u64}

module _ {ℓ} {F : Type ℓ} ⦃f : Float F⦄ where
  play_frame_pcm :
      (p : SimulatedPlayback F) (o : Option AudioFrame)
      → OfOption PcmFrame o
      → (q : SimulatedPlayback F) × (play_frame p o ≡ ok q)
        × (q.playback_sequence ≡ p.playback_sequence)
  unfolding play_frame
  play_frame_pcm p none v = (p, refl, refl)
  play_frame_pcm p (some frame) v = (
    count_samples p frame (samples_of frame.payload),
    rw (pcm16_to_float_lem {F = F} frame v.pcm_valid v.pcm_bits v.pcm_even, play_frame) refl,
    refl,
  )

  count_kind_sequence :
      (p : SimulatedPlayback F) (b : Bool)
      → (count_kind p b).playback_sequence ≡ p.playback_sequence
  count_kind_sequence p true = refl
  count_kind_sequence p false = refl

  play_item_ok :
      (p q : SimulatedPlayback F) (item : PlaybackItem)
      → play_frame (count_item p item) item.frame ≡ ok q
      → play_item p item ≡ ok (count_kind q item.concealed)
  play_item_ok p q item e = rw (e, play_item) refl

  pub consume_pcm :
      (p : SimulatedPlayback F) (item : PlaybackItem)
      → is_played item.status ≡ true
      → OfOption PcmFrame item.frame
      → (q : SimulatedPlayback F) × (consume p item ≡ ok q)
        × (q.playback_sequence ≡ p.playback_sequence ++ item.sequence_number ∷ [])
  unfolding consume
  consume_pcm p item plays v =
      let (q, played_frame, same) = play_frame_pcm (count_item p item) item.frame v in
      (
        count_kind q item.concealed,
        go item.status refl ∙ play_item_ok p q item played_frame,
        count_kind_sequence q item.concealed ∙ same,
      )
    where
      go : (s : PullStatus) → item.status ≡ s → consume p item ≡ play_item p item
      go playing h = rw (h, consume) refl
      go missing h = rw (h, consume) refl
      go PullStatus.not_ready h = absurd (ground (arith, h, plays))
      go PullStatus.stopped h = absurd (ground (arith, h, plays))

  pub consume_quiet :
      (p : SimulatedPlayback F) (item : PlaybackItem)
      → is_played item.status ≡ false
      → (q : SimulatedPlayback F) × (consume p item ≡ ok q)
        × (q.playback_sequence ≡ p.playback_sequence)
  unfolding consume
  consume_quiet p item quiet = go item.status refl
    where
      go :
          (s : PullStatus)
          → item.status ≡ s
          → (q : SimulatedPlayback F) × (consume p item ≡ ok q)
            × (q.playback_sequence ≡ p.playback_sequence)
      go PullStatus.not_ready h =
          (record p { underruns = add_u64 p.underruns 1 }, rw (h, consume) refl, refl)
      go PullStatus.stopped h = (p, rw (h, consume) refl, refl)
      go playing h = absurd (ground (arith, h, quiet))
      go missing h = absurd (ground (arith, h, quiet))
