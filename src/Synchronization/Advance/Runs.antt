-- ===== src/Synchronization/Advance/Runs.antt =====
-- An endpoint of src/multi_device_sync.cpp that is built, loaded, and advanced to some times.
use distributed_audio_system.Audio.{AudioFrame}
use distributed_audio_system.Float.{Float, Floats}
use distributed_audio_system.Impairment.{ImpairedFrame, ImpairmentError, apply_impairment}
use distributed_audio_system.Jitter.{JitterBuffer, JitterConfig, empty_buffer, jitter_buffer}
use distributed_audio_system.Jitter.Invariant.{Inv, jitter_buffer-Inv}
use distributed_audio_system.Jitter.Trace.{count_from}
use distributed_audio_system.Prelude.{
  All, Bool-cases, List, Option, Result, [], ap, arith, err, inl, inr, length, none, not, ok, refl,
  some, subst, sym, ℕ, ◌%◌, ◌+◌, ◌==◌, ◌^◌, ◌||◌, ◌∙◌, ◌∷◌, ◌≡◌,
}
use distributed_audio_system.Prelude.Int.{pos, ℤ}
use distributed_audio_system.Resilience.Frames.{arrivals_keep}
use distributed_audio_system.Samples.{SampleError}
use distributed_audio_system.Synchronization.{
  EndpointConfig, PlaybackEndpoint, endpoint_settings, fresh_endpoint, load, loaded_endpoint,
  playback_endpoint,
}
use distributed_audio_system.Synchronization.Advance.{advance}
use distributed_audio_system.Synchronization.Advance.Order.{InOrder-counted, Playable}
use distributed_audio_system.Synchronization.Advance.Sound.{AllPlayable, Sound, advance-Sound}

jitter_buffer_lem :
    (c : JitterConfig) (b : JitterBuffer) → jitter_buffer c ≡ some b → b ≡ empty_buffer c
unfolding jitter_buffer
jitter_buffer_lem c b e = ground arith

module _ {ℓ κ} {F : Type ℓ} {D : Type κ} ⦃f : Float F⦄ ⦃m : Floats D⦄ where
  -- `advance` at each of some times.
  unfoldable pub advances :
      PlaybackEndpoint F D → List ℤ → Result SampleError (PlaybackEndpoint F D)
  advances e [] = ok e
  advances e (t ∷ ts) = elim (advance e t) [ err x ↦ err x | ok e' ↦ advances e' ts ]

  advances_step :
      (e e' : PlaybackEndpoint F D) (t : ℤ) (ts : List ℤ)
      → advance e t ≡ ok e'
      → advances e (t ∷ ts) ≡ advances e' ts
  unfolding advances
  advances_step e e' t ts one = rw (one, advances) refl

  advances-Sound :
      (e : PlaybackEndpoint F D) (ts : List ℤ)
      → Sound e
      → AllPlayable e.arrivals
      → (e' : PlaybackEndpoint F D) × (advances e ts ≡ ok e')
        × Sound e'
        × ((e'.metrics.frames_received + length e'.arrivals) % 2 ^ 64
            ≡ (e.metrics.frames_received + length e.arrivals) % 2 ^ 64)
  unfolding advances
  advances-Sound e [] v ps = (e, refl, v, refl)
  advances-Sound e (t ∷ ts) v ps =
      let (e1, one, w, rest, sum) = advance-Sound e t v ps in
      let (e2, all, w', sum') = advances-Sound e1 ts w rest in
      (e2, advances_step e e1 t ts one ∙ all, w', sum' ∙ sum)

  fresh_endpoint-Sound :
      (config : EndpointConfig D) (c : JitterConfig)
      → Inv (empty_buffer c)
      → Sound (fresh_endpoint {F = F} config (empty_buffer c))
  fresh_endpoint-Sound config c v = record {
    inv = v;
    pcm = record { entries = tt; previous_pcm = tt };
    order = record { started = λ h. absurd cc; silent = λ h. refl };
  }

  playback_endpoint_lem :
      (config : EndpointConfig D) (capacity prebuffer : ℕ) (wait : ℤ) (e : PlaybackEndpoint F D)
      → playback_endpoint config capacity prebuffer wait ≡ some e
      → Inv (empty_buffer (endpoint_settings capacity prebuffer wait))
        × (e ≡ fresh_endpoint config (empty_buffer (endpoint_settings capacity prebuffer wait)))
  unfolding playback_endpoint
  playback_endpoint_lem config capacity prebuffer wait e made =
      go (jitter_buffer (endpoint_settings capacity prebuffer wait)) refl
    where
      go :
          (o : Option JitterBuffer)
          → jitter_buffer (endpoint_settings capacity prebuffer wait) ≡ o
          → Inv (empty_buffer (endpoint_settings capacity prebuffer wait))
            × (e ≡ fresh_endpoint config (empty_buffer (endpoint_settings capacity prebuffer wait)))
      go none h =
          let failed : playback_endpoint {F = F} config capacity prebuffer wait ≡ none =
            rw (h, playback_endpoint) refl in
          absurd cc
      go (some buffer) h =
          let empty = jitter_buffer_lem (endpoint_settings capacity prebuffer wait) buffer h in
          elim (Bool-cases (length config.name == 0 || not (m.double.is_finite config.drift_ppm))) [
            | inl bad ↦
                let failed : playback_endpoint {F = F} config capacity prebuffer wait ≡ none =
                  rw (h, playback_endpoint) (rw bad refl) in
                absurd cc
            | inr good ↦
                let built : playback_endpoint {F = F} config capacity prebuffer wait
                    ≡ some (fresh_endpoint config buffer) =
                  rw (h, playback_endpoint) (rw good refl) in
                let same : e ≡ fresh_endpoint config buffer = cc in
                (
                  subst Inv empty (jitter_buffer-Inv _ buffer h),
                  same ∙ ap (λ x. fresh_endpoint config x) empty,
                )
          ]

  load_lem :
      (e e1 : PlaybackEndpoint F D) (frames : List AudioFrame) (start : ℤ)
      → All Playable frames
      → load e frames start ≡ ok e1
      → (events : List ImpairedFrame) × AllPlayable events × (e1 ≡ loaded_endpoint e events)
  unfolding load apply_impairment
  load_lem e e1 frames start ps made = go (apply_impairment frames e.config.impairment start) refl
    where
      go :
          (r : Result ImpairmentError (List ImpairedFrame))
          → apply_impairment frames e.config.impairment start ≡ r
          → (events : List ImpairedFrame) × AllPlayable events × (e1 ≡ loaded_endpoint e events)
      go (err x) h = let failed : load e frames start ≡ err x = rw (h, load) refl in absurd cc
      go (ok events) h =
          let loads : load e frames start ≡ ok (loaded_endpoint e events) = rw (h, load) refl in
          (
            events,
            arrivals_keep Playable frames e.config.impairment start (pos 0) _ _ events ps h,
            cc,
          )

  -- An endpoint that is built and loaded with frames such as the constructor of frames lets through, of 16 bits in whole
  -- samples and with 64-bit numbers, is advanced to any times: nothing is thrown; the numbers that it plays
  -- follow one another, none left out and none twice, modulo 2 ^ 64; its buffer keeps its invariant; and the frames that
  -- it received and those that it still waits for are the arrivals that were loaded, modulo 2 ^ 64.
  pub advances-count_from :
      (config : EndpointConfig D) (capacity prebuffer : ℕ) (wait : ℤ) (e e1 : PlaybackEndpoint F D)
      (frames : List AudioFrame) (start : ℤ) (ts : List ℤ)
      → playback_endpoint config capacity prebuffer wait ≡ some e
      → All Playable frames
      → load e frames start ≡ ok e1
      → (e2 : PlaybackEndpoint F D) × (advances e1 ts ≡ ok e2)
        × Inv e2.jitter_buffer
        × ((k : ℕ) × (e2.playback.playback_sequence
              ≡ count_from k (length e2.playback.playback_sequence)))
        × ((e2.metrics.frames_received + length e2.arrivals) % 2 ^ 64 ≡ length e1.arrivals % 2 ^ 64)
  advances-count_from config capacity prebuffer wait e e1 frames start ts built ps loads =
      let (v, same) = playback_endpoint_lem config capacity prebuffer wait e built in
      let (events, ready, same1) = load_lem e e1 frames start ps loads in
      let c = endpoint_settings capacity prebuffer wait in
      let e0 : PlaybackEndpoint F D = fresh_endpoint config (empty_buffer c) in
      let fresh = fresh_endpoint-Sound config c v in
      let (e2, all, w, sum) =
        advances-Sound (loaded_endpoint e0 events) ts
          (record { inv = fresh.inv; pcm = fresh.pcm; order = fresh.order }) ready in
      let eq : e1 ≡ loaded_endpoint e0 events = same1 ∙ ap (λ x. loaded_endpoint x events) same in
      (
        e2,
        ap (λ x. advances x ts) eq ∙ all,
        w.inv,
        InOrder-counted e2.jitter_buffer _ w.order,
        sum
            ∙ ap (λ n. n % 2 ^ 64) (omega arith)
            ∙ ap (λ (x : PlaybackEndpoint F D). length x.arrivals % 2 ^ 64) (sym eq),
      )
