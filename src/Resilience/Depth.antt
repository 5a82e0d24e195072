-- ===== src/Resilience/Depth.antt =====
-- The depth that the buffer of src/network_resilience.cpp aims at.
use distributed_audio_system.Audio.{AudioFrame}
use distributed_audio_system.Audio.Laws.{IsFrame}
use distributed_audio_system.Float.{Float, zero_float}
use distributed_audio_system.Jitter.{JitterBuffer, jitter_buffer}
use distributed_audio_system.Jitter.Insert.{insert-Inv}
use distributed_audio_system.Jitter.Invariant.{Inv, jitter_buffer-Inv, reset-Inv}
use distributed_audio_system.Jitter.Pop.{pop-Inv}
use distributed_audio_system.Prelude.{
  All, Bool-cases, List, Option, [], arith, inl, inr, none, not, refl, some, subst, ℕ, ◌<◌, ◌^◌,
  ◌||◌, ◌∙◌, ◌∷◌, ◌≡◌, ◌≤◌,
}
use distributed_audio_system.Prelude.Int.{ℤ}
use distributed_audio_system.Resilience.{
  AdaptiveJitterBuffer, AdaptiveJitterConfig, adaptive_jitter_buffer, buffer_settings, clamp_size,
  insert_frame, invalid_depths, observe_jitter, pop_item, reset_adaptive,
}

pub data Call {ℓ} (D : Type ℓ) : Type ℓ where
  inserting : AudioFrame → Call D
  popping : ℤ → Call D
  observing : D → Call D
  resetting : Call D

-- Frames as the decoder builds them.
abbrev pub CallFits {ℓ} : {D : Type ℓ} → Call D → Type 0
CallFits (inserting frame) = IsFrame frame × (frame.sequence_number < 2 ^ 64)
CallFits _ = Unit

pub record DepthInv {ℓ} {D : Type ℓ} (b : AdaptiveJitterBuffer D) : Type 0 where
  pub inv : Inv b.buffer
  pub initial_low : b.config.minimum_depth ≤ b.config.initial_depth
  pub initial_high : b.config.initial_depth ≤ b.config.maximum_depth
  pub low : b.config.minimum_depth ≤ b.target_depth
  pub high : b.target_depth ≤ b.config.maximum_depth

clamp_size_low : (n low high : ℕ) → low ≤ high → low ≤ clamp_size n low high
clamp_size_low n low high h = ground (arith, h)

clamp_size_high : (n low high : ℕ) → low ≤ high → clamp_size n low high ≤ high
clamp_size_high n low high h = ground (arith, h)

module _ {ℓ} {D : Type ℓ} ⦃d : Float D⦄ where
  abbrev pub call : AdaptiveJitterBuffer D → Call D → AdaptiveJitterBuffer D
  call b (inserting frame) = (insert_frame b frame).0
  call b (popping now) = (pop_item b now).0
  call b (observing ms) = observe_jitter b ms
  call b resetting = reset_adaptive b

  unfoldable pub calls : AdaptiveJitterBuffer D → List (Call D) → AdaptiveJitterBuffer D
  calls b [] = b
  calls b (c ∷ cs) = calls (call b c) cs

  observe_jitter-DepthInv :
      (b : AdaptiveJitterBuffer D) (ms : D)
      → DepthInv b
      → DepthInv (observe_jitter b ms) × ((observe_jitter b ms).config ≡ b.config)
  unfolding observe_jitter
  observe_jitter-DepthInv b ms v =
      elim (Bool-cases (not (d.is_finite ms) || d.below ms zero_float)) [
        | inl refused ↦ rw refused (v, refl)
        | inr used ↦ rw used (
          record {
            inv = v.inv;
            initial_low = v.initial_low;
            initial_high = v.initial_high;
            low = clamp_size_low _ b.config.minimum_depth b.config.maximum_depth (omega arith);
            high = clamp_size_high _ b.config.minimum_depth b.config.maximum_depth (omega arith);
          },
          refl,
        )
      ]

  call-DepthInv :
      (b : AdaptiveJitterBuffer D) (c : Call D)
      → DepthInv b
      → CallFits c
      → DepthInv (call b c) × ((call b c).config ≡ b.config)
  unfolding reset_adaptive
  call-DepthInv b (inserting frame) v h = (
    record {
      inv = insert-Inv b.buffer frame v.inv h.0 h.1;
      initial_low = v.initial_low;
      initial_high = v.initial_high;
      low = v.low;
      high = v.high;
    },
    refl,
  )
  call-DepthInv b (popping now) v h = (
    record {
      inv = pop-Inv b.buffer now v.inv;
      initial_low = v.initial_low;
      initial_high = v.initial_high;
      low = v.low;
      high = v.high;
    },
    refl,
  )
  call-DepthInv b (observing ms) v h = observe_jitter-DepthInv b ms v
  call-DepthInv b resetting v h = (
    record {
      inv = reset-Inv b.buffer v.inv;
      initial_low = v.initial_low;
      initial_high = v.initial_high;
      low = v.initial_low;
      high = v.initial_high;
    },
    refl,
  )

  calls-DepthInv :
      (b : AdaptiveJitterBuffer D) (cs : List (Call D))
      → DepthInv b
      → All CallFits cs
      → DepthInv (calls b cs) × ((calls b cs).config ≡ b.config)
  unfolding calls
  calls-DepthInv b [] v h = (v, refl)
  calls-DepthInv b (c ∷ cs) v h =
      let (w, same) = call-DepthInv b c v h.0 in
      let (z, rest) = calls-DepthInv (call b c) cs w h.1 in (z, rest ∙ same)

  pub adaptive-DepthInv :
      (c : AdaptiveJitterConfig) (b : AdaptiveJitterBuffer D)
      → adaptive_jitter_buffer c ≡ some b
      → DepthInv b × (b.config ≡ c) × (c.maximum_depth ≤ c.capacity)
  unfolding adaptive_jitter_buffer
  adaptive-DepthInv c b e = go (jitter_buffer (buffer_settings c)) refl
    where
      go :
          (o : Option JitterBuffer)
          → jitter_buffer (buffer_settings c) ≡ o
          → DepthInv b × (b.config ≡ c) × (c.maximum_depth ≤ c.capacity)
      go none h =
          let failed : adaptive_jitter_buffer {D = D} c ≡ none =
            rw (h, adaptive_jitter_buffer) refl in
          absurd cc
      go (some buffer) h = elim (Bool-cases (invalid_depths c)) [
        | inl bad ↦
            let failed : adaptive_jitter_buffer {D = D} c ≡ none =
              rw (h, adaptive_jitter_buffer) (rw bad refl) in
            absurd cc
        | inr good ↦
            let made : adaptive_jitter_buffer {D = D} c
                ≡ some (record {
                  config = c;
                  target_depth = c.initial_depth;
                  stable_jitter_ms = zero_float;
                  buffer = buffer;
                }) =
              rw (h, adaptive_jitter_buffer) (rw good refl) in
            let fresh : b ≡ record {
              config = c;
              target_depth = c.initial_depth;
              stable_jitter_ms = zero_float;
              buffer = buffer;
            } =
              cc in
            rw fresh (
              record {
                inv = jitter_buffer-Inv (buffer_settings c) buffer h;
                initial_low = ground (arith, good);
                initial_high = ground (arith, good);
                low = ground (arith, good);
                high = ground (arith, good);
              },
              refl,
              ground (arith, good),
            )
      ]

  -- From the constructor on, whatever jitter is observed, numbers that are not finite included, whatever frames go in
  -- and out and whenever the buffer is reset: the depth that it aims at stays between the minimum and the maximum of
  -- its configuration, and so within its capacity; and the buffer in it keeps its invariant. The frames are such as
  -- the constructor of a frame lets through, with 64-bit numbers. Nothing is asked of the floating-point type.
  pub calls_depth :
      (c : AdaptiveJitterConfig) (b : AdaptiveJitterBuffer D) (cs : List (Call D))
      → adaptive_jitter_buffer c ≡ some b
      → All CallFits cs
      → (c.minimum_depth ≤ (calls b cs).target_depth)
        × ((calls b cs).target_depth ≤ c.maximum_depth)
        × (c.maximum_depth ≤ c.capacity)
        × Inv (calls b cs).buffer
  calls_depth c b cs e h =
      let (v, same, bound) = adaptive-DepthInv c b e in
      let (w, kept) = calls-DepthInv b cs v h in
      let config : (calls b cs).config ≡ c = kept ∙ same in
      (
        subst (λ (x : AdaptiveJitterConfig). x.minimum_depth ≤ (calls b cs).target_depth) config
            w.low,
        subst (λ (x : AdaptiveJitterConfig). (calls b cs).target_depth ≤ x.maximum_depth) config
            w.high,
        bound,
        w.inv,
      )
