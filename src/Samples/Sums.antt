-- ===== src/Samples/Sums.antt =====
-- What src/audio_mixer.cpp makes of inputs that fit together.
use distributed_audio_system.Audio.{format_eq, format_is_valid}
use distributed_audio_system.Audio.Laws.{format_eq_refl}
use distributed_audio_system.Float.{Float, zero_float}
use distributed_audio_system.Float.Laws.{FloatLaws, Normalized}
use distributed_audio_system.Prelude.{
  All, List, [], ap, arith, length, length-replicate, map, ok, refl, replicate, some, suc, sym,
  true, zero, ℕ, ◌<◌, ◌∙◌, ◌∷◌, ◌≡◌,
}
use distributed_audio_system.Samples.{clamp_normalized_sample}
use distributed_audio_system.Samples.Mixer.{ProcessedAudio, add_samples, mix, sum_inputs}
use distributed_audio_system.Samples.Range.{length-map, map_clamp-Normalized}

-- An input has the format and the number of samples of another one.
pub record Compatible {ℓ} {F : Type ℓ} (head input : ProcessedAudio F) : Type 0 where
  pub format : input.format ≡ head.format
  pub size : length input.samples ≡ length head.samples

module _ {ℓ} {F : Type ℓ} ⦃f : Float F⦄ where
  length-add_samples :
      (xs ys : List F) → length ys ≡ length xs → length (add_samples xs ys) ≡ length xs
  unfolding add_samples
  length-add_samples [] ys h = refl
  length-add_samples (x ∷ xs) [] h = refl
  length-add_samples (x ∷ xs) (y ∷ ys) h = ap suc (length-add_samples xs ys (omega (arith, h)))

  -- The sample at a position, if there is one.
  abbrev pub sample_at : ℕ → List F → F
  sample_at i [] = zero_float
  sample_at zero (x ∷ xs) = x
  sample_at (suc i) (x ∷ xs) = sample_at i xs

  -- The sum, from a first number on, of the samples that the inputs have at a position.
  abbrev pub column_sum : ℕ → F → List (ProcessedAudio F) → F
  column_sum i sum [] = sum
  column_sum i sum (input ∷ rest) = column_sum i (f.plus sum (sample_at i input.samples)) rest

  sample_at-add_samples :
      (i : ℕ) (xs ys : List F)
      → i < length xs
      → length ys ≡ length xs
      → sample_at i (add_samples xs ys) ≡ f.plus (sample_at i xs) (sample_at i ys)
  unfolding add_samples
  sample_at-add_samples i [] ys b h = absurd (omega (arith, b))
  sample_at-add_samples i (x ∷ xs) [] b h = absurd (omega (arith, h))
  sample_at-add_samples zero (x ∷ xs) (y ∷ ys) b h = refl
  sample_at-add_samples (suc i) (x ∷ xs) (y ∷ ys) b h =
      sample_at-add_samples i xs ys (omega (arith, b)) (omega (arith, h))

  sample_at-map :
      (i : ℕ) (g : F → F) (xs : List F)
      → i < length xs
      → sample_at i (map g xs) ≡ g (sample_at i xs)
  sample_at-map i g [] b = absurd (omega (arith, b))
  sample_at-map zero g (x ∷ xs) b = refl
  sample_at-map (suc i) g (x ∷ xs) b = sample_at-map i g xs (omega (arith, b))

  sample_at-replicate : (i n : ℕ) → sample_at i (replicate n zero_float) ≡ zero_float
  sample_at-replicate i zero = refl
  sample_at-replicate zero (suc n) = refl
  sample_at-replicate (suc i) (suc n) = sample_at-replicate i n

  sum_inputs-Compatible :
      (head : ProcessedAudio F) (sums : List F) (inputs : List (ProcessedAudio F))
      → length sums ≡ length head.samples
      → All (Compatible head) inputs
      → (total : List F) × (sum_inputs head sums inputs ≡ ok total)
        × (length total ≡ length head.samples)
        × ((i : ℕ)
            → i < length head.samples
            → sample_at i total ≡ column_sum i (sample_at i sums) inputs)
  unfolding sum_inputs
  sum_inputs-Compatible head sums [] h c = (sums, refl, h, λ i b. refl)
  sum_inputs-Compatible head sums (input ∷ rest) h c =
      let (total, e, size, columns) =
        sum_inputs-Compatible head (add_samples sums input.samples) rest
          (length-add_samples sums input.samples (c.0.size ∙ sym h) ∙ h) c.1 in
      let same : format_eq input.format head.format ≡ true =
        ap (λ x. format_eq x head.format) c.0.format ∙ format_eq_refl head.format in
      (
        total,
        ground (arith, same, c.0.size, e),
        size,
        λ i b.
            columns i b
            ∙ ap (λ x. column_sum i x rest)
                (sample_at-add_samples i sums input.samples (omega (arith, b, h))
                  (c.0.size ∙ sym h)),
      )

  module _ ⦃laws : FloatLaws F⦄ where
    -- Inputs with the valid format and the number of samples of the first one are mixed: the result has the format,
    -- the sequence number, the time stamp and the number of samples of the first; each of its samples is the sum of
    -- those at its position, added to zero in the order of the inputs, brought between -1 and 1; and it is
    -- between them whatever the inputs are. The floating-point type has the laws of `FloatLaws`.
    pub mix-Compatible :
        (head : ProcessedAudio F) (rest : List (ProcessedAudio F))
        → format_is_valid head.format ≡ true
        → All (Compatible head) rest
        → (samples : List F) × (mix (head ∷ rest) ≡ ok (some (record head { samples = samples })))
          × (length samples ≡ length head.samples)
          × All Normalized samples
          × ((i : ℕ)
              → i < length head.samples
              → sample_at i samples
                ≡ clamp_normalized_sample (column_sum i zero_float (head ∷ rest)))
    unfolding mix
    mix-Compatible head rest valid c =
        let zeros = replicate (length head.samples) (zero_float {F = F}) in
        let (total, e, size, columns) =
          sum_inputs-Compatible head zeros (head ∷ rest)
            (length-replicate (length head.samples) (zero_float {F = F}))
            (record { format = refl; size = refl }, c) in
        (
          map clamp_normalized_sample total,
          rw (valid, e) refl,
          length-map clamp_normalized_sample total ∙ size,
          map_clamp-Normalized (λ x. x) total,
          λ i b.
              sample_at-map i clamp_normalized_sample total (omega (arith, b, size))
              ∙ ap clamp_normalized_sample (
                  columns i b
                  ∙ ap (λ x. column_sum i x (head ∷ rest))
                      (sample_at-replicate i (length head.samples))),
        )
