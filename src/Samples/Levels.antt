-- ===== src/Samples/Levels.antt =====
-- The levels that src/audio_meter.cpp measures.
use distributed_audio_system.Float.{Float, larger, one_float, zero_float}
use distributed_audio_system.Float.Laws.{
  FloatLaws, Normalized, larger_at_most, larger_left, larger_real, larger_right,
}
use distributed_audio_system.Prelude.{
  All, List, [], ap, arith, false, length, refl, replicate, suc, true, zero, ℕ, ◌%◌, ◌+◌, ◌∙◌, ◌∷◌,
  ◌≡◌,
}
use distributed_audio_system.Prelude.Int.{pos}
use distributed_audio_system.Samples.Meter.{PeakLevels, measure_from, raise_at}

-- A level that no channel exceeds, and that is at most 1.
pub record Overall {ℓ} {F : Type ℓ} ⦃f : Float F⦄ (levels : PeakLevels F) : Type 0 where
  pub not_nan : f.is_nan levels.overall ≡ false
  pub under_one : f.at_most levels.overall one_float ≡ true
  pub real_channels : All (λ p. f.is_nan p ≡ false) levels.per_channel
  pub over_channels : All (λ p. f.at_most p levels.overall ≡ true) levels.per_channel

module _ {ℓ} {F : Type ℓ} ⦃f : Float F⦄ where
  length-raise_at : (n : ℕ) (m : F) (xs : List F) → length (raise_at n m xs) ≡ length xs
  unfolding raise_at
  length-raise_at n m [] = refl
  length-raise_at zero m (x ∷ xs) = refl
  length-raise_at (suc n) m (x ∷ xs) = ap suc (length-raise_at n m xs)

  module _ ⦃laws : FloatLaws F⦄ where
    raise_at_real :
        (n : ℕ) (m : F) (xs : List F)
        → f.is_nan m ≡ false
        → All (λ p. f.is_nan p ≡ false) xs
        → All (λ p. f.is_nan p ≡ false) (raise_at n m xs)
    unfolding raise_at
    raise_at_real n m [] r h = tt
    raise_at_real zero m (x ∷ xs) r h = (larger_real x m h.0 r, h.1)
    raise_at_real (suc n) m (x ∷ xs) r h = (h.0, raise_at_real n m xs r h.1)

    raise_at_under :
        (n : ℕ) (m z : F) (xs : List F)
        → f.at_most m z ≡ true
        → All (λ p. f.at_most p z ≡ true) xs
        → All (λ p. f.at_most p z ≡ true) (raise_at n m xs)
    unfolding raise_at
    raise_at_under n m z [] r h = tt
    raise_at_under zero m z (x ∷ xs) r h = (larger_at_most x m z h.0 r, h.1)
    raise_at_under (suc n) m z (x ∷ xs) r h = (h.0, raise_at_under n m z xs r h.1)

    All-at_most :
        (y z : F) (xs : List F)
        → f.at_most y z ≡ true
        → All (λ p. f.at_most p y ≡ true) xs
        → All (λ p. f.at_most p z ≡ true) xs
    All-at_most y z [] r h = tt
    All-at_most y z (x ∷ xs) r h = (laws.at_most_trans x y z h.0 r, All-at_most y z xs r h.1)

    pub measure_from-Overall :
        (channels index : ℕ) (samples : List F) (levels : PeakLevels F)
        → All Normalized samples
        → Overall levels
        → let r = measure_from channels index samples levels in
          Overall r
          × (f.at_most levels.overall r.overall ≡ true)
          × All (λ x. f.at_most (f.magnitude x) r.overall ≡ true) samples
          × (length r.per_channel ≡ length levels.per_channel)
    unfolding measure_from
    measure_from-Overall channels index [] levels h v =
        (v, laws.at_most_refl levels.overall v.not_nan, tt, refl)
    measure_from-Overall channels index (x ∷ xs) levels h v =
        let m = f.magnitude x in
        let real = laws.magnitude_real x h.0.not_nan in
        let left = larger_left levels.overall m v.not_nan in
        let right = larger_right levels.overall m v.not_nan real in
        let top = larger levels.overall m in
        let raised = raise_at (index % channels) m levels.per_channel in
        let (w, above, below, size) =
          measure_from-Overall channels (index + 1) xs
            (record { per_channel = raised; overall = top }) h.1
            (record {
              not_nan = larger_real levels.overall m v.not_nan real;
              under_one =
                  larger_at_most levels.overall m one_float v.under_one
                    (laws.magnitude_at_most x h.0.above h.0.under);
              real_channels =
                  raise_at_real (index % channels) m levels.per_channel real v.real_channels;
              over_channels =
                  raise_at_under (index % channels) m top levels.per_channel right
                    (All-at_most levels.overall top levels.per_channel left v.over_channels);
            }) in
        (
          w,
          laws.at_most_trans levels.overall top _ left above,
          (laws.at_most_trans m top _ right above, below),
          size ∙ length-raise_at (index % channels) m levels.per_channel,
        )

    All-replicate : (P : F → Type 0) (n : ℕ) (x : F) → P x → All P (replicate n x)
    All-replicate P zero x p = tt
    All-replicate P (suc n) x p = (p, All-replicate P n x p)

    pub zero-Overall :
        (n : ℕ)
        → Overall {F = F} (record { per_channel = replicate n zero_float; overall = zero_float })
    zero-Overall n =
        let real = laws.literal_real (pos 0) 0 in
        record {
          not_nan = real;
          under_one = laws.literal_at_most (pos 0) (pos 1) (omega arith);
          real_channels = All-replicate _ n zero_float real;
          over_channels = All-replicate _ n zero_float (laws.at_most_refl zero_float real);
        }
