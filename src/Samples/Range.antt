-- ===== src/Samples/Range.antt =====
-- Samples stay between -1 and 1.
use distributed_audio_system.Float.{Float, one_float}
use distributed_audio_system.Float.Laws.{FloatLaws, Normalized}
use distributed_audio_system.Prelude.{
  All, Bool-cases, List, [], ap, arith, inl, inr, length, map, refl, suc, ◌∷◌, ◌≡◌,
}
use distributed_audio_system.Prelude.Int.{negsuc, pos, ℤ, ◌≤ℤ◌}
use distributed_audio_system.Samples.{clamp_normalized_sample}

module _ {ℓ} {F : Type ℓ} ⦃f : Float F⦄ ⦃laws : FloatLaws F⦄ where
  literal-Normalized : (m : ℤ) → negsuc 0 ≤ℤ m → m ≤ℤ pos 1 → Normalized (f.literal m 0)
  literal-Normalized m p q = record {
    not_nan = laws.literal_real m 0;
    above = laws.literal_at_most (negsuc 0) m p;
    under = laws.literal_at_most m (pos 1) q;
  }

  pub clamp_normalized_sample-Normalized : (x : F) → Normalized (clamp_normalized_sample x)
  unfolding clamp_normalized_sample
  clamp_normalized_sample-Normalized x = elim (Bool-cases (f.is_nan x)) [
    | inl nan ↦ rw nan (literal-Normalized (pos 0) (omega arith) (omega arith))
    | inr real ↦ elim (Bool-cases (f.below x (f.literal (negsuc 0) 0))) [
      | inl low ↦ rw (real, low) (literal-Normalized (negsuc 0) (omega arith) (omega arith))
      | inr not_low ↦ elim (Bool-cases (f.below one_float x)) [
        | inl high ↦
            rw (real, not_low, high) (literal-Normalized (pos 1) (omega arith) (omega arith))
        | inr not_high ↦
            rw (real, not_low, not_high)
              (record {
                not_nan = real;
                above = laws.not_below_lem x _ real (laws.literal_real (negsuc 0) 0) not_low;
                under = laws.not_below_lem _ x (laws.literal_real (pos 1) 0) real not_high;
              })
      ]
    ]
  ]

  pub map_clamp-Normalized :
      (g : F → F) (xs : List F) → All Normalized (map (λ x. clamp_normalized_sample (g x)) xs)
  map_clamp-Normalized g [] = tt
  map_clamp-Normalized g (x ∷ xs) =
      (clamp_normalized_sample-Normalized (g x), map_clamp-Normalized g xs)

  -- A number in range is left as it is.
  pub clamp_normalized_sample_kept : (x : F) → Normalized x → clamp_normalized_sample x ≡ x
  unfolding clamp_normalized_sample
  clamp_normalized_sample_kept x r =
      rw (r.not_nan, laws.at_most_lem x _ r.above, laws.at_most_lem _ x r.under) refl

module _ {ℓ} {F : Type ℓ} where
  pub length-map : (g : F → F) (xs : List F) → length (map g xs) ≡ length xs
  length-map g [] = refl
  length-map g (x ∷ xs) = ap suc (length-map g xs)
