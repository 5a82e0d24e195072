-- ===== src/Float/Laws.antt =====
-- What the theorems on samples ask of the floating-point type; numbers of IEEE 754 have it.
use distributed_audio_system.Float.{Float, larger, one_float}
use distributed_audio_system.Prelude.{Bool-cases, false, inl, inr, true, ℕ, ◌≡◌}
use distributed_audio_system.Prelude.Int.{negsuc, pos, ℤ, ◌≤ℤ◌}

pub record FloatLaws {ℓ} (F : Type ℓ) ⦃f : Float F⦄ : Type ℓ where
  pub literal_real : (m : ℤ) (k : ℕ) → f.is_nan (f.literal m k) ≡ false
  pub magnitude_real : (x : F) → f.is_nan x ≡ false → f.is_nan (f.magnitude x) ≡ false
  pub literal_at_most : (a b : ℤ) → a ≤ℤ b → f.at_most (f.literal a 0) (f.literal b 0) ≡ true
  pub at_most_refl : (x : F) → f.is_nan x ≡ false → f.at_most x x ≡ true
  pub at_most_trans :
      (x y z : F) → f.at_most x y ≡ true → f.at_most y z ≡ true → f.at_most x z ≡ true
  pub below_lem : (x y : F) → f.below x y ≡ true → f.at_most x y ≡ true
  pub not_below_lem :
      (x y : F)
      → f.is_nan x ≡ false
      → f.is_nan y ≡ false
      → f.below x y ≡ false
      → f.at_most y x ≡ true
  pub at_most_lem : (x y : F) → f.at_most y x ≡ true → f.below x y ≡ false
  -- The magnitude of a number between -1 and 1, and the half of its double, which is exact.
  pub magnitude_at_most :
      (x : F)
      → f.at_most (f.literal (negsuc 0) 0) x ≡ true
      → f.at_most x (f.literal (pos 1) 0) ≡ true
      → f.at_most (f.magnitude x) (f.literal (pos 1) 0) ≡ true
  pub half_of_double :
      (x : F)
      → f.at_most (f.literal (negsuc 0) 0) x ≡ true
      → f.at_most x (f.literal (pos 1) 0) ≡ true
      → f.times (f.plus x x) (f.literal (pos 5) 1) ≡ x

-- A number between -1 and 1.
pub record Normalized {ℓ} {F : Type ℓ} ⦃f : Float F⦄ (x : F) : Type 0 where
  pub not_nan : f.is_nan x ≡ false
  pub above : f.at_most (f.literal (negsuc 0) 0) x ≡ true
  pub under : f.at_most x one_float ≡ true

module _ {ℓ} {F : Type ℓ} ⦃f : Float F⦄ where
  module _ ⦃laws : FloatLaws F⦄ where
    pub larger_real :
        (x y : F) → f.is_nan x ≡ false → f.is_nan y ≡ false → f.is_nan (larger x y) ≡ false
    larger_real x y p q = elim (Bool-cases (f.below x y)) [ inl e ↦ rw e q | inr e ↦ rw e p ]

    pub larger_left : (x y : F) → f.is_nan x ≡ false → f.at_most x (larger x y) ≡ true
    larger_left x y p = elim (Bool-cases (f.below x y)) [
      | inl e ↦ rw e (laws.below_lem x y e)
      | inr e ↦ rw e (laws.at_most_refl x p)
    ]

    pub larger_right :
        (x y : F) → f.is_nan x ≡ false → f.is_nan y ≡ false → f.at_most y (larger x y) ≡ true
    larger_right x y p q = elim (Bool-cases (f.below x y)) [
      | inl e ↦ rw e (laws.at_most_refl y q)
      | inr e ↦ rw e (laws.not_below_lem x y p q e)
    ]

    pub larger_at_most :
        (x y z : F) → f.at_most x z ≡ true → f.at_most y z ≡ true → f.at_most (larger x y) z ≡ true
    larger_at_most x y z p q = elim (Bool-cases (f.below x y)) [ inl e ↦ rw e q | inr e ↦ rw e p ]
