-- ===== src/Float/Fixed/Laws.antt =====
-- The numbers with a fixed point have what is asked of the floating-point type.
use distributed_audio_system.Float.Fixed.{absolute, divided, fixed_float, scale}
use distributed_audio_system.Float.Laws.{FloatLaws}
use distributed_audio_system.Prelude.{arith, not, refl, true, ◌^◌, ◌≡◌}
use distributed_audio_system.Prelude.Int.{ltb_ℤ, negsuc, pos, ℤ, ◌*ℤ◌, ◌+ℤ◌, ◌-ℤ◌, ◌≤ℤ◌}

literal_lem : (a : ℤ) → divided (a *ℤ pos scale) (pos (10 ^ 0)) ≡ a *ℤ pos scale
unfolding ◌*ℤ◌ ◌-ℤ◌
literal_lem (pos a) = ground arith
literal_lem (negsuc a) = ground arith

literal_order : (a b : ℤ) → a ≤ℤ b → not (ltb_ℤ (b *ℤ pos scale) (a *ℤ pos scale)) ≡ true
unfolding ◌*ℤ◌
literal_order (pos a) (pos b) h = ground arith
literal_order (pos a) (negsuc b) h = ground arith
literal_order (negsuc a) (pos b) h = ground arith
literal_order (negsuc a) (negsuc b) h = ground arith

half_lem : (x : ℤ) → divided ((x +ℤ x) *ℤ pos 16_384_000) (pos scale) ≡ x
unfolding ◌*ℤ◌ ◌+ℤ◌ ◌-ℤ◌
half_lem (pos a) = ground arith
half_lem (negsuc a) = ground arith

absolute_lem :
    (x : ℤ)
    → not (ltb_ℤ x (negsuc 32_767_999)) ≡ true
    → not (ltb_ℤ (pos scale) x) ≡ true
    → not (ltb_ℤ (pos scale) (absolute x)) ≡ true
absolute_lem (pos a) p q = ground arith
absolute_lem (negsuc a) p q = ground arith

instance pub fixed_laws : FloatLaws ℤ ⦃f = fixed_float⦄
unfolding ◌*ℤ◌ ◌-ℤ◌
fixed_laws = record {
  literal_real = λ m k. refl;
  magnitude_real = λ x p. refl;
  literal_at_most = λ a b h. rw (literal_lem a, literal_lem b) (literal_order a b h);
  at_most_refl = λ x p. ground arith;
  at_most_trans = λ x y z p q. ground arith;
  below_lem = λ x y p. ground arith;
  not_below_lem = λ x y p q e. ground arith;
  at_most_lem = λ x y p. ground arith;
  magnitude_at_most = λ x p q. absolute_lem x p q;
  half_of_double = λ x p q. half_lem x;
}
