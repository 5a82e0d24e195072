-- ===== src/Float/Fixed.antt =====
-- Numbers with a fixed point, which show that what is asked of the floating-point types can be met.
pub mod Laws
use distributed_audio_system.Float.{Float, Floats}
use distributed_audio_system.Prelude.{false, not, suc, true, zero, ℕ, ◌*◌, ◌+◌, ◌/◌, ◌^◌}
use distributed_audio_system.Prelude.Int.{ltb_ℤ, negsuc, pos, ℤ, ◌*ℤ◌, ◌+ℤ◌, ◌-ℤ◌}

abbrev pub scale : ℕ
scale = 32_768_000

-- A quotient that is cut off towards zero.
abbrev pub divided : ℤ → ℤ → ℤ
divided (pos a) (pos b) = pos (a / b)
divided (pos a) (negsuc b) = pos 0 -ℤ pos (a / (b + 1))
divided (negsuc a) (pos b) = pos 0 -ℤ pos ((a + 1) / b)
divided (negsuc a) (negsuc b) = pos ((a + 1) / (b + 1))

abbrev pub absolute : ℤ → ℤ
absolute (pos a) = pos a
absolute (negsuc a) = pos (a + 1)

-- The nearest integer, halves away from zero.
abbrev pub nearest : ℤ → ℤ
nearest (pos a) = pos ((2 * a + scale) / (2 * scale))
nearest (negsuc a) = pos 0 -ℤ pos ((2 * (a + 1) + scale) / (2 * scale))

-- The power with a whole exponent, 1 for a negative one.
abbrev raised : ℤ → ℕ → ℤ
raised a zero = pos scale
raised a (suc n) = divided (a *ℤ raised a n) (pos scale)

abbrev pub power_of : ℤ → ℤ → ℤ
power_of a (pos n) = raised a (n / scale)
power_of a (negsuc n) = pos scale

instance abbrev pub fixed_float : Float ℤ
fixed_float = record {
  literal = λ m k. divided (m *ℤ pos scale) (pos (10 ^ k));
  of_int = λ m. m *ℤ pos scale;
  plus = λ a b. a +ℤ b;
  minus = λ a b. a -ℤ b;
  times = λ a b. divided (a *ℤ b) (pos scale);
  over = λ a b. divided (a *ℤ pos scale) b;
  negated = λ a. pos 0 -ℤ a;
  below = ltb_ℤ;
  at_most = λ a b. not (ltb_ℤ b a);
  is_nan = λ a. false;
  is_finite = λ a. true;
  magnitude = absolute;
  power = power_of;
  truncated = λ a. divided a (pos scale);
  rounded = nearest;
}

instance abbrev pub fixed_floats : Floats ℤ
fixed_floats = record {
  Long = ℤ;
  double = fixed_float;
  long_double = fixed_float;
  widen = λ a. a;
  narrow = λ a. a;
}
