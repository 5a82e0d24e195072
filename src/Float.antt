-- ===== src/Float.antt =====
-- The floating-point types of the program are parameters: what the code does with a `float`, a `double` or
-- a `long double` is a field here. The arithmetic of C++ leaves it to the machine.
pub mod Laws
pub mod Fixed
use distributed_audio_system.Prelude.{Bool, if◌then◌else◌, ℕ, ◌+◌}
use distributed_audio_system.Prelude.Int.{pos, ℤ}

pub record Float {ℓ} (F : Type ℓ) : Type ℓ where
  -- `literal m k` is the decimal number m / 10 ^ k.
  pub literal : ℤ → ℕ → F
  -- A conversion from an integer type.
  pub of_int : ℤ → F
  pub plus : F → F → F
  pub minus : F → F → F
  pub times : F → F → F
  pub over : F → F → F
  pub negated : F → F
  -- `<` and `<=`, which are false when an operand is NaN.
  pub below : F → F → Bool
  pub at_most : F → F → Bool
  -- std::isnan, std::isfinite and std::fabs.
  pub is_nan : F → Bool
  pub is_finite : F → Bool
  pub magnitude : F → F
  -- std::pow.
  pub power : F → F → F
  -- A conversion to an integer type, which cuts the fraction off, and std::lround.
  pub truncated : F → ℤ
  pub rounded : F → ℤ

module _ {ℓ} {F : Type ℓ} ⦃f : Float F⦄ where
  -- std::max(a, b).
  abbrev pub larger : F → F → F
  larger a b = if f.below a b then b else a

  abbrev pub zero_float : F
  zero_float = f.literal (pos 0) 0

  abbrev pub one_float : F
  one_float = f.literal (pos 1) 0

  -- A literal that is a whole number.
  abbrev pub number : ℕ → F
  number n = f.literal (pos n) 0

  -- std::clamp(a, low, high).
  abbrev pub clamp : F → F → F → F
  clamp a low high = if f.below a low then low else if f.below high a then high else a

-- The types `double` and `long double`, the conversions between them.
pub record Floats {ℓ} (D : Type ℓ) : Type (ℓ + 1) where
  pub Long : Type ℓ
  pub double : Float D
  pub long_double : Float Long
  pub widen : D → Long
  pub narrow : Long → D
