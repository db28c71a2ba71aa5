-- ===== src/Prelude/Float.antt =====
-- What the program uses of float64, as an interface.
use Prim.Native.Nat.{ℕ}
use mathlib.Core.Bool.{Bool, true, false}
use mathlib.Core.Path.{◌≡◌}

pub record Float (F : Type 0) : Type 0 where
  -- a < b and a <= b, which are both false at a NaN
  pub lt_float : F → F → Bool
  pub le_float : F → F → Bool
  pub add : F → F → F
  pub sub : F → F → F
  pub mul : F → F → F
  pub div : F → F → F
  pub abs : F → F
  -- decimal m k is the constant m / 10 ^ k, rounded
  pub decimal : ℕ → ℕ → F

-- The order of floats, as IEEE 754 has it.
pub record FloatOrder (F : Type 0) ⦃f : Float F⦄ : Type 0 where
  pub le_float_trans :
      (a b c : F) → f.le_float a b ≡ true → f.le_float b c ≡ true → f.le_float a c ≡ true
  pub le_of_lt : (a b : F) → f.lt_float a b ≡ true → f.le_float a b ≡ true
  -- Of two numbers (which a NaN is not) one that is not less is at least the other.
  pub lt_or_le :
      (a b : F)
      → f.le_float a a ≡ true
      → f.le_float b b ≡ true
      → f.lt_float a b ≡ false
      → f.le_float b a ≡ true
  pub decimal_number : (m k : ℕ) → f.le_float (f.decimal m k) (f.decimal m k) ≡ true
  pub zero_one : f.le_float (f.decimal 0 0) (f.decimal 1 0) ≡ true
