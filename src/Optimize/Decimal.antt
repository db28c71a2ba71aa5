-- ===== src/Optimize/Decimal.antt =====
-- The numbers that the truncation prints.
use nadir.Prelude.{
  ℕ, zero, suc, ◌+◌, ◌-◌, ◌*◌, ◌/◌, ◌%◌, ◌≤◌, ◌≡◌, ap, ◌∙◌, arith, [], ◌∷◌, ◌==◌, Bool-cases, inl,
  inr,
}
use nadir.Prelude.Text.{Text}
use nadir.Optimize.{digits, int_to_str}

-- The number that decimal digits stand for, after a number.
unfoldable pub read : ℕ → Text → ℕ
read acc [] = acc
read acc (c ∷ s) = read (acc * 10 + (c - 48)) s

read-digits : (fuel i : ℕ) (out : Text) → i ≤ fuel → read 0 (digits fuel i out) ≡ read i out
unfolding digits
read-digits zero i out h = let none_left : i ≡ 0 = omega arith in rw none_left
read-digits (suc fuel) i out h = elim (Bool-cases (i == 0)) [
  | inl z ↦ let none_left : i ≡ 0 = ground arith in rw (none_left, digits)
  | inr p ↦
      let less : i / 10 ≤ fuel = ground arith in
      let whole : i / 10 * 10 + (48 + i % 10 - 48) ≡ i = omega arith in
      rw (p, digits)
        (read-digits fuel (i / 10) ((48 + i % 10) ∷ out) less
          ∙ (unfold read in ap (λ (n : ℕ). read n out) whole))
]

-- What intToStr prints of a number that is not negative reads as that number.
pub read-int_to_str : (i : ℕ) → read 0 (int_to_str i) ≡ i
unfolding int_to_str read
read-int_to_str i = ground (arith, read-digits i i [])
