-- ===== src/Prelude/Fields.antt =====
-- The fields that strings.FieldsFunc finds, and what trimming keeps.
use Prim.Native.Nat.{ℕ, ◌<◌}
use mathlib.Core.Bool.{Bool, false}
use mathlib.Core.List.{List, [], ◌∷◌, ◌++◌, append_assoc, reverse, reverse_aux}
use mathlib.Core.Logic.{inl, inr}
use mathlib.Core.Path.{◌≡◌, refl, ap, ◌∙◌}
use native.Mathlib.Omega.{arith}
use nadir.Prelude.Lists.{length, All, All-append}
use nadir.Prelude.Tests.{if◌then◌else◌, Bool-cases}
use nadir.Prelude.Text.{Text, end_field, fields_from, fields_func, trim_left, trim_right}

unfoldable pub join : List Text → Text
join [] = []
join (w ∷ ws) = w ++ join ws

module _ (p : ℕ → Bool) where
  -- The bytes that do not separate.
  unfoldable pub kept : Text → Text
  kept [] = []
  kept (c ∷ s) = let rest = kept s in if p c then rest else c ∷ rest

  -- A field is not empty and has no separator.
  abbrev pub IsField : Text → Type 0
  IsField w = (0 < length w) × All (λ (c : ℕ). p c ≡ false) w

  join-end_field : (cur : Text) (ws : List Text) → join (end_field cur ws) ≡ cur ++ join ws
  unfolding join end_field
  join-end_field [] ws = refl
  join-end_field (c ∷ cur) ws = refl

  end_field-IsField :
      (cur : Text) (ws : List Text)
      → All (λ (c : ℕ). p c ≡ false) cur
      → All IsField ws
      → All IsField (end_field cur ws)
  unfolding end_field
  end_field-IsField [] ws h k = k
  end_field-IsField (c ∷ cur) ws h k = ((omega arith, h), k)

  join-fields_from : (cur s : Text) → join (fields_from p cur s) ≡ cur ++ kept s
  unfolding fields_from kept
  join-fields_from cur [] = join-end_field cur [] ∙ unfold join in refl
  join-fields_from cur (c ∷ s) = elim (Bool-cases (p c)) [
    | inl e ↦
        rw (e, fields_from, kept)
          (join-end_field cur (fields_from p [] s) ∙ ap (◌++◌ cur) (join-fields_from [] s))
    | inr e ↦
        rw (e, fields_from, kept)
          (join-fields_from (cur ++ c ∷ []) s ∙ append_assoc cur (c ∷ []) (kept s))
  ]

  fields_from-IsField :
      (cur s : Text) → All (λ (c : ℕ). p c ≡ false) cur → All IsField (fields_from p cur s)
  unfolding fields_from
  fields_from-IsField cur [] h = end_field-IsField cur [] h tt
  fields_from-IsField cur (c ∷ s) h = elim (Bool-cases (p c)) [
    | inl e ↦
        rw (e, fields_from)
          (end_field-IsField cur (fields_from p [] s) h (fields_from-IsField [] s tt))
    | inr e ↦
        rw (e, fields_from)
          (fields_from-IsField (cur ++ c ∷ []) s
            (All-append (λ (x : ℕ). p x ≡ false) cur (c ∷ []) h (e, tt)))
  ]

  -- The fields, one after another, are the bytes that do not separate, and each is a field.
  pub fields_func_lem :
      (s : Text) → (join (fields_func p s) ≡ kept s) × All IsField (fields_func p s)
  unfolding fields_func
  fields_func_lem s = (join-fields_from [] s, fields_from-IsField [] s tt)

module _ {κ} (P : ℕ → Type κ) where
  All-reverse_aux : (xs ys : Text) → All P xs → All P ys → All P (reverse_aux xs ys)
  All-reverse_aux [] ys h k = k
  All-reverse_aux (x ∷ xs) ys h k = All-reverse_aux xs (x ∷ ys) h.1 (h.0, k)

  All-trim_left : (p : ℕ → Bool) (s : Text) → All P s → All P (trim_left p s)
  unfolding trim_left
  All-trim_left p [] h = tt
  All-trim_left p (c ∷ s) h = elim (Bool-cases (p c)) [
    | inl e ↦ rw (e, trim_left) (All-trim_left p s h.1)
    | inr e ↦ rw (e, trim_left) h
  ]

  pub All-trim_right : (p : ℕ → Bool) (s : Text) → All P s → All P (trim_right p s)
  unfolding trim_right
  All-trim_right p s h =
      All-reverse_aux (trim_left p (reverse s)) []
        (All-trim_left p (reverse s) (All-reverse_aux s [] h tt)) tt
