-- ===== src/Prelude/Text.antt =====
-- Go strings as lists of bytes, and what the program uses of the package strings. Text is taken to
-- be ASCII where letters change case.
use Prim.Native.Char.{code}
use Prim.Native.Nat.{ℕ, ◌+◌}
use Prim.Native.String.{String}
use mathlib.Core.Bool.{Bool, true, false, ◌&&◌, ◌||◌}
use mathlib.Core.List.{List, [], ◌∷◌, ◌++◌, map, reverse}
use mathlib.Core.Logic.{◌↔◌}
use mathlib.Core.Path.{◌≡◌, refl}
use native.Mathlib.Omega.{arith}
use nadir.Prelude.Lists.{length, drop}
use nadir.Prelude.Tests.{leb, ◌==◌, if◌then◌else◌}

abbrev pub Text : Type 0
Text = List ℕ

-- The bytes of a literal.
abbrev pub codes : String → Text
codes String.[] = []
codes (String.◌∷◌ c s) = code c ∷ codes s

unfoldable pub text_eq : Text → Text → Bool
text_eq [] [] = true
text_eq (a ∷ s) (b ∷ t) = (a == b) && text_eq s t
text_eq _ _ = false

text_eq→eq : (s t : Text) → text_eq s t ≡ true → s ≡ t
unfolding text_eq
text_eq→eq [] [] h = refl
text_eq→eq [] (b ∷ t) h = ground arith
text_eq→eq (a ∷ s) [] h = ground arith
text_eq→eq (a ∷ s) (b ∷ t) h = ground (arith, text_eq→eq s t)

text_eq_refl : (s : Text) → text_eq s s ≡ true
unfolding text_eq
text_eq_refl [] = refl
text_eq_refl (a ∷ s) = ground (arith, text_eq_refl s)

eq→text_eq : (s t : Text) → s ≡ t → text_eq s t ≡ true
eq→text_eq s t e = rw e (text_eq_refl t)

pub text_eq_iff : (s t : Text) → (text_eq s t ≡ true) ↔ (s ≡ t)
text_eq_iff s t = (text_eq→eq s t, eq→text_eq s t)

pub text_eq_self : (s : Text) → text_eq s s ≡ true
text_eq_self s = text_eq_refl s

-- s == ""
unfoldable pub is_empty : Text → Bool
is_empty [] = true
is_empty (_ ∷ _) = false

pub is_empty_iff : (s : Text) → (is_empty s ≡ true) ↔ (s ≡ [])
unfolding is_empty
is_empty_iff [] = ground arith
is_empty_iff (c ∷ s) = ground arith

unfoldable pub lower_byte : ℕ → ℕ
lower_byte c = if leb b'A' c && leb c b'Z' then c + 32 else c

-- strings.ToLower
unfoldable pub to_lower : Text → Text
unfolding lower_byte
to_lower = map lower_byte

-- strings.HasPrefix
unfoldable pub has_prefix : Text → Text → Bool
has_prefix s [] = true
has_prefix [] (_ ∷ _) = false
has_prefix (a ∷ s) (b ∷ p) = (a == b) && has_prefix s p

-- strings.Contains
unfoldable pub contains : Text → Text → Bool
unfolding has_prefix
contains [] p = has_prefix [] p
contains (a ∷ s) p = has_prefix (a ∷ s) p || contains s p

-- strings.TrimPrefix
unfoldable pub trim_prefix : Text → Text → Text
unfolding has_prefix
trim_prefix s p = if has_prefix s p then drop (length p) s else s

-- The ASCII white space of unicode.IsSpace.
unfoldable pub is_space : ℕ → Bool
is_space c = (c == 32) || (leb 9 c && leb c 13)

-- strings.TrimLeftFunc
unfoldable pub trim_left : (ℕ → Bool) → Text → Text
trim_left p [] = []
trim_left p (c ∷ s) = if p c then trim_left p s else c ∷ s

unfoldable pub trim_right : (ℕ → Bool) → Text → Text
unfolding trim_left
trim_right p s = reverse (trim_left p (reverse s))

-- strings.TrimSpace
unfoldable pub trim_space : Text → Text
unfolding trim_left trim_right is_space
trim_space s = trim_right is_space (trim_left is_space s)

-- strings.Trim by a set of bytes
unfoldable pub trim : (ℕ → Bool) → Text → Text
unfolding trim_left trim_right
trim p s = trim_right p (trim_left p s)

-- The loop of strings.FieldsFunc, with the bytes of the field in cur.
unfoldable pub end_field : Text → List Text → List Text
end_field [] fields = fields
end_field (c ∷ cur) fields = (c ∷ cur) ∷ fields

unfoldable pub fields_from : (ℕ → Bool) → Text → Text → List Text
unfolding end_field
fields_from p cur [] = end_field cur []
fields_from p cur (c ∷ s) =
    let next = fields_from p [] s in
    let more = fields_from p (cur ++ c ∷ []) s in if p c then end_field cur next else more

-- strings.FieldsFunc
unfoldable pub fields_func : (ℕ → Bool) → Text → List Text
unfolding fields_from
fields_func p s = fields_from p [] s

trimmed : trim_space (to_lower (codes "  AuTo ")) ≡ codes "auto"
unfolding trim_space to_lower
trimmed = refl

found : contains (codes "gpt-4o-mini") (codes "4o") ≡ true
unfolding contains
found = refl

-- Membership in a slice of strings.
unfoldable pub text_mem : Text → List Text → Bool
text_mem s [] = false
text_mem s (t ∷ ts) = text_eq t s || text_mem s ts

-- No string twice.
abbrev pub IsNodup : List Text → Type 0
IsNodup [] = Unit
IsNodup (t ∷ ts) = (text_mem t ts ≡ false) × IsNodup ts

pub text_mem-append :
    (s : Text) (xs ys : List Text) → text_mem s (xs ++ ys) ≡ text_mem s xs || text_mem s ys
unfolding text_mem
text_mem-append s [] ys = refl
text_mem-append s (x ∷ xs) ys = ground (arith, text_mem-append s xs ys)

pub append-IsNodup :
    (xs : List Text) (y : Text) → IsNodup xs → text_mem y xs ≡ false → IsNodup (xs ++ y ∷ [])
unfolding text_mem
append-IsNodup [] y d h = (refl, tt)
append-IsNodup (x ∷ xs) y d h = (
  ground (arith, text_mem-append x xs (y ∷ []), text_eq_iff x y, text_eq_iff y x, text_eq_self x),
  append-IsNodup xs y d.1 (ground arith),
)
