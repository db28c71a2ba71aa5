-- ===== src/Cache/Prompt/Elements.antt =====
-- Lists of elements with different keys and different identities.
use nadir.Prelude.{
  suc, ◌<◌, ◌≡◌, ◌≢◌, refl, true, false, Option, none, some, List, [], ◌∷◌, arith, ◌==◌,
  if◌then◌else◌, ◌-◌, subst, Bool-cases, Option-cases, inl, inr, length, take, All,
}
use nadir.Prelude.Text.{Text, text_eq, text_eq_iff, text_eq_self}
use nadir.Cache.Prompt.{Element, element, remove, back}

-- The element with a key, and the list without it.
unfoldable pub find : Text → List Element → Option Element
find k [] = none
find k (e ∷ es) = if text_eq e.key k then some e else find k es

unfoldable pub without : Text → List Element → List Element
without k [] = []
without k (e ∷ es) = let rest = without k es in if text_eq e.key k then es else e ∷ rest

abbrev pub Apart : Element → Element → Type 0
Apart a b = (text_eq a.key b.key ≡ false) × ((a.id == b.id) ≡ false)

abbrev pub IsDistinct : List Element → Type 0
IsDistinct [] = Unit
IsDistinct (e ∷ es) = All (Apart e) es × IsDistinct es

pub All-find :
    (P : Element → Type 0) (k : Text) (es : List Element) (e : Element)
    → All P es
    → find k es ≡ some e
    → P e
unfolding find
All-find P k [] e a h = absurd (cc)
All-find P k (x ∷ xs) e a h = elim (Bool-cases (text_eq x.key k)) [
  | inl t ↦ let same : x ≡ e = ground arith in subst P same a.0
  | inr t ↦ All-find P k xs e a.1 (rw t at h)
]

-- With different keys and identities, an element is found by either.
pub element-find :
    (k : Text) (es : List Element) (e : Element)
    → IsDistinct es
    → find k es ≡ some e
    → (element e.id es ≡ some e) × (remove e.id es ≡ without k es) × (text_eq e.key k ≡ true)
unfolding find element remove without
element-find k [] e d h = absurd (cc)
element-find k (x ∷ xs) e d h = elim (Bool-cases (text_eq x.key k)) [
  | inl t ↦ (ground arith, ground arith, ground arith)
  | inr t ↦
      let h' : find k xs ≡ some e = rw t at h in
      let apart = All-find (Apart x) k xs e d.0 h' in
      let (a, b, c) = element-find k xs e d.1 h' in
      (ground (arith, apart.1), ground (arith, apart.1, b), c)
]

pub without-none : (k : Text) (es : List Element) → find k es ≡ none → without k es ≡ es
unfolding find without
without-none k [] h = refl
without-none k (x ∷ xs) h = ground (arith, without-none k xs)

pub All-without :
    (P : Element → Type 0) (k : Text) (es : List Element) → All P es → All P (without k es)
unfolding without
All-without P k [] a = tt
All-without P k (x ∷ xs) a = elim (Bool-cases (text_eq x.key k)) [
  | inl t ↦ rw t a.1
  | inr t ↦ rw t (a.0, All-without P k xs a.1)
]

pub without-IsDistinct : (k : Text) (es : List Element) → IsDistinct es → IsDistinct (without k es)
unfolding without
without-IsDistinct k [] d = tt
without-IsDistinct k (x ∷ xs) d = elim (Bool-cases (text_eq x.key k)) [
  | inl t ↦ rw t d.1
  | inr t ↦ rw t (All-without (Apart x) k xs d.0, without-IsDistinct k xs d.1)
]

pub length-without :
    (k : Text) (es : List Element) (e : Element)
    → find k es ≡ some e
    → suc (length (without k es)) ≡ length es
unfolding find without
length-without k [] e h = absurd (cc)
length-without k (x ∷ xs) e h = ground (arith, length-without k xs e)

find-Apart :
    (k : Text) (x : Element) (es : List Element)
    → text_eq x.key k ≡ true
    → All (Apart x) es
    → find k es ≡ none
unfolding find
find-Apart k x [] t a = refl
find-Apart k x (y ∷ ys) t a = ground (
  arith,
  a.0.0,
  text_eq_iff x.key k,
  text_eq_iff y.key k,
  text_eq_iff x.key y.key,
  find-Apart k x ys t a.1,
)

pub find-without :
    (k j : Text) (es : List Element)
    → IsDistinct es
    → find j (without k es) ≡ (if text_eq k j then none else find j es)
unfolding find without
find-without k j [] d = ground arith
find-without k j (x ∷ xs) d = ground (
  arith,
  find-without k j xs d.1,
  text_eq_iff x.key k,
  text_eq_iff x.key j,
  text_eq_iff k j,
  here,
)
  where
    here : text_eq x.key j ≡ true → find j xs ≡ none
    here t = find-Apart j x xs t d.0

-- Elements with the key differ from those without it.
pub Apart-without :
    (e : Element) (es : List Element)
    → IsDistinct es
    → find e.key es ≡ some e
    → All (Apart e) (without e.key es)
unfolding find without
Apart-without e [] d h = absurd (cc)
Apart-without e (x ∷ xs) d h = elim (Bool-cases (text_eq x.key e.key)) [
  | inl t ↦
      let same : x ≡ e = ground arith in rw t (subst (λ (y : Element). All (Apart y) xs) same d.0)
  | inr t ↦
      let h' : find e.key xs ≡ some e = rw t at h in
      let ap' = All-find (Apart x) e.key xs e d.0 h' in
      rw t (
        (
          ground (arith, t, text_eq_iff e.key x.key, text_eq_iff x.key e.key),
          ground (arith, ap'.1),
        ),
        Apart-without e xs d.1 h',
      )
]

All-back :
    (P : Element → Type 0) (es : List Element) (b : Element) → All P es → back es ≡ some b → P b
unfolding back
All-back P [] b a h = absurd (cc)
All-back P (x ∷ xs) b a h = elim (Option-cases (back xs)) [
  | inl q ↦ let same : x ≡ b = ground arith in subst P same a.0
  | inr (c, q) ↦ let same : back xs ≡ some b = ground arith in All-back P xs b a.1 same
]

pub back-cons : (x : Element) (xs : List Element) → back (x ∷ xs) ≢ none
unfolding back
back-cons x xs h = ground arith

-- Removing the element at the back leaves the elements in front of it.
pub remove-back :
    (es : List Element) (b : Element)
    → IsDistinct es
    → back es ≡ some b
    → remove b.id es ≡ take (length es - 1) es
unfolding back remove
remove-back [] b d h = absurd (cc)
remove-back (x ∷ []) b d h = ground arith
remove-back (x ∷ y ∷ es) b d h = elim (Option-cases (back (y ∷ es))) [
  | inl q ↦ absurd (back-cons y es q)
  | inr (c, q) ↦
      let same : back (y ∷ es) ≡ some b = ground arith in
      let apart = All-back (Apart x) (y ∷ es) b d.0 same in
      ground (arith, apart.1, remove-back (y ∷ es) b d.1 same)
]

-- A new key with a new identity differs from every element.
pub Apart-fresh :
    (x : Element) (es : List Element)
    → find x.key es ≡ none
    → All (λ e. e.id < x.id) es
    → All (Apart x) es
unfolding find
Apart-fresh x [] h f = tt
Apart-fresh x (y ∷ ys) h f = (
  (ground (arith, text_eq_iff x.key y.key, text_eq_iff y.key x.key), ground (arith, f.0)),
  Apart-fresh x ys (ground arith) f.1,
)

-- The element at the back is found by its key.
pub find_of_distinct :
    (es : List Element) (b : Element) → IsDistinct es → back es ≡ some b → find b.key es ≡ some b
unfolding find back
find_of_distinct [] b d h = absurd (cc)
find_of_distinct (x ∷ xs) b d h = elim (Option-cases (back xs)) [
  | inl q ↦ ground (arith, text_eq_self b.key)
  | inr (c, q) ↦
      let same : back xs ≡ some b = ground arith in
      let apart = All-back (Apart x) xs b d.0 same in
      ground (arith, apart.0, find_of_distinct xs b d.1 same)
]
