-- ===== src/Health/Sort.antt =====
-- sort.SliceStable by a key: insertion from the right puts each element before its equals. The
-- laws are those that the package sort documents: a permutation, sorted, stable.
use mathlib.Core.List.{Perm}
use mathlib.Core.List.Perm
use nadir.Prelude.{
  ℕ, ◌≤◌, ◌≡◌, refl, Bool, List, [], ◌∷◌, arith, leb, ◌==◌, if◌then◌else◌, All, All-map, Bool-cases,
  inl, inr,
}

-- The elements that pass the test, in their order.
module _ {ℓ} {A : Type ℓ} where
  unfoldable pub keep : (A → Bool) → List A → List A
  keep p [] = []
  keep p (x ∷ xs) = let rest = keep p xs in if p x then x ∷ rest else rest

module _ {ℓ} {A : Type ℓ} (key : A → ℕ) where
  unfoldable pub insert_by : A → List A → List A
  insert_by x [] = x ∷ []
  insert_by x (y ∷ ys) = if leb (key x) (key y) then x ∷ y ∷ ys else y ∷ insert_by x ys

  unfoldable pub sort_by : List A → List A
  unfolding insert_by
  sort_by [] = []
  sort_by (x ∷ xs) = insert_by x (sort_by xs)

  -- Each element's key is at most those of the elements behind it.
  abbrev pub IsSortedBy : List A → Type 0
  IsSortedBy [] = Unit
  IsSortedBy (x ∷ xs) = All (λ y. key x ≤ key y) xs × IsSortedBy xs

  All-insert_by :
      (n : ℕ) (x : A) (xs : List A)
      → n ≤ key x
      → All (λ y. n ≤ key y) xs
      → All (λ y. n ≤ key y) (insert_by x xs)
  unfolding insert_by
  All-insert_by n x [] h k = (h, tt)
  All-insert_by n x (y ∷ ys) h k = ground (arith, All-insert_by n x ys h k.1)

  insert_by-IsSortedBy : (x : A) (xs : List A) → IsSortedBy xs → IsSortedBy (insert_by x xs)
  unfolding insert_by
  insert_by-IsSortedBy x [] s = (tt, tt)
  insert_by-IsSortedBy x (y ∷ ys) s = elim (Bool-cases (leb (key x) (key y))) [
    | inl e ↦
        let le : key x ≤ key y = ground arith in
        rw e
          ((le, All-map (λ z. key y ≤ key z) (λ z. key x ≤ key z) ys (λ z h. omega arith) s.0), s)
    | inr e ↦ rw e (All-insert_by (key y) x ys (ground arith) s.0, insert_by-IsSortedBy x ys s.1)
  ]

  pub sort_by-IsSortedBy : (xs : List A) → IsSortedBy (sort_by xs)
  unfolding sort_by
  sort_by-IsSortedBy [] = tt
  sort_by-IsSortedBy (x ∷ xs) = insert_by-IsSortedBy x (sort_by xs) (sort_by-IsSortedBy xs)

  insert_by-perm : (x : A) (xs : List A) → Perm (insert_by x xs) (x ∷ xs)
  unfolding insert_by
  insert_by-perm x [] = Perm.refl _
  insert_by-perm x (y ∷ ys) = elim (Bool-cases (leb (key x) (key y))) [
    | inl e ↦ rw e (Perm.refl _)
    | inr e ↦ rw e (Perm.trans (Perm.cons y (insert_by-perm x ys)) (Perm.swap x y ys))
  ]

  pub sort_by-perm : (xs : List A) → Perm (sort_by xs) xs
  unfolding sort_by
  sort_by-perm [] = Perm.refl _
  sort_by-perm (x ∷ xs) = Perm.trans (insert_by-perm x (sort_by xs)) (Perm.cons x (sort_by-perm xs))

  keep-insert_by :
      (n : ℕ) (x : A) (xs : List A)
      → keep (λ y. key y == n) (insert_by x xs) ≡ keep (λ y. key y == n) (x ∷ xs)
  unfolding keep insert_by
  keep-insert_by n x [] = refl
  keep-insert_by n x (y ∷ ys) = ground (arith, keep-insert_by n x ys)

  -- Elements of one key keep their order.
  pub keep-sort_by :
      (n : ℕ) (xs : List A) → keep (λ y. key y == n) (sort_by xs) ≡ keep (λ y. key y == n) xs
  unfolding keep sort_by
  keep-sort_by n [] = refl
  keep-sort_by n (x ∷ xs) = ground (arith, keep-insert_by n x (sort_by xs), keep-sort_by n xs)
