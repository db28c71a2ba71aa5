-- ===== src/Embed/Tokenizer/WordPieces.antt =====
-- The pieces that a word is split into.
use nadir.Prelude.{
  ℕ, zero, suc, ◌≤◌, ◌<◌, ◌≡◌, ◌≢◌, refl, sym, ap, subst, arith, Bool, true, none, some, List, [],
  ◌∷◌, length, take, drop, length-drop, Option-cases, Bool-cases, ◌==◌, ◌↔◌, inl, inr,
}
use nadir.Prelude.Dict
use nadir.Prelude.Dict.{Dict}
use nadir.Prelude.Text.{Text}
use nadir.Embed.Tokenizer.{
  Pieces, out_of_fuel, unknown, found, piece_key, longest, add_piece, pieces,
}

-- The longest piece: it is in the vocabulary, it is not empty, and no longer one is there.
pub record IsLongest (vocab : Dict ℕ) (inside : Bool) (rest : Text) (most id n : ℕ) : Type 0 where
  pub positive : 0 < n
  pub within : n ≤ most
  pub known : Dict.get vocab (piece_key inside (take n rest)) ≡ some id
  pub none_longer :
      (k : ℕ) → n < k → k ≤ most → Dict.get vocab (piece_key inside (take k rest)) ≡ none

longest-IsLongest :
    (vocab : Dict ℕ) (inside : Bool) (rest : Text) (most id n : ℕ)
    → longest vocab inside rest most ≡ some (id, n)
    → IsLongest vocab inside rest most id n
unfolding longest
longest-IsLongest vocab inside rest zero id n h = absurd (ground arith)
longest-IsLongest vocab inside rest (suc m) id n h =
    elim (Option-cases (Dict.get vocab (piece_key inside (take (suc m) rest)))) [
      | inr (i, q) ↦
          let same : i ≡ id = ground arith in
          let size : suc m ≡ n = ground arith in
          rw (← same, ← size)
            (record {
              positive = omega arith;
              within = omega arith;
              known = q;
              none_longer = λ k a b. absurd (omega arith);
            })
      | inl q ↦
          let r = longest-IsLongest vocab inside rest m id n (rw (q, longest) at h) in
          record {
            positive = r.positive;
            within = omega (arith, r.within);
            known = r.known;
            none_longer = λ k a b. elim (Bool-cases (k == suc m)) [
              | inl e ↦ let same : k ≡ suc m = ground arith in rw same q
              | inr e ↦ r.none_longer k a (ground arith)
            ];
          }
    ]

IsLongest-longest :
    (vocab : Dict ℕ) (inside : Bool) (rest : Text) (most id n : ℕ)
    → IsLongest vocab inside rest most id n
    → longest vocab inside rest most ≡ some (id, n)
unfolding longest
IsLongest-longest vocab inside rest zero id n r = absurd (omega (arith, r.positive, r.within))
IsLongest-longest vocab inside rest (suc m) id n r = elim (Bool-cases (n == suc m)) [
  | inl e ↦
      let same : n ≡ suc m = ground arith in
      let known : Dict.get vocab (piece_key inside (take (suc m) rest)) ≡ some id =
        subst (λ (k : ℕ). Dict.get vocab (piece_key inside (take k rest)) ≡ some id) same r.known in
      rw (known, longest) (ap (λ (k : ℕ). some (id, k)) (sym same))
  | inr e ↦
      let less : n ≤ m = ground (arith, r.within) in
      let missing = r.none_longer (suc m) (omega (arith, less)) (omega arith) in
      let r' : IsLongest vocab inside rest m id n = record {
        positive = r.positive;
        within = less;
        known = r.known;
        none_longer = λ k a b. r.none_longer k a (omega arith);
      } in
      rw (missing, longest) (IsLongest-longest vocab inside rest m id n r')
]

-- The ids of the longest pieces that the runes split into, one after another, to the end.
abbrev pub Spells : Dict ℕ → Bool → Text → List ℕ → Type 0
Spells vocab inside rest [] = rest ≡ []
Spells vocab inside rest (id ∷ ids) =
    (n : ℕ) × IsLongest vocab inside rest (length rest) id n × Spells vocab true (drop n rest) ids

add_piece-found :
    (id : ℕ) (p : Pieces) (ids : List ℕ)
    → add_piece id p ≡ found ids
    → (rest : List ℕ) × (p ≡ found rest) × (ids ≡ id ∷ rest)
unfolding add_piece
add_piece-found id out_of_fuel ids h = absurd (ground arith)
add_piece-found id unknown ids h = absurd (ground arith)
add_piece-found id (found rest) ids h = (rest, refl, ground arith)

pieces-Spells :
    (fuel : ℕ) (vocab : Dict ℕ) (inside : Bool) (rest : Text) (ids : List ℕ)
    → pieces fuel vocab inside rest ≡ found ids
    → Spells vocab inside rest ids
unfolding pieces
pieces-Spells fuel vocab inside [] [] h = refl
pieces-Spells fuel vocab inside [] (id ∷ ids) h = absurd (ground arith)
pieces-Spells zero vocab inside (c ∷ rest) ids h = absurd (ground arith)
pieces-Spells (suc fuel) vocab inside (c ∷ rest) ids h =
    elim (Option-cases (longest vocab inside (c ∷ rest) (length (c ∷ rest)))) [
      | inl q ↦ absurd (ground arith)
      | inr ((id, n), q) ↦
          let (more, p, same) =
            add_piece-found id (pieces fuel vocab true (drop n (c ∷ rest))) ids
              (rw (q, pieces) at h) in
          rw same (
            n,
            longest-IsLongest vocab inside (c ∷ rest) (length (c ∷ rest)) id n q,
            pieces-Spells fuel vocab true (drop n (c ∷ rest)) more p,
          )
    ]

Spells-pieces :
    (fuel : ℕ) (vocab : Dict ℕ) (inside : Bool) (rest : Text) (ids : List ℕ)
    → length rest ≤ fuel
    → Spells vocab inside rest ids
    → pieces fuel vocab inside rest ≡ found ids
unfolding pieces
Spells-pieces fuel vocab inside [] [] enough s = refl
Spells-pieces fuel vocab inside [] (id ∷ ids) enough s =
    absurd (omega (arith, s.1.positive, s.1.within))
Spells-pieces fuel vocab inside (c ∷ rest) [] enough s = absurd (ground arith)
Spells-pieces zero vocab inside (c ∷ rest) (id ∷ ids) enough s = absurd (omega arith)
Spells-pieces (suc fuel) vocab inside (c ∷ rest) (id ∷ ids) enough s =
    let (n, long, more) = s in
    let shorter : length (drop n (c ∷ rest)) ≤ fuel =
      omega (arith, length-drop n (c ∷ rest), long.positive) in
    rw
      (
        IsLongest-longest vocab inside (c ∷ rest) (length (c ∷ rest)) id n long,
        pieces,
        Spells-pieces fuel vocab true (drop n (c ∷ rest)) ids shorter more,
      )
      (unfold add_piece in refl)

-- The outer loop of wordpiece ends: each round takes at least one rune, so that as many rounds as there
-- are runes are enough.
pub pieces_terminates :
    (fuel : ℕ) (vocab : Dict ℕ) (inside : Bool) (rest : Text)
    → length rest ≤ fuel
    → pieces fuel vocab inside rest ≢ out_of_fuel
unfolding pieces add_piece
pieces_terminates fuel vocab inside [] enough = λ h. absurd (ground arith)
pieces_terminates zero vocab inside (c ∷ rest) enough = absurd (omega arith)
pieces_terminates (suc fuel) vocab inside (c ∷ rest) enough =
    elim (Option-cases (longest vocab inside (c ∷ rest) (length (c ∷ rest)))) [
      | inl q ↦ rw (q, pieces) (λ h. absurd (ground arith))
      | inr ((id, n), q) ↦
          let long = longest-IsLongest vocab inside (c ∷ rest) (length (c ∷ rest)) id n q in
          let shorter : length (drop n (c ∷ rest)) ≤ fuel =
            omega (arith, length-drop n (c ∷ rest), long.positive) in
          let later = pieces_terminates fuel vocab true (drop n (c ∷ rest)) shorter in
          rw (q, pieces) (λ h. later (ground arith))
    ]

-- A word has the ids that its runes spell from the vocabulary by longest pieces, and no others; with
-- as many rounds as there are runes the loop finds them wherever there are some.
pub pieces_iff :
    (fuel : ℕ) (vocab : Dict ℕ) (inside : Bool) (rest : Text) (ids : List ℕ)
    → length rest ≤ fuel
    → (pieces fuel vocab inside rest ≡ found ids) ↔ Spells vocab inside rest ids
pieces_iff fuel vocab inside rest ids enough =
    (pieces-Spells fuel vocab inside rest ids, Spells-pieces fuel vocab inside rest ids enough)
