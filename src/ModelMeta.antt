-- ===== src/ModelMeta.antt =====
-- modelmeta/modelmeta.go: the table of models with their prices. The table is an association list in
-- the order in which the map is iterated, which Go leaves open.
use nadir.Prelude.{
  ℕ, Bool, false, ◌||◌, Option, none, some, List, [], ◌∷◌, if◌then◌else◌, ◌≡◌, arith, refl,
}
use nadir.Prelude.Float.{Float}
use nadir.Prelude.Text.{Text, text_eq, text_eq_iff, contains, to_lower}

pub record Model (F : Type 0) : Type 0 where
  pub name : Text
  pub input_per_1k : F
  pub output_per_1k : F
  pub context : ℕ
  pub vision : Bool

module _ {F : Type 0} where
  -- t.models[name]
  unfoldable pub exact : List (Model F) → Text → Option (Model F)
  exact [] name = none
  exact (m ∷ ms) name = if text_eq m.name name then some m else exact ms name

  -- The loop of Lookup, for the name in lower case.
  unfoldable pub fuzzy : List (Model F) → Text → Option (Model F)
  fuzzy [] n = none
  fuzzy (m ∷ ms) n =
      if contains (to_lower m.name) n || contains n (to_lower m.name) then some m else fuzzy ms n

  unfoldable pub lookup : List (Model F) → Text → Option (Model F)
  unfolding exact fuzzy
  lookup table name = elim (exact table name) [
    | some m ↦ some m
    | none ↦ fuzzy table (to_lower name)
  ]

  -- Load: a later entry of a name replaces the earlier one
  unfoldable pub insert : List (Model F) → Model F → List (Model F)
  insert [] m = m ∷ []
  insert (x ∷ xs) m = let rest = insert xs m in if text_eq x.name m.name then m ∷ xs else x ∷ rest

  unfoldable pub load : List (Model F) → List (Model F) → List (Model F)
  load table [] = table
  load table (m ∷ ms) = load (insert table m) ms

  unfoldable pub has_vision : List (Model F) → Text → Bool
  unfolding lookup
  has_vision table name = elim (lookup table name) [ none ↦ false | some m ↦ m.vision ]

  exact-insert :
      (table : List (Model F)) (m : Model F) (name : Text)
      → exact (insert table m) name ≡ (if text_eq m.name name then some m else exact table name)
  unfolding exact insert
  exact-insert [] m name = refl
  exact-insert (x ∷ xs) m name = ground (
    arith,
    exact-insert xs m name,
    text_eq_iff x.name m.name,
    text_eq_iff x.name name,
    text_eq_iff m.name name,
  )

  -- The last entry of a name in a document.
  unfoldable pub last_entry : List (Model F) → Text → Option (Model F)
  last_entry [] name = none
  last_entry (m ∷ ms) name = elim (last_entry ms name) [
    | some x ↦ some x
    | none ↦ if text_eq m.name name then some m else none
  ]

  exact-load :
      (table ms : List (Model F)) (name : Text)
      → exact (load table ms) name
        ≡ (elim (last_entry ms name) [ some x ↦ some x | none ↦ exact table name ])
  unfolding load last_entry
  exact-load table [] name = refl
  exact-load table (m ∷ ms) name =
      ground (arith, exact-load (insert table m) ms name, exact-insert table m name)

  -- A name that a loaded document has is looked up as its last entry in the document.
  pub lookup-load :
      (ms : List (Model F)) (name : Text) (m : Model F)
      → last_entry ms name ≡ some m
      → lookup (load [] ms) name ≡ some m
  unfolding lookup
  lookup-load ms name m h = ground (arith, exact-load [] ms name)

module _ {F : Type 0} ⦃f : Float F⦄ where
  -- Cost
  unfoldable pub cost : List (Model F) → Text → ℕ → ℕ → F
  unfolding lookup
  cost table name prompt_tokens completion_tokens = elim (lookup table name) [
    | none ↦ f.decimal 0 0
    | some m ↦
        f.add (f.mul (f.div (f.decimal prompt_tokens 0) (f.decimal 1000 0)) m.input_per_1k)
          (f.mul (f.div (f.decimal completion_tokens 0) (f.decimal 1000 0)) m.output_per_1k)
  ]
