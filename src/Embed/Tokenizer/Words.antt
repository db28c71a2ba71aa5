-- ===== src/Embed/Tokenizer/Words.antt =====
-- The words that splitBasic makes of a text.
use nadir.Prelude.{
  ℕ, ◌<◌, ◌≡◌, ◌⊎◌, refl, ap, ◌∙◌, arith, true, false, ◌||◌, List, [], ◌∷◌, ◌++◌, if◌then◌else◌,
  length, All, All-append, Bool-cases, inl, inr,
}
use mathlib.Core.List.{append_assoc}
use nadir.Prelude.Fields.{join}
use nadir.Prelude.Text.{Text}
use nadir.Embed.Tokenizer.{Unicode, is_punct, flush, split_from, split_basic}

module _ (u : Unicode) where
  -- The runes that are no white space.
  unfoldable pub solid : Text → Text
  solid [] = []
  solid (r ∷ text) = let rest = solid text in if u.is_space r then rest else r ∷ rest

  abbrev IsPlain : ℕ → Type 0
  IsPlain r = (u.is_space r || is_punct u r) ≡ false

  -- One punctuation rune, or runes that are neither white space nor punctuation.
  abbrev pub IsWord : Text → Type 0
  IsWord w = (0 < length w) × (((r : ℕ) × (w ≡ r ∷ []) × (is_punct u r ≡ true)) ⊎ All IsPlain w)

  join-flush : (cur : Text) (ws : List Text) → join (flush cur ws) ≡ cur ++ join ws
  unfolding join flush
  join-flush [] ws = refl
  join-flush (c ∷ cur) ws = refl

  flush-IsWord :
      (cur : Text) (ws : List Text) → All IsPlain cur → All IsWord ws → All IsWord (flush cur ws)
  unfolding flush
  flush-IsWord [] ws p h = h
  flush-IsWord (c ∷ cur) ws p h = ((omega arith, inr p), h)

  join-split_from : (cur text : Text) → join (split_from u cur text) ≡ cur ++ solid text
  unfolding split_from solid join
  join-split_from cur [] = join-flush cur []
  join-split_from cur (r ∷ text) = elim (Bool-cases (u.is_space r)) [
    | inl s ↦
        rw (s, split_from, solid)
          (join-flush cur (split_from u [] text) ∙ ap (◌++◌ cur) (join-split_from [] text))
    | inr s ↦ elim (Bool-cases (is_punct u r)) [
      | inl p ↦
          rw (s, p, split_from, solid)
            (join-flush cur ((r ∷ []) ∷ split_from u [] text)
              ∙ ap (λ (t : Text). cur ++ t) (ap (◌∷◌ r) (join-split_from [] text)))
      | inr p ↦
          rw (s, p, split_from, solid)
            (join-split_from (cur ++ r ∷ []) text ∙ append_assoc cur (r ∷ []) (solid text))
    ]
  ]

  split_from-IsWord : (cur text : Text) → All IsPlain cur → All IsWord (split_from u cur text)
  unfolding split_from
  split_from-IsWord cur [] h = flush-IsWord cur [] h tt
  split_from-IsWord cur (r ∷ text) h = elim (Bool-cases (u.is_space r)) [
    | inl s ↦
        rw (s, split_from)
          (flush-IsWord cur (split_from u [] text) h (split_from-IsWord [] text tt))
    | inr s ↦ elim (Bool-cases (is_punct u r)) [
      | inl p ↦
          rw (s, p, split_from)
            (flush-IsWord cur ((r ∷ []) ∷ split_from u [] text) h
              ((omega arith, inl (r, refl, p)), split_from-IsWord [] text tt))
      | inr p ↦
          let plain : IsPlain r = ground arith in
          rw (s, p, split_from)
            (split_from-IsWord (cur ++ r ∷ []) text (All-append IsPlain cur (r ∷ []) h (plain, tt)))
    ]
  ]

  -- The words of a text, one after another, are the text without its white space. No word is empty, and
  -- each is one punctuation rune or has no punctuation and no white space.
  pub split_basic_lem :
      (text : Text) → (join (split_basic u text) ≡ solid text) × All IsWord (split_basic u text)
  unfolding split_basic
  split_basic_lem text = (join-split_from [] text, split_from-IsWord [] text tt)
