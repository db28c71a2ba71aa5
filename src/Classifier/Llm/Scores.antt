-- ===== src/Classifier/Llm/Scores.antt =====
-- The scores that the model's replies give.
use nadir.Prelude.{
  ℕ, ◌≡◌, refl, inl, inr, arith, true, false, not, Option, none, some, List, [], ◌∷◌, List-cases,
  Option-cases, Bool-cases, All, All-map, subst,
}
use nadir.Prelude.Fields.{IsField, fields_func_lem, All-trim_right}
use nadir.Prelude.Float.{Float, FloatOrder}
use nadir.Prelude.Text.{Text, codes, is_empty, trim_right, trim_space, trim_prefix, to_lower, trim}
use nadir.Types.{ChatResponse}
use nadir.Types.Client.{ask}
use nadir.Types.Errors.{Result, ok, err, Result-cases}
use nadir.Types.Json.{Json}
use nadir.Classifier.Bucket.{Thresholds}
use nadir.Classifier.Llm.{
  Llm, is_number_byte, is_dot, is_fence, score_tokens, clamp_score, first_float, parse_score,
  scored, classify, IsScored, classify_prompt, truncate_prompt,
}

abbrev pub IsNumeral : Text → Type 0
IsNumeral = All (λ (c : ℕ). is_number_byte c ≡ true)

score_tokens-IsNumeral : (s : Text) → All IsNumeral (score_tokens s)
unfolding score_tokens
score_tokens-IsNumeral s =
    let separates = λ (c : ℕ). not (is_number_byte c) in
    let reply =
      trim_space (trim_prefix (to_lower (trim_space (trim is_fence s))) (codes "score:")) in
    All-map (IsField separates) IsNumeral (score_tokens s)
      (λ w h.
        All-map (λ (c : ℕ). separates c ≡ false) (λ (c : ℕ). is_number_byte c ≡ true) w
          (λ c e. ground arith) h.1)
      ((fields_func_lem separates reply).1)

module _ {F : Type 0} ⦃f : Float F⦄ where
  abbrev pub IsUnit : F → Type 0
  IsUnit x = (f.le_float (f.decimal 0 0) x ≡ true) × (f.le_float x (f.decimal 1 0) ≡ true)

  clamp_score-IsUnit :
      (laws : FloatOrder F) (x : F) → f.le_float x x ≡ true → IsUnit (clamp_score x)
  unfolding clamp_score
  clamp_score-IsUnit laws x number = ground (
    arith,
    laws.lt_or_le x (f.decimal 0 0) number (laws.decimal_number 0 0),
    laws.lt_or_le (f.decimal 1 0) x (laws.decimal_number 1 0) number,
    laws.lt_or_le (f.decimal 1 0) (f.decimal 0 0) (laws.decimal_number 1 0)
        (laws.decimal_number 0 0),
    laws.decimal_number 0 0,
    laws.decimal_number 1 0,
    laws.zero_one,
  )

  -- What holds of a result's value.
  abbrev pub OnValue : (F → Type 0) → Result F → Type 0
  OnValue P (ok v) = P v
  OnValue P (err e) = Unit

  abbrev pub OnSome : (F → Type 0) → Option F → Type 0
  OnSome P (some v) = P v
  OnSome P none = Unit

  module _ (laws : FloatOrder F) (parse_float : Text → Option F)
      (numerals : (t : Text) (v : F)
        → IsNumeral t
        → parse_float t ≡ some v
        → f.le_float v v ≡ true) where
    first_float-IsUnit :
        (toks : List Text) → All IsNumeral toks → OnSome IsUnit (first_float parse_float toks)
    unfolding first_float
    first_float-IsUnit [] h = tt
    first_float-IsUnit (tok ∷ toks) h = elim (Option-cases (parse_float (trim_right is_dot tok))) [
      | inl q ↦ rw (q, first_float) (first_float-IsUnit toks h.1)
      | inr (v, q) ↦
          rw (q, first_float)
            (clamp_score-IsUnit laws v
              (numerals (trim_right is_dot tok) v (All-trim_right _ is_dot tok h.0) q))
    ]

    parse_score-IsUnit : (j : Json) (raw : Text) → OnValue IsUnit (parse_score parse_float j raw)
    unfolding parse_score
    parse_score-IsUnit j [] = tt
    parse_score-IsUnit j (c ∷ raw) = elim (Option-cases (j.decode_string (c ∷ raw))) [
      | inl q ↦ rw (q, parse_score) tt
      | inr (s, q) ↦ elim (Bool-cases (is_empty s)) [
        | inl e ↦ rw (q, parse_score, e) tt
        | inr e ↦ elim (Option-cases (first_float parse_float (score_tokens s))) [
          | inl p ↦ rw (q, parse_score, e, p) tt
          | inr (v, p) ↦
              rw (q, parse_score, e, p)
                (subst (OnSome IsUnit) p
                  (first_float-IsUnit (score_tokens s) (score_tokens-IsNumeral s)))
        ]
      ]
    ]

    scored-IsScored :
        (j : Json) (t : Thresholds F) (resp : Option ChatResponse)
        → IsScored t (scored parse_float j t resp)
    unfolding scored
    scored-IsScored j t none = tt
    scored-IsScored j t (some resp) = elim (List-cases resp.choices) [
      | inl q ↦ rw (q, scored) tt
      | inr (choice, more, q) ↦
          elim (Result-cases (parse_score parse_float j choice.message.content)) [
            | inr (e, p) ↦ rw (q, scored, p) tt
            | inl (v, p) ↦
                let unit : IsUnit v =
                  subst (OnValue IsUnit) p (parse_score-IsUnit j choice.message.content) in
                rw (q, scored, p) (unit.0, unit.1, refl, refl)
          ]
    ]

    -- Whatever the model replies, the classifier fails or its score is a number from 0 to 1, its tier is the
    -- tier of the score, and its confidence is twice the score's distance from 0.5. What the parser of floats
    -- makes of digits, signs, points and exponents is taken not to be a NaN.
    pub classify-IsScored :
        (j : Json) (l : Llm F) (prompt : Text)
        → IsScored l.thresholds (classify parse_float j l prompt)
    unfolding classify
    classify-IsScored j l prompt = elim (Option-cases l.client) [
      | inl q ↦ rw (q, classify) tt
      | inr (client, q) ↦
          elim (Result-cases
            (client (ask j l.model l.max_tokens (classify_prompt (truncate_prompt prompt 4000))))) [
              | inr (e, p) ↦ rw (q, classify, p) tt
              | inl (resp, p) ↦ rw (q, classify, p) (scored-IsScored j l.thresholds resp)
            ]
    ]
