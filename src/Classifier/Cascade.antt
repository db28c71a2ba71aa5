-- ===== src/Classifier/Cascade.antt =====
-- classifier/cascading.go: a primary classifier, and a secondary one for verdicts of low confidence.
-- A classifier is a function of the prompt; the timeout of the secondary is one of its errors.
use nadir.Prelude.{
  ◌≡◌, ◌⊎◌, inl, inr, refl, false, Option, none, some, if◌then◌else◌, Bool-cases, Option-cases,
}
use nadir.Prelude.Float.{Float}
use nadir.Prelude.Text.{Text}
use nadir.Types.Errors.{Result, ok, err, Result-cases}
use nadir.Router.{Verdict}

pub record Cascading (F : Type 0) : Type 0 where
  pub primary : Text → Result (Verdict F)
  pub secondary : Option (Text → Result (Verdict F))
  pub confidence_threshold : F

unfoldable pub confidence_of : {F : Type 0} → Verdict F → F
confidence_of (tier, score, confidence) = confidence

module _ {F : Type 0} ⦃f : Float F⦄ where
  -- Cascading.Classify
  unfoldable pub classify : Cascading F → Text → Result (Verdict F)
  unfolding confidence_of
  classify c prompt = elim (c.primary prompt) [
    | err e ↦ err e
    | ok v ↦ elim c.secondary [
      | none ↦ ok v
      | some secondary ↦
          if f.le_float c.confidence_threshold (confidence_of v)
          then ok v
          else (elim (secondary prompt) [ err _ ↦ ok v | ok v2 ↦ ok v2 ])
    ]
  ]

  -- Where the primary has a verdict the cascade has one too, whatever the secondary does: it is
  -- the primary's, or the secondary's where the primary's confidence is not up to the threshold.
  pub classify_total :
      (c : Cascading F) (prompt : Text) (v : Verdict F)
      → c.primary prompt ≡ ok v
      → (classify c prompt ≡ ok v)
        ⊎ ((secondary : Text → Result (Verdict F)) × (v2 : Verdict F) × (c.secondary
              ≡ some secondary)
            × (secondary prompt ≡ ok v2)
            × (f.le_float c.confidence_threshold (confidence_of v) ≡ false)
            × (classify c prompt ≡ ok v2))
  unfolding classify
  classify_total c prompt v h = elim (Option-cases c.secondary) [
    | inl q ↦ inl (rw (h, q, classify) refl)
    | inr (secondary, q) ↦ elim (Bool-cases (f.le_float c.confidence_threshold (confidence_of v))) [
      | inl sure ↦ inl (rw (h, q, sure, classify) refl)
      | inr unsure ↦ elim (Result-cases (secondary prompt)) [
        | inl (v2, r) ↦ inr (secondary, v2, q, r, unsure, rw (h, q, unsure, r, classify) refl)
        | inr (e, r) ↦ inl (rw (h, q, unsure, r, classify) refl)
      ]
    ]
  ]
