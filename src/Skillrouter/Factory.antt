-- ===== src/Skillrouter/Factory.antt =====
-- skillrouter/factory.go: the matchers that the package recommends, on the TF-IDF embedder.
use nadir.Prelude.{
  ◌≡◌, refl, subst, Option, none, some, List, [], ◌∷◌, if◌then◌else◌, Bool-cases, inl, inr,
}
use nadir.Prelude.Float.{Float}
use nadir.Prelude.Text.{Text, codes, is_empty}
use nadir.Types.Client.{Client}
use nadir.Types.Errors.{GoError, Result, ok, err, Result-cases}
use nadir.Types.Json.{Json}
use nadir.Skillrouter.{Skill}
use nadir.Skillrouter.Semantic.{Semantic, Embedder, new_semantic, prototypes}
use nadir.Skillrouter.Cascade.{Cascade, new_cascade, with_shortlist_k, route}
use nadir.Skillrouter.Cascade.Catalog.{AllFrom, route_catalog}
use nadir.Skillrouter.Embedders.{Library, Tfidf, new_tfidf_from_skills, tfidf_embed}

module _ {F : Type 0} ⦃f : Float F⦄ (lib : Library F) where
  -- The embedder of a fitted table, which never fails.
  unfoldable pub tfidf_embedder : Tfidf F → Embedder F
  unfolding tfidf_embed
  tfidf_embedder t text = ok (tfidf_embed lib t text)

  unfoldable pub tfidf_semantic : List Skill → Result (Semantic F)
  unfolding tfidf_embedder new_tfidf_from_skills new_semantic
  tfidf_semantic skills =
      new_semantic (some (tfidf_embedder (new_tfidf_from_skills lib skills))) skills
        (f.decimal 25 2)

  -- NewLexical
  unfoldable pub new_lexical : List Skill → Result (Semantic F)
  unfolding tfidf_semantic
  new_lexical [] = err (GoError.plain (codes "skillrouter: empty skill catalog"))
  new_lexical (s ∷ skills) = tfidf_semantic (s ∷ skills)

  -- NewHybrid
  unfoldable pub new_hybrid : Option Client → Text → List Skill → Result (Cascade F)
  unfolding tfidf_semantic new_cascade with_shortlist_k
  new_hybrid client model [] = err (GoError.plain (codes "skillrouter: empty skill catalog"))
  new_hybrid none model (s ∷ skills) = err (GoError.plain (codes "skillrouter: nil LLM client"))
  new_hybrid (some client) model (s ∷ skills) =
      if is_empty model
      then err (GoError.plain (codes "skillrouter: empty LLM model"))
      else (elim (tfidf_semantic (s ∷ skills)) [
        | err e ↦ err e
        | ok primary ↦ ok (
            with_shortlist_k 5 (record (new_cascade (some primary) (some client) model) {
              min_margin = f.decimal 10 2;
            }))
      ])

  abbrev pub OnCascade : (Cascade F → Type 0) → Result (Cascade F) → Type 0
  OnCascade P (ok c) = P c
  OnCascade P (err e) = Unit

  abbrev OnSemantic : (Semantic F → Type 0) → Result (Semantic F) → Type 0
  OnSemantic P (ok s) = P s
  OnSemantic P (err e) = Unit

  tfidf_semantic-skills :
      (s : Skill) (skills : List Skill)
      → OnSemantic (λ m. m.skills ≡ s ∷ skills) (tfidf_semantic (s ∷ skills))
  unfolding tfidf_semantic new_semantic
  tfidf_semantic-skills s skills =
      elim (Result-cases
        (prototypes (tfidf_embedder (new_tfidf_from_skills lib (s ∷ skills))) (s ∷ skills))) [
          | inl (vecs, q) ↦ rw (tfidf_semantic, new_semantic, q) refl
          | inr (e, q) ↦ rw (tfidf_semantic, new_semantic, q) tt
        ]

  -- Whatever the model replies, what NewHybrid builds from a catalog decides for a skill of the catalog or falls
  -- through.
  pub new_hybrid_catalog :
      (minus_inf : F) (j : Json) (client : Option Client) (model : Text) (skills : List Skill)
      (prompt : Text)
      → OnCascade
          (λ c. AllFrom skills (route minus_inf j c prompt))
          (new_hybrid client model skills)
  unfolding new_hybrid
  new_hybrid_catalog minus_inf j client model [] prompt = tt
  new_hybrid_catalog minus_inf j none model (s ∷ skills) prompt = tt
  new_hybrid_catalog minus_inf j (some client) model (s ∷ skills) prompt =
      elim (Bool-cases (is_empty model)) [
        | inl e ↦ rw (new_hybrid, e) tt
        | inr e ↦ elim (Result-cases (tfidf_semantic (s ∷ skills))) [
          | inr (x, q) ↦ rw (new_hybrid, e, q) tt
          | inl (primary, q) ↦
              let c = with_shortlist_k 5 (record (new_cascade (some primary) (some client) model) {
                min_margin = f.decimal 10 2;
              }) in
              let same : primary.skills ≡ s ∷ skills =
                subst (OnSemantic (λ m. m.skills ≡ s ∷ skills)) q
                  (tfidf_semantic-skills s skills) in
              let whole : c.primary ≡ some primary =
                unfold with_shortlist_k in unfold new_cascade in refl in
              rw (new_hybrid, e, q)
                (subst (λ (catalog : List Skill). AllFrom catalog (route minus_inf j c prompt)) same
                  (route_catalog minus_inf j c primary prompt whole))
        ]
      ]
