-- ===== src/Skillrouter/Cascade.antt =====
-- skillrouter/cascade.go: the semantic matcher first, and a language model on the shortlist where the
-- first two scores are close.
pub mod Total
pub mod Shortlist
pub mod Catalog
use nadir.Prelude.{
  ℕ, Bool, true, false, ◌&&◌, ◌||◌, not, Option, none, some, List, [], ◌∷◌, ltb, if◌then◌else◌,
}
use nadir.Prelude.Dict
use nadir.Prelude.Dict.{Dict}
use nadir.Prelude.Float.{Float}
use nadir.Prelude.Text.{Text, codes, is_empty}
use nadir.Types.Errors.{GoError, Result, ok, err}
use nadir.Types.Json.{Json}
use nadir.Skillrouter.{Skill, Decision}
use nadir.Skillrouter.Prompt.{fallthrough, picked}
use nadir.Types.Client.{Client}
use nadir.Skillrouter.Router.{Router, new_router}
use nadir.Skillrouter.Router
use nadir.Skillrouter.Semantic.{Semantic, Ranked, rank, margin_of, below_min}

pub record Cascade (F : Type 0) : Type 0 where
  pub primary : Option (Semantic F)
  pub llm_client : Option Client
  pub llm_model : Text
  pub min_margin : F
  pub shortlist_k : ℕ
  pub max_tokens : ℕ

unfoldable pub by_name : List Skill → Dict Skill → Dict Skill
by_name [] m = m
by_name (s ∷ skills) m = by_name skills (Dict.put m s.name s)

module _ {F : Type 0} where
  unfoldable pub pick_skills : Dict Skill → List (Ranked F) → List Skill
  pick_skills m [] = []
  pick_skills m (r ∷ ranked) =
      let rest = pick_skills m ranked in
      elim (Dict.get m r.skill) [ some s ↦ s ∷ rest | none ↦ rest ]

  unfoldable pub make_shortlist : Semantic F → List (Ranked F) → List Skill
  unfolding by_name pick_skills
  make_shortlist primary ranked = pick_skills (by_name primary.skills Dict.empty) ranked

module _ {F : Type 0} ⦃f : Float F⦄ where
  -- WithShortlistK
  unfoldable pub with_shortlist_k : ℕ → Cascade F → Cascade F
  with_shortlist_k k c = if ltb 0 k then record c { shortlist_k = k } else c

  -- NewCascade, without options
  unfoldable pub new_cascade : Option (Semantic F) → Option Client → Text → Cascade F
  new_cascade primary llm_client llm_model = record {
    primary = primary;
    llm_client = llm_client;
    llm_model = llm_model;
    min_margin = f.decimal 10 2;
    shortlist_k = 5;
    max_tokens = 32;
  }

  unfoldable pub rerank : Json → Cascade F → Text → List Skill → Result (Decision F)
  unfolding new_router
  rerank j c prompt shortlist =
      Router.route j
        (new_router c.llm_client c.llm_model shortlist
          (if ltb 0 c.max_tokens then c.max_tokens else 32))
        prompt

  -- d.Margin == 0, of floats
  unfoldable pub is_zero : F → Bool
  is_zero x = f.le_float x (f.decimal 0 0) && f.le_float (f.decimal 0 0) x

  unfoldable pub keep_margin : F → Decision F → Decision F
  unfolding is_zero
  keep_margin margin d =
      if not d.fell_through && is_zero d.margin then record d { margin = margin } else d

  unfoldable pub no_client : Cascade F → Bool
  no_client c = elim c.llm_client [ none ↦ true | some _ ↦ false ]

  -- The part of Cascade.Route behind the ranking.
  unfoldable pub decide :
      Json → Cascade F → Semantic F → Text → Ranked F → List (Ranked F) → Result (Decision F)
  unfolding rerank keep_margin no_client make_shortlist margin_of below_min picked
  decide j c primary prompt top others =
      let margin = margin_of top others in
      if f.lt_float top.score primary.min_score
      then ok (below_min top.score margin)
      else (if f.le_float c.min_margin margin || no_client c || is_empty c.llm_model
          then ok (picked top.skill top.score margin)
          else (elim (rerank j c prompt (make_shortlist primary (top ∷ others))) [
            | err _ ↦ ok (picked top.skill top.score margin)
            | ok d ↦ ok (keep_margin margin d)
          ]))

-- minus_inf is math.Inf(-1).
module _ {F : Type 0} ⦃f : Float F⦄ (minus_inf : F) where
  -- Cascade.Route
  unfoldable pub route : Json → Cascade F → Text → Result (Decision F)
  unfolding decide
  route j c prompt = elim c.primary [
    | none ↦ err (GoError.plain (codes "skillrouter: cascade has no primary"))
    | some primary ↦ elim (rank minus_inf primary prompt c.shortlist_k) [
      | err e ↦ err e
      | ok [] ↦ ok fallthrough
      | ok (top ∷ others) ↦ decide j c primary prompt top others
    ]
  ]
