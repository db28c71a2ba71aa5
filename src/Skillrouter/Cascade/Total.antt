-- ===== src/Skillrouter/Cascade/Total.antt =====
-- The cascade against the semantic matcher alone.
use nadir.Prelude.{
  ℕ, zero, suc, ◌-◌, ◌∙◌, ap, ◌≤◌, ◌≡◌, ◌⊎◌, refl, arith, true, false, ◌||◌, some, List, [], ◌∷◌,
  ◌==◌, if◌then◌else◌, take, Bool-cases, inl, inr,
}
use nadir.Prelude.Float.{Float}
use nadir.Prelude.Text.{Text, codes, is_empty}
use nadir.Types.Errors.{GoError, Result, ok, err, Result-cases}
use nadir.Types.Json.{Json}
use nadir.Skillrouter.{Decision}
use nadir.Skillrouter.Prompt.{picked}
use nadir.Skillrouter.Semantic
use nadir.Skillrouter.Semantic.{
  Semantic, Ranked, rank, below_min, margin_of, score_all, sort_ranked,
}
use nadir.Skillrouter.Semantic.Ranking.{rank-take}
use nadir.Skillrouter.Cascade.{
  Cascade, make_shortlist, rerank, keep_margin, no_client, decide, route,
}

module _ {ℓ} {A : Type ℓ} where
  take_nothing : (k : ℕ) → ◌≡◌ {A = List A} (if k == 0 then [] else take k []) []
  take_nothing zero = refl
  take_nothing (suc k) = ground arith

  take_one : (a : A) (k : ℕ) → 2 ≤ k → (if k == 0 then a ∷ [] else take k (a ∷ [])) ≡ a ∷ []
  take_one a zero h = absurd (omega arith)
  take_one a (suc zero) h = absurd (omega arith)
  take_one a (suc (suc k)) h = ground arith

  take_two :
      (a b : A) (xs : List A) (k : ℕ)
      → 2 ≤ k
      → (if k == 0 then a ∷ b ∷ xs else take k (a ∷ b ∷ xs)) ≡ a ∷ b ∷ take (k - 2) xs
  take_two a b xs zero h = absurd (omega arith)
  take_two a b xs (suc zero) h = absurd (omega arith)
  take_two a b xs (suc (suc k)) h = ground arith

module _ {F : Type 0} ⦃f : Float F⦄ (minus_inf : F) where
  -- What Rank returns does not depend on k but for the cut.
  rank-cases :
      (s : Semantic F) (prompt : Text) (k : ℕ)
      → ((e : GoError) × (rank minus_inf s prompt 0 ≡ err e) × (rank minus_inf s prompt k ≡ err e))
        ⊎ ((sorted : List (Ranked F)) × (rank minus_inf s prompt 0 ≡ ok sorted)
            × (rank minus_inf s prompt k ≡ ok (if k == 0 then sorted else take k sorted)))
  unfolding rank
  rank-cases s prompt k = elim (Bool-cases (is_empty prompt)) [
    | inl h ↦
        inl
          (GoError.plain (codes "skillrouter: empty prompt"), rw (h, rank) refl, rw (h, rank) refl)
    | inr h ↦ elim (Result-cases (s.emb prompt)) [
      | inl (q, e) ↦ inr (
        sort_ranked minus_inf (score_all minus_inf q s.skills s.proto_vecs),
        rank-take minus_inf s prompt 0 q h e,
        rank-take minus_inf s prompt k q h e,
      )
      | inr (x, e) ↦ inl (
        GoError.wrapped (codes "skillrouter: embed prompt: ") x,
        rw (h, e, rank) refl,
        rw (h, e, rank) refl,
      )
    ]
  ]

  -- The model's verdict on a shortlist whose first two scores are close.
  abbrev pub IsReranked : Json → Cascade F → Semantic F → Text → Result (Decision F) → Type 0
  IsReranked j c primary prompt result =
      (top : Ranked F) × (others : List (Ranked F)) × (d : Decision F) × (rank minus_inf primary
          prompt c.shortlist_k
        ≡ ok (top ∷ others))
      × (f.lt_float top.score primary.min_score ≡ false)
      × (f.le_float c.min_margin (margin_of top others) ≡ false)
      × (rerank j c prompt (make_shortlist primary (top ∷ others)) ≡ ok d)
      × (result ≡ ok (keep_margin (margin_of top others) d))

  route-below_min :
      (s : Semantic F) (prompt : Text) (top : Ranked F) (more : List (Ranked F))
      → rank minus_inf s prompt 0 ≡ ok (top ∷ more)
      → f.lt_float top.score s.min_score ≡ true
      → Semantic.route minus_inf s prompt ≡ ok (below_min top.score (margin_of top more))
  unfolding Semantic.route
  route-below_min s prompt top more r low = rw (r, Semantic.route, low) refl

  route-picked :
      (s : Semantic F) (prompt : Text) (top : Ranked F) (more : List (Ranked F))
      → rank minus_inf s prompt 0 ≡ ok (top ∷ more)
      → f.lt_float top.score s.min_score ≡ false
      → Semantic.route minus_inf s prompt ≡ ok (picked top.skill top.score (margin_of top more))
  unfolding Semantic.route
  route-picked s prompt top more r high = rw (r, Semantic.route, high) refl

  decide-cases :
      (j : Json) (c : Cascade F) (primary : Semantic F) (prompt : Text) (top : Ranked F)
      (others more : List (Ranked F))
      → margin_of top others ≡ margin_of top more
      → rank minus_inf primary prompt 0 ≡ ok (top ∷ more)
      → rank minus_inf primary prompt c.shortlist_k ≡ ok (top ∷ others)
      → (decide j c primary prompt top others ≡ Semantic.route minus_inf primary prompt)
        ⊎ IsReranked j c primary prompt (decide j c primary prompt top others)
  unfolding decide
  decide-cases j c primary prompt top others more same r0 rk =
      let margin = margin_of top others in
      elim (Bool-cases (f.lt_float top.score primary.min_score)) [
        | inl low ↦
            inl (rw (route-below_min primary prompt top more r0 low, low, same, decide) refl)
        | inr high ↦
            let alone = route-picked primary prompt top more r0 high in
            elim (Bool-cases
              (f.le_float c.min_margin margin || no_client c || is_empty c.llm_model)) [
                | inl sure ↦ inl (rw (alone, high, sure, decide, same) refl)
                | inr unsure ↦
                    elim (Result-cases
                      (rerank j c prompt (make_shortlist primary (top ∷ others)))) [
                        | inr (e, q) ↦ inl (rw (alone, high, unsure, q, decide, same) refl)
                        | inl (d, q) ↦ inr (
                          top,
                          others,
                          d,
                          rk,
                          high,
                          ground arith,
                          q,
                          rw (high, unsure, q, decide) refl,
                        )
                      ]
              ]
      ]

  route-decide :
      (j : Json) (c : Cascade F) (primary : Semantic F) (prompt : Text) (top : Ranked F)
      (others more : List (Ranked F))
      → c.primary ≡ some primary
      → margin_of top others ≡ margin_of top more
      → rank minus_inf primary prompt 0 ≡ ok (top ∷ more)
      → rank minus_inf primary prompt c.shortlist_k ≡ ok (top ∷ others)
      → (route minus_inf j c prompt ≡ Semantic.route minus_inf primary prompt)
        ⊎ IsReranked j c primary prompt (route minus_inf j c prompt)
  route-decide j c primary prompt top others more p same r0 rk =
      let e : route minus_inf j c prompt ≡ decide j c primary prompt top others =
        unfold route in rw (p, rk, route) refl in
      rw e (decide-cases j c primary prompt top others more same r0 rk)

  route-err :
      (j : Json) (c : Cascade F) (primary : Semantic F) (prompt : Text) (e : GoError)
      → c.primary ≡ some primary
      → rank minus_inf primary prompt 0 ≡ err e
      → rank minus_inf primary prompt c.shortlist_k ≡ err e
      → route minus_inf j c prompt ≡ Semantic.route minus_inf primary prompt
  unfolding route Semantic.route
  route-err j c primary prompt e p r0 rk = rw (p, rk, route, r0, Semantic.route) refl

  route-empty :
      (j : Json) (c : Cascade F) (primary : Semantic F) (prompt : Text)
      → c.primary ≡ some primary
      → rank minus_inf primary prompt 0 ≡ ok []
      → rank minus_inf primary prompt c.shortlist_k ≡ ok []
      → route minus_inf j c prompt ≡ Semantic.route minus_inf primary prompt
  unfolding route Semantic.route
  route-empty j c primary prompt p r0 rk = rw (p, rk, route, r0, Semantic.route) refl

  -- With room for two skills on the shortlist the cascade returns what the semantic matcher alone returns,
  -- its errors included, whether the model is missing, fails or is not asked. The one exception is a verdict
  -- of the model on the shortlist, where the first score is up to the minimum and the gap to the second
  -- is below the margin.
  pub route_or_rerank :
      (j : Json) (c : Cascade F) (primary : Semantic F) (prompt : Text)
      → c.primary ≡ some primary
      → 2 ≤ c.shortlist_k
      → (route minus_inf j c prompt ≡ Semantic.route minus_inf primary prompt)
        ⊎ IsReranked j c primary prompt (route minus_inf j c prompt)
  route_or_rerank j c primary prompt p h = elim (rank-cases primary prompt c.shortlist_k) [
    | inl (e, r0, rk) ↦ inl (route-err j c primary prompt e p r0 rk)
    | inr ([], r0, rk) ↦
        inl (route-empty j c primary prompt p r0 (rk ∙ ap ok (take_nothing c.shortlist_k)))
    | inr (top ∷ [], r0, rk) ↦
        route-decide j c primary prompt top [] [] p refl r0
          (rk ∙ ap ok (take_one top c.shortlist_k h))
    | inr (top ∷ second ∷ more, r0, rk) ↦
        route-decide j c primary prompt top (second ∷ take (c.shortlist_k - 2) more) (second ∷ more)
          p (unfold margin_of in refl) r0 (rk ∙ ap ok (take_two top second more c.shortlist_k h))
  ]
