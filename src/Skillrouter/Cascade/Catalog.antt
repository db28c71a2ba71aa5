-- ===== src/Skillrouter/Cascade/Catalog.antt =====
-- The skills that the cascade can decide for.
use nadir.Prelude.{
  ℕ, ◌≡◌, refl, ap, subst, ◌⊎◌, ◌∙◌, arith, true, not, ◌&&◌, ◌||◌, Option, none, some, List, [],
  ◌∷◌, ltb, if◌then◌else◌, length, List-cases, All, All-take, All-map, Bool-cases, Option-cases,
  inl, inr,
}
use nadir.Prelude.Float.{Float}
use nadir.Prelude.Text.{Text, text_eq_self, text_mem, is_empty}
use nadir.Types.{ChatResponse}
use nadir.Types.Errors.{Result, ok, err, Result-cases}
use nadir.Types.Json.{Json}
use nadir.Types.Client.{ask}
use nadir.Skillrouter.{Skill, Decision}
use nadir.Skillrouter.Prompt.{fallthrough, parse_skill, extract_text, render_prompt}
use nadir.Skillrouter.Prompt.Replies.{names, parse_skill_lem}
use nadir.Skillrouter.Router
use nadir.Skillrouter.Router.{Router, answer, new_router}
use nadir.Skillrouter.Semantic.{Semantic, Ranked, rank, score_all, sort_ranked, margin_of}
use nadir.Skillrouter.Semantic.Ranking.{All-sort_ranked}
use nadir.Skillrouter.Cascade.Shortlist.{IsWithin, within-names, make_shortlist-IsWithin}
use nadir.Skillrouter.Cascade.{
  Cascade, make_shortlist, rerank, is_zero, keep_margin, no_client, decide, route,
}

module _ {F : Type 0} where
  -- The decision falls through or is a skill of the catalog.
  abbrev pub IsFrom : List Skill → Decision F → Type 0
  IsFrom catalog d = (d.fell_through ≡ true) ⊎ (text_mem d.skill (names catalog) ≡ true)

  -- So does the decision of a result that has one.
  abbrev pub AllFrom : List Skill → Result (Decision F) → Type 0
  AllFrom catalog (ok d) = IsFrom catalog d
  AllFrom catalog (err e) = Unit

  AllFrom-within :
      (catalog skills : List Skill) (r : Result (Decision F))
      → IsWithin catalog skills
      → AllFrom skills r
      → AllFrom catalog r
  AllFrom-within catalog skills (ok d) w (inl e) = inl e
  AllFrom-within catalog skills (ok d) w (inr h) = inr (within-names catalog skills d.skill w h)
  AllFrom-within catalog skills (err e) w h = tt

module _ (F : Type 0) ⦃f : Float F⦄ where
  parse_skill-IsFrom :
      (raw : Text) (skills : List Skill) → IsFrom skills (parse_skill {F = F} raw skills)
  unfolding fallthrough
  parse_skill-IsFrom raw skills = elim (parse_skill_lem {F = F} raw skills) [
    | inl (e, why) ↦ inl (ap (λ (d : Decision F). d.fell_through) e)
    | inr (e, (member, inside, longest)) ↦ inr member
  ]

  answer-AllFrom :
      (j : Json) (skills : List Skill) (resp : Option ChatResponse)
      → AllFrom skills (answer {F = F} j skills resp)
  unfolding answer
  answer-AllFrom j skills none = tt
  answer-AllFrom j skills (some resp) = elim (List-cases resp.choices) [
    | inl q ↦ rw (q, answer) tt
    | inr (choice, more, q) ↦
        rw (q, answer) (parse_skill-IsFrom (extract_text j choice.message.content) skills)
  ]

  route-AllFrom :
      (j : Json) (r : Router) (prompt : Text) → AllFrom r.skills (Router.route {F = F} j r prompt)
  unfolding Router.route
  route-AllFrom j r prompt = elim (Option-cases r.client) [
    | inl q ↦ rw (q, Router.route) tt
    | inr (client, q) ↦ elim (List-cases r.skills) [
      | inl e ↦ rw (q, e, Router.route) tt
      | inr (s, skills, e) ↦
          elim (Result-cases
            (client (ask j r.model r.max_tokens (render_prompt (s ∷ skills) prompt)))) [
              | inl (resp, p) ↦ rw (q, e, Router.route, p) (answer-AllFrom j (s ∷ skills) resp)
              | inr (x, p) ↦ rw (q, e, Router.route, p) tt
            ]
    ]
  ]

module _ {F : Type 0} ⦃f : Float F⦄ where
  keep_margin-IsFrom :
      (catalog : List Skill) (margin : F) (d : Decision F)
      → IsFrom catalog d
      → IsFrom catalog (keep_margin margin d)
  unfolding keep_margin
  keep_margin-IsFrom catalog margin d h =
      elim (Bool-cases (not d.fell_through && is_zero d.margin)) [
        | inl e ↦ rw (e, keep_margin) h
        | inr e ↦ rw (e, keep_margin) h
      ]

  rerank-AllFrom :
      (j : Json) (c : Cascade F) (prompt : Text) (catalog shortlist : List Skill)
      → IsWithin catalog shortlist
      → AllFrom catalog (rerank j c prompt shortlist)
  unfolding rerank
  rerank-AllFrom j c prompt catalog shortlist w =
      let r : Router =
        new_router c.llm_client c.llm_model shortlist
          (if ltb 0 c.max_tokens then c.max_tokens else 32) in
      AllFrom-within catalog shortlist (Router.route j r prompt) w (route-AllFrom F j r prompt)

  decide-AllFrom :
      (j : Json) (c : Cascade F) (primary : Semantic F) (prompt : Text) (top : Ranked F)
      (others : List (Ranked F))
      → text_mem top.skill (names primary.skills) ≡ true
      → AllFrom primary.skills (decide j c primary prompt top others)
  unfolding decide
  decide-AllFrom j c primary prompt top others h =
      let margin = margin_of top others in
      let shortlist = make_shortlist primary (top ∷ others) in
      elim (Bool-cases (f.lt_float top.score primary.min_score)) [
        | inl low ↦ rw (low, decide) (inl refl)
        | inr high ↦
            elim (Bool-cases
              (f.le_float c.min_margin margin || no_client c || is_empty c.llm_model)) [
                | inl sure ↦ rw (high, sure, decide) (inr h)
                | inr unsure ↦ elim (Result-cases (rerank j c prompt shortlist)) [
                  | inr (e, q) ↦ rw (high, unsure, q, decide) (inr h)
                  | inl (d, q) ↦
                      let from : IsFrom primary.skills d = subst (AllFrom primary.skills) q (
                        rerank-AllFrom j c prompt primary.skills shortlist
                          (make_shortlist-IsWithin primary (top ∷ others))) in
                      rw (high, unsure, q, decide) (keep_margin-IsFrom primary.skills margin d from)
                ]
              ]
      ]

  abbrev IsNamed : List Skill → Ranked F → Type 0
  IsNamed catalog r = text_mem r.skill (names catalog) ≡ true

module _ {F : Type 0} ⦃f : Float F⦄ (minus_inf : F) where
  score_all-IsNamed :
      (q : List F) (skills : List Skill) (proto_vecs : List (List (List F)))
      → All (IsNamed skills) (score_all minus_inf q skills proto_vecs)
  unfolding score_all names text_mem
  score_all-IsNamed q [] proto_vecs = tt
  score_all-IsNamed q (s ∷ skills) [] = tt
  score_all-IsNamed q (s ∷ skills) (vecs ∷ proto_vecs) = (
    ground (arith, text_eq_self s.name),
    All-map _ (IsNamed (s ∷ skills)) (score_all minus_inf q skills proto_vecs) (λ r h. ground arith)
        (score_all-IsNamed q skills proto_vecs),
  )

  abbrev AllNamed : List Skill → Result (List (Ranked F)) → Type 0
  AllNamed catalog (ok out) = All (IsNamed catalog) out
  AllNamed catalog (err e) = Unit

  rank-AllNamed :
      (s : Semantic F) (prompt : Text) (k : ℕ) → AllNamed s.skills (rank minus_inf s prompt k)
  unfolding rank
  rank-AllNamed s prompt k = elim (Bool-cases (is_empty prompt)) [
    | inl h ↦ rw (h, rank) tt
    | inr h ↦ elim (Result-cases (s.emb prompt)) [
      | inr (x, e) ↦ rw (h, e, rank) tt
      | inl (q, e) ↦
          let sorted = sort_ranked minus_inf (score_all minus_inf q s.skills s.proto_vecs) in
          let all_named : All (IsNamed s.skills) sorted =
            All-sort_ranked minus_inf (IsNamed s.skills)
              (score_all minus_inf q s.skills s.proto_vecs)
              (score_all-IsNamed q s.skills s.proto_vecs) in
          rw (h, e, rank)
            (elim (Bool-cases (ltb 0 k && ltb k (length sorted))) [
              | inl cut ↦ rw cut (All-take (IsNamed s.skills) k sorted all_named)
              | inr whole ↦ rw whole all_named
            ])
    ]
  ]

  -- Whatever the embedder and the model return, a decision of the cascade falls through or is the name of a
  -- skill of the primary's catalog.
  pub route_catalog :
      (j : Json) (c : Cascade F) (primary : Semantic F) (prompt : Text)
      → c.primary ≡ some primary
      → AllFrom primary.skills (route minus_inf j c prompt)
  unfolding route
  route_catalog j c primary prompt p =
      elim (Result-cases (rank minus_inf primary prompt c.shortlist_k)) [
        | inr (e, q) ↦ rw (p, q, route) tt
        | inl (out, q) ↦ elim (List-cases out) [
          | inl none_left ↦ rw (p, q, none_left, route) (unfold fallthrough in inl refl)
          | inr (top, others, front) ↦
              let named : All (IsNamed primary.skills) (top ∷ others) =
                subst (AllNamed primary.skills) (q ∙ ap ok front)
                  (rank-AllNamed primary prompt c.shortlist_k) in
              rw (p, q, front, route) (decide-AllFrom j c primary prompt top others named.0)
        ]
      ]
