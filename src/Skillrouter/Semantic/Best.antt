-- ===== src/Skillrouter/Semantic/Best.antt =====
-- The scores of Rank: for each skill the largest cosine of its exemplars.
use mathlib.Core.List.{Perm}
use nadir.Prelude.{
  ℕ, ◌≡◌, refl, subst, true, false, List, [], ◌∷◌, ◌==◌, ◌⊎◌, if◌then◌else◌, take, All, Bool-cases,
  inl, inr,
}
use nadir.Prelude.Float.{Float, FloatOrder}
use nadir.Prelude.Text.{Text, is_empty}
use nadir.Types.Errors.{ok}
use nadir.Skillrouter.{Skill}
use nadir.Skillrouter.Semantic.{Semantic, Ranked, cosine, best_cosine, score_all, rank, sort_ranked}
use nadir.Skillrouter.Semantic.Ranking.{
  IsNumber, IsDescending, rank-take, sort_ranked-perm, sort_ranked-IsDescending,
}

module _ {F : Type 0} ⦃f : Float F⦄ (minus_inf : F) where
  -- The cosine of a vector with the prompt's is no NaN.
  abbrev pub IsFinite : List F → List F → Type 0
  IsFinite q v = f.le_float (cosine minus_inf q v) (cosine minus_inf q v) ≡ true

  -- The score is the cosine of one of the vectors.
  abbrev pub IsCosineOf : List F → List (List F) → F → Type 0
  IsCosineOf q [] b = ⊥
  IsCosineOf q (v ∷ vecs) b = (b ≡ cosine minus_inf q v) ⊎ IsCosineOf q vecs b

  -- No cosine is above the score, which is one of them, or minus infinity where there is none.
  abbrev pub IsBest : List F → List (List F) → F → Type 0
  IsBest q vecs b =
      All (λ (v : List F). f.le_float (cosine minus_inf q v) b ≡ true) vecs
      × ((b ≡ minus_inf) ⊎ IsCosineOf q vecs b)

  -- One entry for each skill, in the order of the catalog, with its name and its best cosine.
  abbrev pub AreBest : List F → List Skill → List (List (List F)) → List (Ranked F) → Type 0
  AreBest q [] _ ranked = ranked ≡ []
  AreBest q (s ∷ skills) [] ranked = ranked ≡ []
  AreBest q (s ∷ skills) (vecs ∷ proto_vecs) [] = ⊥
  AreBest q (s ∷ skills) (vecs ∷ proto_vecs) (r ∷ ranked) =
      (r.skill ≡ s.name) × IsBest q vecs r.score × AreBest q skills proto_vecs ranked

  module _ (laws : FloatOrder F) where
    -- What the loop makes of the exemplars from a best score on.
    abbrev IsTop : List F → List (List F) → F → F → Type 0
    IsTop q vecs best b =
        (f.le_float b b ≡ true)
        × (f.le_float best b ≡ true)
        × All (λ (v : List F). f.le_float (cosine minus_inf q v) b ≡ true) vecs
        × ((b ≡ best) ⊎ IsCosineOf q vecs b)

    best_cosine_lem :
        (q : List F) (vecs : List (List F)) (best : F)
        → f.le_float best best ≡ true
        → All (IsFinite q) vecs
        → IsTop q vecs best (best_cosine minus_inf q vecs best)
    unfolding best_cosine
    best_cosine_lem q [] best n h = (n, n, tt, inl refl)
    best_cosine_lem q (v ∷ vecs) best n h =
        let c = cosine minus_inf q v in
        elim (Bool-cases (f.lt_float best c)) [
          | inl e ↦
              let (number, above, all, found) = best_cosine_lem q vecs c h.0 h.1 in
              let low = laws.le_float_trans best c _ (laws.le_of_lt best c e) above in
              let step : best_cosine minus_inf q vecs c ≡ best_cosine minus_inf q (v ∷ vecs) best =
                rw e refl in
              subst (IsTop q (v ∷ vecs) best) step (number, low, (above, all), inr found)
          | inr e ↦
              let (number, above, all, found) = best_cosine_lem q vecs best n h.1 in
              let low = laws.le_float_trans c best _ (laws.lt_or_le best c n h.0 e) above in
              let step : best_cosine minus_inf q vecs best
                  ≡ best_cosine minus_inf q (v ∷ vecs) best =
                rw e refl in
              subst (IsTop q (v ∷ vecs) best) step
                (number, above, (low, all), elim found [ inl s ↦ inl s | inr m ↦ inr (inr m) ])
        ]

    score_all_lem :
        (q : List F) (skills : List Skill) (proto_vecs : List (List (List F)))
        → f.le_float minus_inf minus_inf ≡ true
        → All (All (IsFinite q)) proto_vecs
        → AreBest q skills proto_vecs (score_all minus_inf q skills proto_vecs)
          × All IsNumber (score_all minus_inf q skills proto_vecs)
    unfolding score_all
    score_all_lem q [] proto_vecs n h = (refl, tt)
    score_all_lem q (s ∷ skills) [] n h = (refl, tt)
    score_all_lem q (s ∷ skills) (vecs ∷ proto_vecs) n h =
        let (number, _, all, found) = best_cosine_lem q vecs minus_inf n h.0 in
        let (best, numbers) = score_all_lem q skills proto_vecs n h.1 in
        ((refl, (all, found), best), (number, numbers))

    -- Where the embedder embeds a prompt that is not empty, and neither minus infinity nor a cosine is a NaN:
    -- each skill has the largest of the cosines of its exemplars for its score, and Rank returns the skills
    -- with their scores in descending order, all of them for k = 0 and the first k otherwise.
    pub rank_lem :
        (s : Semantic F) (prompt : Text) (k : ℕ) (q : List F)
        → is_empty prompt ≡ false
        → s.emb prompt ≡ ok q
        → f.le_float minus_inf minus_inf ≡ true
        → All (All (IsFinite q)) s.proto_vecs
        → (scores : List (Ranked F)) × (sorted : List (Ranked F)) × AreBest q s.skills s.proto_vecs
            scores
          × Perm sorted scores
          × IsDescending sorted
          × (rank minus_inf s prompt k ≡ ok (if k == 0 then sorted else take k sorted))
    rank_lem s prompt k q h e n finite =
        let scores = score_all minus_inf q s.skills s.proto_vecs in
        let (best, numbers) = score_all_lem q s.skills s.proto_vecs n finite in
        (
          scores,
          sort_ranked minus_inf scores,
          best,
          sort_ranked-perm minus_inf scores,
          sort_ranked-IsDescending minus_inf laws scores numbers,
          rank-take minus_inf s prompt k q h e,
        )
