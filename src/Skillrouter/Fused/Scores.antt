-- ===== src/Skillrouter/Fused/Scores.antt =====
-- The fused scores, skill by skill.
use nadir.Prelude.{ℕ, suc, ◌≡◌, refl, ap, ◌∙◌, arith, Option, some, List, [], ◌∷◌, if◌then◌else◌}
use nadir.Prelude.Dict
use nadir.Prelude.Dict.{Dict, get-put}
use nadir.Prelude.Float.{Float}
use nadir.Prelude.Text.{Text, text_eq, text_eq_iff}
use nadir.Skillrouter.Semantic.{Ranked}
use nadir.Skillrouter.Fused.{or_zero, rank_score, fuse_ranking, fuse}

module _ {F : Type 0} ⦃f : Float F⦄ where
  -- What one ranking adds to the score of a skill.
  unfoldable pub score_in : F → Text → ℕ → List (Ranked F) → Option F → Option F
  score_in k s i [] x = x
  score_in k s i (r ∷ ranked) x =
      score_in k s (suc i) ranked
        (if text_eq r.skill s then some (f.add (or_zero x) (rank_score k i)) else x)

  unfoldable score_of : F → Text → List (List (Ranked F)) → Option F → Option F
  unfolding score_in
  score_of k s [] x = x
  score_of k s (ranked ∷ rankings) x = score_of k s rankings (score_in k s 0 ranked x)

  fuse_ranking-get :
      (k : F) (s : Text) (i : ℕ) (ranked : List (Ranked F)) (fused : Dict F)
      → Dict.get (fuse_ranking k i ranked fused) s ≡ score_in k s i ranked (Dict.get fused s)
  unfolding fuse_ranking score_in
  fuse_ranking-get k s i [] fused = refl
  fuse_ranking-get k s i (r ∷ ranked) fused =
      let x = f.add (or_zero (Dict.get fused r.skill)) (rank_score k i) in
      fuse_ranking-get k s (suc i) ranked (Dict.put fused r.skill x)
      ∙ ap (score_in k s (suc i) ranked)
          (ground (arith, get-put fused r.skill s x, text_eq_iff r.skill s))

  -- The map of fused scores gives each skill the sum, in the order of the matchers, of 1 / (k + rank) over the
  -- places that the skill has in their rankings, and has no other skills.
  fuse-get :
      (k : F) (s : Text) (rankings : List (List (Ranked F))) (fused : Dict F)
      → Dict.get (fuse k rankings fused) s ≡ score_of k s rankings (Dict.get fused s)
  unfolding fuse score_of
  fuse-get k s [] fused = refl
  fuse-get k s (ranked ∷ rankings) fused =
      fuse-get k s rankings (fuse_ranking k 0 ranked fused)
      ∙ ap (score_of k s rankings) (fuse_ranking-get k s 0 ranked fused)
