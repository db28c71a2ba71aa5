-- ===== src/Skillrouter/Fused.antt =====
-- skillrouter/fused.go: several semantic matchers joined by reciprocal rank fusion. The order in which Go goes
-- through a map is an argument.
pub mod Scores
use nadir.Prelude.{
  ℕ, suc, Bool, true, false, ◌&&◌, not, Option, none, some, List, [], ◌∷◌, ltb, ◌==◌, if◌then◌else◌,
  length,
}
use nadir.Prelude.Dict
use nadir.Prelude.Dict.{Dict}
use nadir.Prelude.Float.{Float}
use nadir.Prelude.Text.{Text, codes}
use nadir.Types.Errors.{GoError, Result, ok, err}
use nadir.Skillrouter.{Decision}
use nadir.Skillrouter.Prompt.{fallthrough, picked}
use nadir.Skillrouter.Semantic.{Semantic, Ranked, rank, sort_ranked, margin_of}

pub record FusedSemantic (F : Type 0) : Type 0 where
  pub matchers : List (Semantic F)
  pub k : F

module _ {F : Type 0} where
  -- The loop of NewFusedSemantic; size is that of the first catalog, where the loop is past it.
  unfoldable pub check_matchers : Option ℕ → List (Option (Semantic F)) → Result (List (Semantic F))
  check_matchers size [] = ok []
  check_matchers size (none ∷ matchers) =
      err (GoError.plain (codes "skillrouter: nil matcher in FusedSemantic"))
  check_matchers none (some m ∷ matchers) =
      elim (check_matchers (some (length m.skills)) matchers) [
        | err e ↦ err e
        | ok rest ↦ ok (m ∷ rest)
      ]
  check_matchers (some n) (some m ∷ matchers) =
      let rest = check_matchers (some n) matchers in
      if length m.skills == n
      then (elim rest [ err e ↦ err e | ok ms ↦ ok (m ∷ ms) ])
      else err (
          GoError.plain (codes "skillrouter: FusedSemantic matchers have mismatched catalog sizes"))

module _ {F : Type 0} ⦃f : Float F⦄ where
  -- NewFusedSemantic, which reads none of its options
  unfoldable pub new_fused_semantic : List (Option (Semantic F)) → Result (FusedSemantic F)
  unfolding check_matchers
  new_fused_semantic matchers =
      if ltb (length matchers) 2
      then err (GoError.plain (codes "skillrouter: FusedSemantic needs at least 2 matchers"))
      else (elim (check_matchers none matchers) [
        | err e ↦ err e
        | ok ms ↦ ok (record { matchers = ms; k = f.decimal 60 0 })
      ])

  unfoldable pub or_zero : Option F → F
  or_zero none = f.decimal 0 0
  or_zero (some x) = x

  -- 1.0 / (f.k + float64(rank))
  unfoldable pub rank_score : F → ℕ → F
  rank_score k i = f.div (f.decimal 1 0) (f.add k (f.decimal i 0))

  unfoldable pub fuse_ranking : F → ℕ → List (Ranked F) → Dict F → Dict F
  unfolding or_zero rank_score
  fuse_ranking k i [] fused = fused
  fuse_ranking k i (r ∷ ranked) fused =
      fuse_ranking k (suc i) ranked
        (Dict.put fused r.skill (f.add (or_zero (Dict.get fused r.skill)) (rank_score k i)))

  unfoldable pub fuse : F → List (List (Ranked F)) → Dict F → Dict F
  unfolding fuse_ranking
  fuse k [] fused = fused
  fuse k (ranked ∷ rankings) fused = fuse k rankings (fuse_ranking k 0 ranked fused)

  unfoldable pub entries_of : Dict F → List (Ranked F)
  entries_of [] = []
  entries_of ((s, x) ∷ fused) = (record { skill = s; score = x }) ∷ entries_of fused

  -- len(r) > 0 && r[0].Score >= m.minScore
  unfoldable pub is_viable : Semantic F → List (Ranked F) → Bool
  is_viable m [] = false
  is_viable m (r ∷ _) = f.le_float m.min_score r.score

module _ {F : Type 0} ⦃f : Float F⦄ (minus_inf : F) where
  -- The first loop of Route: the rankings, and whether no matcher is viable.
  unfoldable pub rank_all : List (Semantic F) → Text → Result (List (List (Ranked F)) × Bool)
  unfolding is_viable
  rank_all [] prompt = ok ([], true)
  rank_all (m ∷ matchers) prompt =
      let rest = rank_all matchers prompt in
      elim (rank minus_inf m prompt 0) [
        | err e ↦ err e
        | ok r ↦ elim rest [
          | err e ↦ err e
          | ok (rankings, unviable) ↦ ok (r ∷ rankings, not (is_viable m r) && unviable)
        ]
      ]

  unfoldable pub top_of : List (Ranked F) → Decision F
  top_of [] = fallthrough
  top_of (top ∷ others) = picked top.skill top.score (margin_of top others)

  -- FusedSemantic.Route
  unfoldable pub route : (Dict F → Dict F) → FusedSemantic F → Text → Result (Decision F)
  unfolding rank_all fuse entries_of top_of
  route iterate s prompt = elim (rank_all s.matchers prompt) [
    | err e ↦ err e
    | ok (rankings, unviable) ↦
        if unviable
        then ok fallthrough
        else ok
            (top_of (sort_ranked minus_inf (entries_of (iterate (fuse s.k rankings Dict.empty)))))
  ]
