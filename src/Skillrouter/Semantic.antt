-- ===== src/Skillrouter/Semantic.antt =====
-- skillrouter/semantic.go: the matcher that ranks the skills by the cosines of their exemplars. The
-- embedder is a parameter; a vector is a list of floats.
pub mod Ranking
pub mod Best
use nadir.Prelude.{
  ℕ, zero, suc, Bool, true, false, ◌&&◌, ◌||◌, not, Option, none, some, List, [], ◌∷◌, ◌++◌, ltb,
  ◌==◌, if◌then◌else◌, length, take,
}
use nadir.Prelude.Float.{Float}
use nadir.Prelude.Text.{Text, codes, is_empty}
use nadir.Types.Errors.{GoError, Result, ok, err}
use nadir.Skillrouter.{Skill, Decision}
use nadir.Skillrouter.Prompt.{fallthrough, picked}

unfoldable pub non_empty : List Text → List Text
non_empty [] = []
non_empty (t ∷ texts) = let rest = non_empty texts in if is_empty t then rest else t ∷ rest

unfoldable pub exemplar_texts : Skill → List Text
unfolding non_empty
exemplar_texts s = elim (non_empty s.examples) [
  | t ∷ texts ↦ t ∷ texts
  | [] ↦
      if not (is_empty s.description)
      then s.description ∷ []
      else (if not (is_empty s.name) then s.name ∷ [] else [])
]

module _ (F : Type 0) where
  -- One entry of the result of Rank.
  pub record Ranked : Type 0 where
    pub skill : Text
    pub score : F

  -- Embed: a text's vector, or an error
  abbrev pub Embedder : Type 0
  Embedder = Text → Result (List F)

  pub record Semantic : Type 0 where
    pub emb : Embedder
    pub skills : List Skill
    pub proto_vecs : List (List (List F))
    pub min_score : F

module _ {F : Type 0} where
  -- fmt.Errorf("skillrouter: embed %q for skill %q: %w", t, sk.Name, err), by its %w alone
  unfoldable pub embed_all : Embedder F → List Text → Result (List (List F))
  embed_all emb [] = ok []
  embed_all emb (t ∷ texts) =
      let rest = embed_all emb texts in
      elim (emb t) [
        | err e ↦ err (GoError.wrapped (codes "skillrouter: embed") e)
        | ok v ↦ elim rest [ err e ↦ err e | ok vs ↦ ok (v ∷ vs) ]
      ]

  unfoldable pub prototypes : Embedder F → List Skill → Result (List (List (List F)))
  unfolding embed_all exemplar_texts
  prototypes emb [] = ok []
  prototypes emb (s ∷ skills) =
      let rest = prototypes emb skills in
      elim (exemplar_texts s) [
        | [] ↦ err (GoError.plain (codes "skillrouter: skill has no Name/Description/Examples"))
        | t ∷ texts ↦ elim (embed_all emb (t ∷ texts)) [
          | err e ↦ err e
          | ok vecs ↦ elim rest [ err e ↦ err e | ok more ↦ ok (vecs ∷ more) ]
        ]
      ]

  unfoldable pub new_semantic : Option (Embedder F) → List Skill → F → Result (Semantic F)
  unfolding prototypes
  new_semantic none skills min_score = err (GoError.plain (codes "skillrouter: nil embedder"))
  new_semantic (some emb) [] min_score =
      err (GoError.plain (codes "skillrouter: empty skill catalog"))
  new_semantic (some emb) (s ∷ skills) min_score = elim (prototypes emb (s ∷ skills)) [
    | err e ↦ err e
    | ok proto_vecs ↦
        ok (record {
          emb = emb;
          skills = s ∷ skills;
          proto_vecs = proto_vecs;
          min_score = min_score;
        })
  ]

module _ {F : Type 0} ⦃f : Float F⦄ where
  -- The gap between the scores of the first two, or 0.0.
  unfoldable pub margin_of : Ranked F → List (Ranked F) → F
  margin_of top [] = f.decimal 0 0
  margin_of top (second ∷ _) = f.sub top.score second.score

  unfoldable pub below_min : F → F → Decision F
  unfolding fallthrough
  below_min confidence margin = record (fallthrough {F = F}) {
    confidence = confidence;
    margin = margin;
  }

-- minus_inf is math.Inf(-1).
module _ {F : Type 0} ⦃f : Float F⦄ (minus_inf : F) where
  unfoldable pub dot : F → List F → List F → F
  dot sum [] bs = sum
  dot sum (a ∷ rest) [] = sum
  dot sum (a ∷ rest) (b ∷ bs) = dot (f.add sum (f.mul a b)) rest bs

  unfoldable pub cosine : List F → List F → F
  unfolding dot
  cosine a b =
      if not (length a == length b) || (length a == 0)
      then f.decimal 0 0
      else dot (f.decimal 0 0) a b

  -- The inner loop of Rank.
  unfoldable pub best_cosine : List F → List (List F) → F → F
  unfolding cosine
  best_cosine q [] best = best
  best_cosine q (v ∷ vecs) best =
      best_cosine q vecs (if f.lt_float best (cosine q v) then cosine q v else best)

  unfoldable pub score_all : List F → List Skill → List (List (List F)) → List (Ranked F)
  unfolding best_cosine
  score_all q (s ∷ skills) (vecs ∷ proto_vecs) =
      (record { skill = s.name; score = best_cosine q vecs minus_inf })
      ∷ score_all q skills proto_vecs
  score_all q _ _ = []

  -- sort.SliceStable with the closure out[i].Score > out[j].Score, by insertion from the left
  unfoldable pub insert_ranked : Ranked F → List (Ranked F) → List (Ranked F)
  insert_ranked r [] = r ∷ []
  insert_ranked r (s ∷ sorted) =
      let rest = insert_ranked r sorted in
      if f.lt_float r.score s.score then s ∷ rest else r ∷ s ∷ sorted

  unfoldable pub sort_ranked : List (Ranked F) → List (Ranked F)
  unfolding insert_ranked
  sort_ranked [] = []
  sort_ranked (r ∷ ranked) = insert_ranked r (sort_ranked ranked)

  unfoldable pub rank : Semantic F → Text → ℕ → Result (List (Ranked F))
  unfolding score_all sort_ranked
  rank s prompt k =
      if is_empty prompt
      then err (GoError.plain (codes "skillrouter: empty prompt"))
      else (elim (s.emb prompt) [
        | err e ↦ err (GoError.wrapped (codes "skillrouter: embed prompt: ") e)
        | ok q ↦
            let out = sort_ranked (score_all q s.skills s.proto_vecs) in
            ok (if ltb 0 k && ltb k (length out) then take k out else out)
      ])

  -- Semantic.Route
  unfoldable pub route : Semantic F → Text → Result (Decision F)
  unfolding rank margin_of below_min picked
  route s prompt = elim (rank s prompt 0) [
    | err e ↦ err e
    | ok [] ↦ ok fallthrough
    | ok (top ∷ others) ↦
        let margin = margin_of top others in
        if f.lt_float top.score s.min_score
        then ok (below_min top.score margin)
        else ok (picked top.skill top.score margin)
  ]
