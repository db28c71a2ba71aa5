-- ===== src/Tests/Skills.antt =====
-- Runs of the skill router and of the classifier that asks a model.
use nadir.Prelude.{
  ℕ, ◌*◌, ◌≡◌, ◌⊎◌, refl, arith, true, false, Option, none, some, List, [], ◌∷◌, length, take, All,
  ltb, leb, ◌==◌, ◌&&◌, if◌then◌else◌,
}
use mathlib.Core.List.{Perm}
use nadir.Prelude.Text.{Text, codes, text_eq}
use nadir.Types.{ChatResponse}
use nadir.Types.Client.{Client}
use nadir.Types.Errors.{ok}
use nadir.Classifier.Bucket.{default_thresholds}
use nadir.Classifier.Llm
use nadir.Classifier.Llm.{Llm, IsScored}
use nadir.Classifier.Llm.Scores.{classify-IsScored}
use nadir.Skillrouter.{Skill}
use nadir.Skillrouter.Prompt.{parse_skill}
use nadir.Skillrouter.Semantic
use nadir.Skillrouter.Semantic.{Semantic, Ranked, rank, cosine}
use nadir.Skillrouter.Semantic.Ranking.{IsDescending}
use nadir.Skillrouter.Semantic.Best.{IsFinite, AreBest, rank_lem}
use nadir.Skillrouter.Cascade
use nadir.Skillrouter.Cascade.{Cascade}
use nadir.Skillrouter.Cascade.Total.{IsReranked, route_or_rerank}
use nadir.Skillrouter.Cascade.Catalog.{AllFrom, route_catalog}
use nadir.Tests.Fixtures.{thousandths, thousandths_order, plain_json, response, say}

abbrev skill : Text → Skill
skill name = record { name = name; description = []; examples = [] }

abbrev catalog : List Skill
catalog = skill (codes "/review") ∷ skill (codes "/security-review") ∷ []

longest_wins :
    (parse_skill {F = ℕ} (codes "Use /Security-Review.") catalog).skill ≡ codes "/security-review"
unfolding parse_skill nadir.Prelude.Text.is_empty nadir.Prelude.Text.trim_space text_eq
    nadir.Prelude.Text.to_lower nadir.Prelude.Text.contains
longest_wins = refl

-- Vectors of one number, the length of the text.
abbrev semantic : Semantic ℕ
semantic = record {
  emb = λ t. ok (length t * 1000 ∷ []);
  skills = catalog;
  proto_vecs = ((100 ∷ []) ∷ []) ∷ ((105 ∷ []) ∷ (90 ∷ []) ∷ []) ∷ [];
  min_score = 10;
}

finite : All (All (IsFinite 0 (3000 ∷ []))) semantic.proto_vecs
unfolding cosine nadir.Skillrouter.Semantic.dot
finite = ((refl, tt), ((refl, (refl, tt)), tt))

rank_lem_example :
    (scores : List (Ranked ℕ)) × (sorted : List (Ranked ℕ)) × AreBest 0
      (3000 ∷ [])
      catalog
      semantic.proto_vecs
      scores
    × Perm sorted scores
    × IsDescending sorted
    × (rank 0 semantic (codes "abc") 1 ≡ ok (if 1 == 0 then sorted else take 1 sorted))
unfolding nadir.Prelude.Text.is_empty
rank_lem_example =
    rank_lem 0 thousandths_order semantic (codes "abc") 1 (3000 ∷ []) refl refl refl finite

abbrev reply : Text → ChatResponse
reply text = record (response (codes "m")) {
  choices = (record { index = 0; message = say (codes "assistant") text; finish_reason = [] }) ∷ [];
}

abbrev model : Client
model = λ req. ok (some (reply (codes "/review")))

abbrev cascade : Cascade ℕ
cascade = record {
  primary = some semantic;
  llm_client = some model;
  llm_model = codes "m";
  min_margin = 100;
  shortlist_k = 5;
  max_tokens = 32;
}

route_or_rerank_example :
    (Cascade.route 0 plain_json cascade (codes "abc") ≡ Semantic.route 0 semantic (codes "abc"))
    ⊎ IsReranked 0 plain_json cascade semantic
        (codes "abc")
        (Cascade.route 0 plain_json cascade (codes "abc"))
route_or_rerank_example =
    route_or_rerank 0 plain_json cascade semantic (codes "abc") refl (omega arith)

route_catalog_example : AllFrom catalog (Cascade.route 0 plain_json cascade (codes "abc"))
route_catalog_example = route_catalog 0 plain_json cascade semantic (codes "abc") refl

abbrev llm : Llm ℕ
llm = record {
  client = some model;
  model = codes "m";
  thresholds = default_thresholds;
  max_tokens = 8;
}

abbrev parse : Text → Option ℕ
parse t = some (length t * 700)

classify-IsScored_example :
    IsScored default_thresholds (Llm.classify parse plain_json llm (codes "hi"))
classify-IsScored_example =
    classify-IsScored thousandths_order parse (λ t v h e. ground arith) plain_json llm (codes "hi")
