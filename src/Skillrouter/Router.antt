-- ===== src/Skillrouter/Router.antt =====
-- skillrouter/skillrouter.go: the matcher that asks a language model. The client is a function of the
-- request, none being a nil response; a timeout is one of its errors.
use nadir.Prelude.{ℕ, Option, none, some, List, [], ◌∷◌, if◌then◌else◌}
use nadir.Prelude.Float.{Float}
use nadir.Prelude.Text.{Text, codes, is_empty}
use nadir.Types.{ChatResponse}
use nadir.Types.Errors.{GoError, Result, ok, err}
use nadir.Types.Json.{Json}
use nadir.Types.Client.{Client, ask}
use nadir.Skillrouter.{Skill, Decision}
use nadir.Skillrouter.Prompt.{render_prompt, extract_text, parse_skill}

pub record Router : Type 0 where
  pub client : Option Client
  pub model : Text
  pub skills : List Skill
  pub max_tokens : ℕ

-- New, with the token limit that its options set
unfoldable pub new_router : Option Client → Text → List Skill → ℕ → Router
new_router client model skills max_tokens = record {
  client = client;
  model = if is_empty model then codes "llama3.2:3b" else model;
  skills = skills;
  max_tokens = max_tokens;
}

module _ {F : Type 0} ⦃f : Float F⦄ where
  unfoldable pub answer : Json → List Skill → Option ChatResponse → Result (Decision F)
  unfolding extract_text
  answer j skills none = err (GoError.plain (codes "skillrouter: empty response"))
  answer j skills (some resp) = elim resp.choices [
    | [] ↦ err (GoError.plain (codes "skillrouter: empty response"))
    | choice ∷ _ ↦
        let raw = extract_text j choice.message.content in
        ok (record (parse_skill {F = F} raw skills) { raw_response = raw })
  ]

  -- Router.Route
  unfoldable pub route : Json → Router → Text → Result (Decision F)
  unfolding answer ask render_prompt
  route j r prompt = elim r.client [
    | none ↦ err (GoError.plain (codes "skillrouter: nil client"))
    | some client ↦ elim r.skills [
      | [] ↦ err (GoError.plain (codes "skillrouter: empty skill catalog"))
      | s ∷ skills ↦
          elim (client (ask j r.model r.max_tokens (render_prompt (s ∷ skills) prompt))) [
            | err e ↦ err (GoError.wrapped (codes "skillrouter: ") e)
            | ok resp ↦ answer j (s ∷ skills) resp
          ]
    ]
  ]
