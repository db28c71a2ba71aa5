-- ===== src/Proxy/Upstream.antt =====
-- internal/proxy/server.go and fallback.go: what the two fallback loops share. The upstream clients
-- are arguments: their answers are functions of the round of the loop and of the request.
use nadir.Prelude.{
  ℕ, Bool, true, false, not, Option, none, some, List, [], ◌∷◌, ◌++◌, if◌then◌else◌,
}
use nadir.Prelude.Dict
use nadir.Prelude.Dict.{Dict}
use nadir.Prelude.Text.{Text, codes, is_empty}
use nadir.Types.{ChatRequest, ChatResponse, StreamChunk}
use nadir.Types.Errors.{ErrorKind, GoError, Result, ok, err, kind_of}
use nadir.Health
use nadir.Health.{Tracker}
use nadir.RateLimit.Model
use nadir.RateLimit.Model.{Model}

-- A StreamIter: what Next returns in turn, before io.EOF.
abbrev pub StreamIter : Type 0
StreamIter = List (Result StreamChunk)

-- types.LLMClient
pub record LlmClient : Type 0 where
  pub name : Text
  pub complete : ℕ → ChatRequest → Result ChatResponse
  pub stream : ℕ → ChatRequest → Result StreamIter

-- The dependencies of a server that the loops read. In a round of a loop the clock is read before
-- the upstream call and after it.
pub record Deps : Type 0 where
  pub providers : Dict LlmClient
  pub model_to_provider : Option (Text → Text)
  pub before : ℕ → ℕ
  pub after : ℕ → ℕ

-- The dependencies that the loops change.
pub record Upstream : Type 0 where
  pub health : Tracker
  pub model_limiter : Option Model

-- The ProviderError of kind rate_limit, from "health" or "ratelimit", for a model that is skipped.
abbrev pub in_cooldown : Text → Text → GoError
in_cooldown provider model = GoError.provider (record {
  kind = ErrorKind.rate_limit;
  status_code = 0;
  provider = provider;
  model = model;
  msg = codes "model in cooldown";
})

unfoldable pub provider_name : Deps → Text → Text
provider_name deps model = elim deps.model_to_provider [
  | none ↦ codes "openai"
  | some f ↦ if is_empty (f model) then codes "openai" else f model
]

-- The name in the message is quoted, as %q does for a name without special characters.
unfoldable pub pick_provider : Deps → Text → Result LlmClient
unfolding provider_name
pick_provider deps model =
    let name = provider_name deps model in
    elim (Dict.get deps.providers name) [
      | some client ↦ ok client
      | none ↦ err (
          GoError.provider (record {
            kind = ErrorKind.auth;
            status_code = 0;
            provider = name;
            model = model;
            msg = codes "no client configured for provider " ++ (34 ∷ name ++ 34 ∷ []);
          }))
    ]

-- s.deps.ModelLimiter.Check(model), true where there is no limiter
unfoldable pub limiter_check : Upstream → Text → ℕ → Upstream × Bool
limiter_check up model now = elim up.model_limiter [
  | none ↦ (up, true)
  | some m ↦
      let (m', answer) = Model.check m model now in
      (record up { model_limiter = some m' }, answer.ok)
]

-- The guard of both loops: available, and then not rate limited. The error is that of the skip.
unfoldable pub admit : Upstream → Text → ℕ → Upstream × Result (Unit {0})
unfolding limiter_check
admit up model now =
    if not (Health.available up.health model now)
    then (up, err (in_cooldown (codes "health") model))
    else (let (up', pass) = limiter_check up model now in
        if not pass then (up', err (in_cooldown (codes "ratelimit") model)) else (up', ok tt))

is_rate_limit : ErrorKind → Bool
is_rate_limit ErrorKind.rate_limit = true
is_rate_limit _ = false

unfoldable pub record_failure : Upstream → Text → GoError → ℕ → Upstream
unfolding is_rate_limit kind_of
record_failure up model e now = record {
  health = Health.record_failure up.health model (kind_of e) now;
  model_limiter = elim up.model_limiter [
    | none ↦ none
    | some m ↦ if is_rate_limit (kind_of e) then some (Model.record_limit m model 0 now) else some m
  ];
}

unfoldable pub record_success : Upstream → Text → ℕ → Upstream
record_success up model now = record up { health = Health.record_success up.health model now }
