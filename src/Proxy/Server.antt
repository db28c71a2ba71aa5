-- ===== src/Proxy/Server.antt =====
-- internal/proxy/server.go: the handler of chat completions, with the gates in front of it. A request
-- comes at an instant `now`, and the calls to the models end at an instant `later`. What only reads
-- or writes HTTP (request ids, panics, body sizes, the access log, the score header) and the metrics
-- are not modelled; a body has been decoded, and none is invalid JSON. The requests of this model come one
-- after the other, so that Submit has no other goroutine between its steps.
pub mod Caching
pub mod Gates
use nadir.Prelude.{
  ℕ, Bool, true, false, not, ◌&&◌, Option, none, some, List, [], ◌∷◌, ◌++◌, if◌then◌else◌, ◌/◌, ◌+◌,
}
use nadir.Prelude.Float.{Float}
use nadir.Prelude.Text.{Text, codes, text_eq, is_empty}
use nadir.Types.{Tier, Message, ChatRequest, ChatResponse, Usage, RouteDecision}
use nadir.Types.Errors.{ErrorKind, GoError, Result, ok, err, as_provider}
use nadir.Types.Json.{Json}
use nadir.Budget.{Tracker, Format, allowed, record_cost, positive}
use nadir.Cache.Prompt
use nadir.Cache.Prompt.{Prompt}
use nadir.ModelMeta.{Model, cost}
use nadir.RateLimit.User
use nadir.RateLimit.User.{User}
use nadir.Router.{Router, route}
use nadir.Proxy.Upstream.{Deps, Upstream}
use nadir.Proxy.Fallback.{complete_with_fallback}
use nadir.Proxy.Worker.{Pool, submit_alone}
use nadir.Proxy.Stream.{Event, stream_with_fallback}

-- types.RequestEntry, as far as the handler's own state goes into it.
pub record RequestEntry (F : Type 0) : Type 0 where
  pub model : Text
  pub tier : Tier
  pub provider : Text
  pub prompt_tokens : ℕ
  pub completion_tokens : ℕ
  pub cost_usd : F
  pub status : Text
  pub user_id : Text
  pub score : F
  pub confidence : F
  pub modifiers : List Text

-- The dependencies of a server that requests change, and its pool of loggers, where it has loggers.
pub record Server (F : Type 0) : Type 0 where
  pub router : Router F
  pub upstream : Upstream
  pub user_limiter : Option User
  pub prompt_cache : Option Prompt
  pub budget : Option (Tracker F)
  pub pool : Option (Pool (RequestEntry F))

-- Those that they do not change, and the functions of other packages: the digest of a session,
-- the digest of a cache key, the matches of the reasoning markers, the calendar.
pub record Wiring (F : Type 0) : Type 0 where
  pub deps : Deps
  pub table : List (Model F)
  pub json : Json
  pub markers : Text → List Text
  pub sha256 : Text → Text
  pub hash_key : Text → List Message → Text
  pub format : Format F
  pub auth_token : Text

-- The routing headers: X-Routed-Model and X-Routed-Tier.
pub record RoutingHeaders : Type 0 where
  pub model : Text
  pub tier : Tier

pub data Reply : Type 0 where
  -- writeError with a code; a Retry-After header in seconds where there is one
  refused : ℕ → Option ℕ → Reply
  -- a completion, with X-Nadir-Cache: hit or without
  answered : RoutingHeaders → Bool → ChatResponse → Reply
  -- writeError after the routing headers
  failed : RoutingHeaders → ℕ → Reply
  streamed : RoutingHeaders → List Event → Reply

-- The status of an error in the switch of handleChatCompletions.
unfoldable pub kind_status : ErrorKind → ℕ
kind_status ErrorKind.auth = 401
kind_status ErrorKind.bad_request = 400
kind_status ErrorKind.validation = 400
kind_status ErrorKind.rate_limit = 429
kind_status _ = 502

unfoldable pub error_status : GoError → ℕ
unfolding kind_status
error_status e = elim (as_provider e) [ none ↦ 502 | some p ↦ kind_status p.kind ]

-- resp.Usage, zero where resp or its usage is nil
unfoldable pub usage_of : Option ChatResponse → ℕ × ℕ
usage_of none = (0, 0)
usage_of (some resp) = elim resp.usage [
  | none ↦ (0, 0)
  | some u ↦ (u.prompt_tokens, u.completion_tokens)
]

module _ {F : Type 0} ⦃f : Float F⦄ (wiring : Wiring F) where
  unfoldable pub charge : Option (Tracker F) → Text → ℕ → ℕ → ℕ → Option (Tracker F) × F
  charge none model prompt_tok completion_tok now = (none, f.decimal 0 0)
  charge (some t) model prompt_tok completion_tok now =
      let price = cost wiring.table model prompt_tok completion_tok in
      if positive price
      then (some (record_cost wiring.format t price now).0, price)
      else (some t, price)

  -- s.pool.Submit, where there is a pool. The panic on a closed pool (Close runs behind the last request)
  -- is left out.
  unfoldable pub submit_entry :
      Option (Pool (RequestEntry F)) → RequestEntry F → Option (Pool (RequestEntry F))
  submit_entry none e = none
  submit_entry (some p) e = elim (submit_alone e p) [ none ↦ some p | some p' ↦ some p' ]

  unfoldable pub record_request :
      Server F → Text → RouteDecision F → Text → Option ChatResponse → ℕ → Server F
  unfolding charge usage_of submit_entry
  record_request s user_id d status resp now =
      let (prompt_tok, completion_tok) = usage_of resp in
      let (budget, price) = charge s.budget d.model prompt_tok completion_tok now in
      record s {
        budget = budget;
        pool = submit_entry s.pool (record {
          model = d.model;
          tier = d.tier;
          provider = d.provider;
          prompt_tokens = prompt_tok;
          completion_tokens = completion_tok;
          cost_usd = price;
          status = status;
          user_id = user_id;
          score = d.score;
          confidence = d.confidence;
          modifiers = d.modifiers;
        });
      }

  -- s.deps.PromptCache.Put, where there is a cache
  unfoldable pub cache_put : Server F → ChatRequest → ChatResponse → ℕ → Server F
  cache_put s req resp now = elim s.prompt_cache [
    | none ↦ s
    | some c ↦ record s {
      prompt_cache = some (Prompt.put c (wiring.hash_key req.model req.messages) (some resp) now);
    }
  ]

  unfoldable pub headers_of : RouteDecision F → RoutingHeaders
  headers_of d = record { model = d.model; tier = d.tier }

  -- From completeWithFallback on.
  unfoldable pub finish :
      Server F → Text → ChatRequest → RouteDecision F → ℕ → Result ChatResponse → Server F × Reply
  finish s user_id req d now (err e) =
      (record_request s user_id d (codes "error") none now, failed (headers_of d) (error_status e))
  finish s user_id req d now (ok resp) = (
    record_request (cache_put s req resp now) user_id d (codes "ok") (some resp) now,
    answered (headers_of d) false resp,
  )

  -- The branches on req.Stream.
  unfoldable pub serve_by :
      Bool → Server F → Text → ChatRequest → RouteDecision F → ℕ → Server F × Reply
  serve_by true s user_id req d later =
      let (up, events) =
        stream_with_fallback wiring.deps req (d.model ∷ d.fallback_chain) s.upstream in
      (
        record_request (record s { upstream = up }) user_id d (codes "ok") none later,
        streamed (headers_of d) events,
      )
  serve_by false s user_id req d later =
      let (up, result) =
        complete_with_fallback wiring.deps req (d.model ∷ d.fallback_chain) s.upstream in
      finish (record s { upstream = up }) user_id req d later result

  -- From the routing decision on.
  unfoldable pub serve : Server F → Text → ChatRequest → RouteDecision F → ℕ → Server F × Reply
  unfolding serve_by
  serve s user_id req d later = serve_by req.stream s user_id req d later

  -- The router of the server, which shares its health tracker with the loops (cmd/nadir/serve.go).
  unfoldable pub shared_router : Server F → Router F
  shared_router s = record (s.router) { health = some (s.upstream.health) }

  -- From s.deps.Router.Route on.
  unfoldable pub dispatch : Server F → Text → ChatRequest → ℕ → ℕ → Server F × Reply
  dispatch s user_id req now later =
      elim (route wiring.json wiring.markers wiring.sha256 (shared_router s) req now) [
        | err e ↦ (s, refused 500 none)
        | ok (r, d) ↦ serve (record s { router = r }) user_id req d later
      ]

  unfoldable pub hit_headers : ChatResponse → RoutingHeaders
  hit_headers resp = record { model = resp.model; tier = Tier.simple }

  -- The lookup in the prompt cache, for a request without streaming.
  unfoldable pub cache_step : Server F → ChatRequest → ℕ → Server F × Option ChatResponse
  cache_step s req now = elim s.prompt_cache [
    | none ↦ (s, none)
    | some c ↦
        if req.stream
        then (s, none)
        else (let (c', found) = Prompt.get c (wiring.hash_key req.model req.messages) now in
            (record s { prompt_cache = some c' }, found))
  ]

  -- The budget gate.
  unfoldable pub budget_step : Server F → ℕ → Server F × Bool
  budget_step s now = elim s.budget [
    | none ↦ (s, true)
    | some t ↦
        let (t', pass, _) = allowed wiring.format t now in (record s { budget = some t' }, pass)
  ]

  -- After the lookup: a hit is the answer.
  unfoldable pub after_lookup :
      Server F × Option ChatResponse → Text → ChatRequest → ℕ → ℕ → Server F × Reply
  after_lookup (s, some resp) user_id req now later = (s, answered (hit_headers resp) true resp)
  after_lookup (s, none) user_id req now later = dispatch s user_id req now later

  -- After the budget gate.
  unfoldable pub after_budget : Server F × Bool → Text → ChatRequest → ℕ → ℕ → Server F × Reply
  unfolding after_lookup
  after_budget (s, false) user_id req now later = (s, refused 402 none)
  after_budget (s, true) user_id req now later =
      after_lookup (cache_step s req now) user_id req now later

  unfoldable pub handle_chat_completions :
      Server F → Text → Option ChatRequest → ℕ → ℕ → Server F × Reply
  unfolding after_budget
  handle_chat_completions s user_id none now later = (s, refused 400 none)
  handle_chat_completions s user_id (some req) now later = elim req.messages [
    | [] ↦ (s, refused 400 none)
    | _ ∷ _ ↦ after_budget (budget_step s now) user_id req now later
  ]

  -- userRateLimit around the handler, with the user's answer where there is a limiter; durations are
  -- in nanoseconds, and the header is in seconds
  unfoldable pub user_step : Server F → Text → ℕ → Server F × Option ℕ
  user_step s user_id now = elim s.user_limiter [
    | none ↦ (s, none)
    | some u ↦
        let (u', answer) = User.check u user_id now in
        (
          record s { user_limiter = some u' },
          if not answer.ok then some (answer.retry / 1000000000 + 1) else none,
        )
  ]

  unfoldable pub after_user :
      Server F × Option ℕ → Text → Option ChatRequest → ℕ → ℕ → Server F × Reply
  after_user (s, some retry) user_id body now later = (s, refused 429 (some retry))
  after_user (s, none) user_id body now later = handle_chat_completions s user_id body now later

  unfoldable pub user_rate_limit : Server F → Text → Option ChatRequest → ℕ → ℕ → Server F × Reply
  unfolding after_user
  user_rate_limit s user_id body now later =
      after_user (user_step s user_id now) user_id body now later

  -- authMiddleware around the limiter, for a header Authorization, on the path of this handler.
  unfoldable pub auth_middleware :
      Server F → Text → Text → Option ChatRequest → ℕ → ℕ → Server F × Reply
  auth_middleware s got user_id body now later =
      if not (is_empty wiring.auth_token)
        && not (text_eq got (codes "Bearer " ++ wiring.auth_token))
      then (s, refused 401 none)
      else user_rate_limit s user_id body now later
