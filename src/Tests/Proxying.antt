-- ===== src/Tests/Proxying.antt =====
-- The fallback loops and the chat handler at concrete inputs.
use nadir.Prelude.{
  ℕ, suc, ◌≡◌, ◌+◌, ◌≤◌, ◌<◌, refl, arith, Bool, true, false, Option, none, some, List, [], ◌∷◌,
  ◌++◌, length, get_elem?,
}
use nadir.Prelude.Dict
use nadir.Prelude.Text.{Text, codes, text_mem}
use nadir.Types.{Tier, ChatRequest, ChatResponse, StreamChunk, RouteDecision}
use nadir.Types.Errors.{ErrorKind, GoError, Result, ok, err}
use nadir.Health
use nadir.Health.{Tracker}
use nadir.Cache.Prompt.{Prompt, new_prompt}
use nadir.Cache.Prompt.Valid.{new_prompt-IsValid}
use nadir.Budget.{new_tracker}
use nadir.Proxy.Upstream.{Deps, Upstream, in_cooldown}
use nadir.Proxy.Fallback.{complete_with_fallback}
use nadir.Proxy.Fallback.Chain.{resume, complete_with_fallback-append}
use nadir.Proxy.Fallback.Provenance.{Answered, complete_with_fallback-Answered}
use nadir.Proxy.Fallback.Isolation.{complete_with_fallback-available}
use nadir.Proxy.Stream.{Event, stream_with_fallback}
use nadir.Proxy.Stream.Commit.{
  IsStream, Committed, stream_with_fallback-IsStream, stream_with_fallback-Committed,
}
use nadir.Proxy.Worker.{new_logger_pool}
use nadir.Proxy.Server.{
  Server, Wiring, Reply, auth_middleware, finish, budget_step, handle_chat_completions, hit_headers,
}
use nadir.Proxy.Server.Caching.{finish-handle_chat_completions}
use nadir.Proxy.Server.Gates.{calls_models, auth_middleware_free}
use nadir.Tests.Fixtures.{
  thousandths, plain_json, no_markers, digest, hello, request, response, router, say, upstream,
  chunk, client, deps, calendar, failure,
}

abbrev chain : List Text
chain = codes "a" ∷ codes "b" ∷ codes "c" ∷ []

abbrev asked : ChatRequest
asked = request (codes "a") hello

-- The first model fails with a transient error, and the second one answers under its own name.
second_answers : (complete_with_fallback deps asked chain upstream).1 ≡ ok (response (codes "b"))
unfolding complete_with_fallback nadir.Proxy.Fallback.attempt nadir.Proxy.Upstream.admit
    Health.available Dict.get nadir.RateLimit.Model.check nadir.Proxy.Upstream.pick_provider
    Dict.put nadir.Prelude.Text.text_eq nadir.Tests.Fixtures.flaky_complete
    nadir.Types.Errors.is_transient nadir.Proxy.Upstream.record_failure Health.record_failure
second_answers = refl

complete_with_fallback-append_example :
    complete_with_fallback deps asked ((codes "a" ∷ codes "b" ∷ []) ++ codes "c" ∷ []) upstream
    ≡ resume deps asked 2
        (codes "c" ∷ [])
        (complete_with_fallback deps asked (codes "a" ∷ codes "b" ∷ []) upstream)
complete_with_fallback-append_example =
    complete_with_fallback-append deps asked (codes "a") (codes "b" ∷ []) (codes "c" ∷ []) upstream

complete_with_fallback-Answered_example :
    (k : ℕ) × (model : Text) × (get_elem? chain k ≡ some model)
    × Answered deps asked k model
        (complete_with_fallback deps asked chain upstream).0.health
        (response (codes "b"))
complete_with_fallback-Answered_example =
    complete_with_fallback-Answered deps asked chain upstream (response (codes "b")) second_answers

other_not_in_chain : text_mem (codes "z") chain ≡ false
unfolding text_mem nadir.Prelude.Text.text_eq
other_not_in_chain = refl

complete_with_fallback-available_example :
    Health.available (complete_with_fallback deps asked chain upstream).0.health (codes "z") 9
    ≡ Health.available upstream.health (codes "z") 9
complete_with_fallback-available_example =
    complete_with_fallback-available deps asked chain upstream (codes "z") 9 other_not_in_chain

-- A tracker in which the model a has failed too often, a moment ago.
abbrev down : Upstream
down = record upstream {
  health = record {
    max_failures = 1;
    cooldown = 30;
    records = Dict.put Dict.empty (codes "a") (record {
      failures = 1;
      last_failure_kind = ErrorKind.timeout;
      last_failure_at = 1;
      last_success_at = 0;
    });
  };
}

a_is_down : Health.available down.health (codes "a") 0 ≡ false
unfolding Health.available Dict.get Dict.put nadir.Prelude.Text.text_eq
a_is_down = refl

stream_with_fallback-IsStream_example : IsStream (stream_with_fallback deps asked chain upstream).1
stream_with_fallback-IsStream_example = stream_with_fallback-IsStream deps asked chain upstream

streamed_chunks :
    (stream_with_fallback deps asked chain upstream).1
    ≡ Event.chunk chunk ∷ Event.chunk chunk ∷ Event.done ∷ []
unfolding stream_with_fallback nadir.Proxy.Stream.attempt nadir.Proxy.Upstream.admit
    Health.available Dict.get nadir.RateLimit.Model.check nadir.Proxy.Upstream.pick_provider
    Dict.put nadir.Prelude.Text.text_eq nadir.Tests.Fixtures.flaky_stream
    nadir.Types.Errors.is_transient nadir.Proxy.Upstream.record_failure Health.record_failure
streamed_chunks = refl

stream_with_fallback-Committed_example :
    (k : ℕ) × (model : Text) × (get_elem? chain k ≡ some model)
    × Committed deps asked k model chunk (Event.chunk chunk ∷ Event.done ∷ [])
stream_with_fallback-Committed_example =
    stream_with_fallback-Committed deps asked chain upstream chunk
      (Event.chunk chunk ∷ Event.done ∷ []) streamed_chunks

abbrev server : Server ℕ
server = record {
  router = router;
  upstream = upstream;
  user_limiter = none;
  prompt_cache = some (new_prompt 4 100);
  budget = some (
      new_tracker
        (record { daily_limit_usd = 1000; monthly_limit_usd = 0; alert_thresholds = [] }));
  pool = some (new_logger_pool 1 4 1);
}

abbrev wiring : Wiring ℕ
wiring = record {
  deps = deps;
  table = [];
  json = plain_json;
  markers = no_markers;
  sha256 = digest;
  hash_key = λ model msgs. model;
  format = calendar;
  auth_token = codes "secret";
}

wrong_token :
    calls_models
      (auth_middleware wiring server (codes "Bearer guess") (codes "u") (some asked) 5 6).1
    ≡ false
unfolding calls_models auth_middleware nadir.Prelude.Text.is_empty nadir.Prelude.Text.text_eq
wrong_token = refl

auth_middleware_free_example :
    let s' =
      (auth_middleware wiring server (codes "Bearer guess") (codes "u") (some asked) 5 6).0 in
    (s'.upstream ≡ upstream) × (s'.router ≡ router) × (s'.pool ≡ server.pool)
auth_middleware_free_example =
    auth_middleware_free wiring server (codes "Bearer guess") (codes "u") (some asked) 5 6
      wrong_token

-- A decision for the model a, and a request of its with a limit on the tokens.
abbrev decided : RouteDecision ℕ
decided = record {
  model = codes "a";
  tier = Tier.simple;
  provider = codes "p";
  score = 0;
  confidence = 0;
  cached = false;
  modifiers = [];
  fallback_chain = [];
}

abbrev bounded : ChatRequest
bounded = record asked { max_tokens = some 1 }

abbrev cache : Prompt
cache = new_prompt 4 100

cache_fits : length cache.order ≤ cache.max_size
unfolding new_prompt
cache_fits = omega arith

cache_room : 0 < cache.max_size
unfolding new_prompt
cache_room = omega arith

cache_fresh : 0 < cache.ttl → 106 ≤ 6 + cache.ttl
unfolding new_prompt
cache_fresh h = omega arith

abbrev served : Server ℕ
served = (finish wiring server (codes "u") asked decided 6 (ok (response (codes "a")))).0

within_budget : (budget_step wiring served 106).1 ≡ true
unfolding budget_step nadir.Budget.allowed nadir.Budget.roll_if_stale nadir.Budget.roll_month
    nadir.Budget.roll_day new_tracker finish nadir.Proxy.Server.record_request
    nadir.Proxy.Server.cache_put nadir.Proxy.Server.charge nadir.Proxy.Server.usage_of
    nadir.ModelMeta.cost nadir.Prelude.Text.text_eq
within_budget = refl

finish-handle_chat_completions_example :
    (handle_chat_completions wiring served (codes "v") (some bounded) 106 107).1
    ≡ Reply.answered (hit_headers wiring (response (codes "a"))) true (response (codes "a"))
finish-handle_chat_completions_example =
    finish-handle_chat_completions wiring server (codes "u") (codes "v") asked bounded decided
      (response (codes "a")) cache (say (codes "user") (codes "hi")) [] 6 106 107 refl
      (new_prompt-IsValid 4 100) cache_fits cache_room cache_fresh refl refl refl refl within_budget
