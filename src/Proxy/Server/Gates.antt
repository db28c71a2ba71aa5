-- ===== src/Proxy/Server/Gates.antt =====
-- What the gates of a request let through to the models and to the log.
use nadir.Prelude.{
  ℕ, ◌≡◌, refl, ap, ◌∙◌, arith, Bool, true, false, not, ◌&&◌, Option, none, some, List, [], ◌∷◌,
  if◌then◌else◌, inl, inr, ◌++◌,
}
use nadir.Prelude.Float.{Float}
use nadir.Prelude.Text.{Text, codes, is_empty, text_eq}
use nadir.Types.{Message, ChatRequest, ChatResponse, RouteDecision}
use nadir.Types.Errors.{Result, ok, err, Result-cases}
use nadir.Router.{route}
use nadir.Proxy.Fallback.{complete_with_fallback}
use nadir.Proxy.Stream.{stream_with_fallback}
use nadir.Proxy.Server.{
  after_lookup, after_budget, user_step, RequestEntry, submit_entry, after_user, Server, Wiring,
  Reply, refused, answered, failed, streamed, record_request, cache_put, finish, serve, serve_by,
  shared_router, dispatch, cache_step, budget_step, handle_chat_completions, user_rate_limit,
  auth_middleware,
}

-- The status of the entry that goes with a reply.
unfoldable pub reply_status : Reply → Text
reply_status (failed _ _) = codes "error"
reply_status _ = codes "ok"

-- A reply that models were called for.
unfoldable pub calls_models : Reply → Bool
calls_models (refused _ _) = false
calls_models (answered _ hit _) = not hit
calls_models (failed _ _) = true
calls_models (streamed _ _) = true

module _ {F : Type 0} where
  abbrev pub IsUntouched : Server F → Server F → Type 0
  IsUntouched s s' = (s'.upstream ≡ s.upstream) × (s'.router ≡ s.router) × (s'.pool ≡ s.pool)

module _ {F : Type 0} ⦃f : Float F⦄ (wiring : Wiring F) where
  -- One entry for the user with the reply's status was submitted to the pool.
  abbrev IsSubmitted : Text → Server F → Server F × Reply → Type 0
  IsSubmitted user s out =
      (e : RequestEntry F) × (e.user_id ≡ user)
      × (e.status ≡ reply_status out.1)
      × (out.0.pool ≡ submit_entry wiring s.pool e)

  -- A reply without models leaves the state of the models, the router and the pool; with one with
  -- models one entry was submitted.
  abbrev IsGated : Text → Server F → Server F × Reply → Type 0
  IsGated user s out =
      (calls_models out.1 ≡ false → IsUntouched s out.0)
      × (calls_models out.1 ≡ true → IsSubmitted user s out)

  record_request-IsSubmitted :
      (s : Server F) (user : Text) (d : RouteDecision F) (status : Text)
      (resp : Option ChatResponse) (now : ℕ)
      → (e : RequestEntry F) × (e.user_id ≡ user)
        × (e.status ≡ status)
        × ((record_request wiring s user d status resp now).pool ≡ submit_entry wiring s.pool e)
  unfolding record_request
  record_request-IsSubmitted s user d status resp now = (_, refl, refl, refl)

  cache_put_pool :
      (s : Server F) (req : ChatRequest) (resp : ChatResponse) (now : ℕ)
      → (cache_put wiring s req resp now).pool ≡ s.pool
  unfolding cache_put
  cache_put_pool s req resp now = ground arith

  -- From the models on, every reply is one with models, and has its entry.
  abbrev IsLogged : Text → Server F → Server F × Reply → Type 0
  IsLogged user s out = (calls_models out.1 ≡ true) × IsSubmitted user s out

  finish-IsLogged :
      (s : Server F) (user : Text) (req : ChatRequest) (d : RouteDecision F) (now : ℕ)
      (r : Result ChatResponse)
      → IsLogged user s (finish wiring s user req d now r)
  unfolding finish calls_models reply_status
  finish-IsLogged s user req d now (ok resp) =
      let (e, u, st, p) =
        record_request-IsSubmitted (cache_put wiring s req resp now) user d (codes "ok") (some resp)
          now in
      (refl, (e, u, st, p ∙ ap (λ q. submit_entry wiring q e) (cache_put_pool s req resp now)))
  finish-IsLogged s user req d now (err e) =
      (refl, record_request-IsSubmitted s user d (codes "error") none now)

  serve_by-IsLogged :
      (stream : Bool) (s : Server F) (user : Text) (req : ChatRequest) (d : RouteDecision F)
      (later : ℕ)
      → IsLogged user s (serve_by wiring stream s user req d later)
  unfolding serve_by calls_models reply_status
  serve_by-IsLogged true s user req d later =
      let (up, _) = stream_with_fallback wiring.deps req (d.model ∷ d.fallback_chain) s.upstream in
      (refl, record_request-IsSubmitted (record s { upstream = up }) user d (codes "ok") none later)
  serve_by-IsLogged false s user req d later =
      let (up, r) =
        complete_with_fallback wiring.deps req (d.model ∷ d.fallback_chain) s.upstream in
      finish-IsLogged (record s { upstream = up }) user req d later r

  dispatch-IsGated :
      (s : Server F) (user : Text) (req : ChatRequest) (now later : ℕ)
      → IsGated user s (dispatch wiring s user req now later)
  unfolding dispatch serve calls_models
  dispatch-IsGated s user req now later =
      elim (Result-cases
        (route wiring.json wiring.markers wiring.sha256 (shared_router wiring s) req now)) [
          | inl ((r, d), h) ↦
              let (called, log) =
                serve_by-IsLogged req.stream (record s { router = r }) user req d later in
              rw (h, dispatch) (λ n. absurd (ground (arith, called)), λ _. log)
          | inr (e, h) ↦ rw (h, dispatch) (λ _. (refl, refl, refl), λ n. absurd (ground arith))
        ]

  after_untouched :
      (user : Text) (s s' : Server F) (out : Server F × Reply)
      → IsUntouched s s'
      → IsGated user s' out
      → IsGated user s out
  after_untouched user s s' out (up, router, pool) (free, log) = (
    λ h. ((free h).0 ∙ up, (free h).1 ∙ router, (free h).2 ∙ pool),
    λ h. let (e, u, st, p) = log h in (e, u, st, p ∙ ap (λ q. submit_entry wiring q e) pool),
  )

  cache_step-IsUntouched :
      (s : Server F) (req : ChatRequest) (now : ℕ) → IsUntouched s (cache_step wiring s req now).0
  unfolding cache_step
  cache_step-IsUntouched s req now = (ground arith, ground arith, ground arith)

  budget_step-IsUntouched : (s : Server F) (now : ℕ) → IsUntouched s (budget_step wiring s now).0
  unfolding budget_step
  budget_step-IsUntouched s now = (ground arith, ground arith, ground arith)

  user_step-IsUntouched :
      (s : Server F) (user : Text) (now : ℕ) → IsUntouched s (user_step wiring s user now).0
  unfolding user_step
  user_step-IsUntouched s user now = (ground arith, ground arith, ground arith)

  after_lookup-IsGated :
      (x : Server F × Option ChatResponse) (user : Text) (req : ChatRequest) (now later : ℕ)
      → IsGated user x.0 (after_lookup wiring x user req now later)
  unfolding after_lookup calls_models
  after_lookup-IsGated (s, some resp) user req now later =
      (λ _. (refl, refl, refl), λ n. absurd (ground arith))
  after_lookup-IsGated (s, none) user req now later = dispatch-IsGated s user req now later

  after_budget-IsGated :
      (x : Server F × Bool) (user : Text) (req : ChatRequest) (now later : ℕ)
      → IsGated user x.0 (after_budget wiring x user req now later)
  unfolding after_budget calls_models
  after_budget-IsGated (s, false) user req now later =
      (λ _. (refl, refl, refl), λ n. absurd (ground arith))
  after_budget-IsGated (s, true) user req now later =
      let looked = cache_step wiring s req now in
      after_untouched user s looked.0 (after_lookup wiring looked user req now later)
        (cache_step-IsUntouched s req now) (after_lookup-IsGated looked user req now later)

  handle-IsGated :
      (s : Server F) (user : Text) (body : Option ChatRequest) (now later : ℕ)
      → IsGated user s (handle_chat_completions wiring s user body now later)
  unfolding handle_chat_completions calls_models
  handle-IsGated s user none now later = (λ _. (refl, refl, refl), λ n. absurd (ground arith))
  handle-IsGated s user (some req) now later = go req.messages
    where
      go :
          (msgs : List Message)
          → IsGated user s (
              handle_chat_completions wiring s user
                (some (record req { messages = msgs }))
                now
                later)
      go [] = (λ _. (refl, refl, refl), λ n. absurd (ground arith))
      go (m ∷ ms) =
          let gate = budget_step wiring s now in
          let req' : ChatRequest = record req { messages = m ∷ ms } in
          after_untouched user s gate.0 (after_budget wiring gate user req' now later)
            (budget_step-IsUntouched s now) (after_budget-IsGated gate user req' now later)

  after_user-IsGated :
      (x : Server F × Option ℕ) (user : Text) (body : Option ChatRequest) (now later : ℕ)
      → IsGated user x.0 (after_user wiring x user body now later)
  unfolding after_user calls_models
  after_user-IsGated (s, some retry) user body now later =
      (λ _. (refl, refl, refl), λ n. absurd (ground arith))
  after_user-IsGated (s, none) user body now later = handle-IsGated s user body now later

  auth_middleware-IsGated :
      (s : Server F) (got user : Text) (body : Option ChatRequest) (now later : ℕ)
      → IsGated user s (auth_middleware wiring s got user body now later)
  unfolding auth_middleware user_rate_limit calls_models
  auth_middleware-IsGated s got user body now later =
      let asked = user_step wiring s user now in
      let gated =
        after_untouched user s asked.0 (after_user wiring asked user body now later)
          (user_step-IsUntouched s user now) (after_user-IsGated asked user body now later) in
      elim (not (is_empty wiring.auth_token)
          && not (text_eq got (codes "Bearer " ++ wiring.auth_token)))
        as (λ (b : Bool).
          IsGated user s
            (if b then (s, refused 401 none) else user_rate_limit wiring s user body now later)) [
              | true ↦ (λ _. (refl, refl, refl), λ n. absurd (ground arith))
              | false ↦ gated
            ]

  -- A request whose reply needs no model, because a gate refused it (a wrong token, the
  -- user's rate limit, a bad body, the budget, the router's error) or the cache had it,
  -- leaves the health and the limits of the models, the router with its sessions, and the log's
  -- pool as they were.
  pub auth_middleware_free :
      (s : Server F) (got user : Text) (body : Option ChatRequest) (now later : ℕ)
      → calls_models (auth_middleware wiring s got user body now later).1 ≡ false
      → IsUntouched s (auth_middleware wiring s got user body now later).0
  auth_middleware_free s got user body now later =
      (auth_middleware-IsGated s got user body now later).0
