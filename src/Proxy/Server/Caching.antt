-- ===== src/Proxy/Server/Caching.antt =====
-- What a request that models answered leaves in the prompt cache for those after it.
use nadir.Prelude.{
  ℕ, ◌+◌, ◌≤◌, ◌<◌, ◌≡◌, refl, ap, ◌∙◌, arith, true, false, Option, some, List, ◌∷◌, length,
}
use nadir.Prelude.Float.{Float}
use nadir.Prelude.Text.{Text}
use nadir.Types.{Message, ChatRequest, ChatResponse, RouteDecision}
use nadir.Types.Errors.{ok}
use nadir.Cache.Prompt
use nadir.Cache.Prompt.{Prompt}
use nadir.Cache.Prompt.Valid.{IsValid}
use nadir.Cache.Prompt.Recency.{get-put}
use nadir.Proxy.Server.{
  Server, Wiring, answered, hit_headers, record_request, cache_put, finish, cache_step, budget_step,
  after_lookup, after_budget, handle_chat_completions,
}

module _ {F : Type 0} ⦃f : Float F⦄ (wiring : Wiring F) where
  budget_step_cache :
      (s : Server F) (now : ℕ) → (budget_step wiring s now).0.prompt_cache ≡ s.prompt_cache
  unfolding budget_step
  budget_step_cache s now = ground arith

  record_request_cache :
      (s : Server F) (user : Text) (d : RouteDecision F) (status : Text)
      (resp : Option ChatResponse) (now : ℕ)
      → (record_request wiring s user d status resp now).prompt_cache ≡ s.prompt_cache
  unfolding record_request
  record_request_cache s user d status resp now = refl

  finish_cache :
      (s : Server F) (user : Text) (req : ChatRequest) (d : RouteDecision F) (now : ℕ)
      (resp : ChatResponse) (c : Prompt)
      → s.prompt_cache ≡ some c
      → (finish wiring s user req d now (ok resp)).0.prompt_cache
        ≡ some (Prompt.put c (wiring.hash_key req.model req.messages) (some resp) now)
  unfolding finish cache_put record_request
  finish_cache s user req d now resp c h = rw h refl

  after_budget_hit :
      (s : Server F) (user : Text) (req : ChatRequest) (now later : ℕ) (c : Prompt)
      (resp : ChatResponse)
      → s.prompt_cache ≡ some c
      → req.stream ≡ false
      → (Prompt.get c (wiring.hash_key req.model req.messages) now).1 ≡ some resp
      → (after_budget wiring (s, true) user req now later).1
        ≡ answered (hit_headers wiring resp) true resp
  unfolding after_budget cache_step after_lookup
  after_budget_hit s user req now later c resp h plain hit = rw (h, plain, hit) refl

  after_budget-handle :
      (s : Server F) (user : Text) (req : ChatRequest) (m : Message) (ms : List Message)
      (now later : ℕ)
      → req.messages ≡ m ∷ ms
      → handle_chat_completions wiring s user (some req) now later
        ≡ after_budget wiring (budget_step wiring s now) user req now later
  unfolding handle_chat_completions
  after_budget-handle s user req m ms now later h = simp h

  -- Where the server has a prompt cache that is valid, within its bound, and with a positive
  -- bound, and a model has answered a request that is not streamed: while the lifetime of the
  -- answer lasts (for ever where it is 0), the next request with the same model and messages (at
  -- least one) that is not streamed and passes the budget gate is answered with that response from
  -- the cache, whatever its user and its other fields, such as the tools it offers, are.
  pub finish-handle_chat_completions :
      (s : Server F) (user user' : Text) (req req' : ChatRequest) (d : RouteDecision F)
      (resp : ChatResponse) (c : Prompt) (m : Message) (ms : List Message) (now now' later : ℕ)
      → s.prompt_cache ≡ some c
      → IsValid c
      → length c.order ≤ c.max_size
      → 0 < c.max_size
      → (0 < c.ttl → now' ≤ now + c.ttl)
      → req'.messages ≡ m ∷ ms
      → req'.messages ≡ req.messages
      → req'.model ≡ req.model
      → req'.stream ≡ false
      → (budget_step wiring (finish wiring s user req d now (ok resp)).0 now').1 ≡ true
      → (handle_chat_completions wiring
          (finish wiring s user req d now (ok resp)).0
          user'
          (some req')
          now'
          later).1
        ≡ answered (hit_headers wiring resp) true resp
  finish-handle_chat_completions s user user' req req' d resp c m ms now now' later h v fits room
        fresh nonempty same model plain pass =
      let s' = (finish wiring s user req d now (ok resp)).0 in
      let key = wiring.hash_key req.model req.messages in
      let c' = Prompt.put c key (some resp) now in
      let gate = budget_step wiring s' now' in
      let cached : gate.0.prompt_cache ≡ some c' =
        budget_step_cache s' now' ∙ finish_cache s user req d now resp c h in
      let hit : (Prompt.get c' (wiring.hash_key req'.model req'.messages) now').1 ≡ some resp =
        rw (model, same) (get-put c key resp now now' v fits room fresh) in
      ap (λ r. r.1) (after_budget-handle s' user' req' m ms now' later nonempty)
      ∙ ap (λ b. (after_budget wiring (gate.0, b) user' req' now' later).1) pass
      ∙ after_budget_hit gate.0 user' req' now' later c' resp cached plain hit
