-- ===== src/Proxy/Fallback/Provenance.antt =====
-- Where the outcome of the fallback loop comes from, and what the loop leaves alone.
use nadir.Prelude.{
  ℕ, suc, ◌+◌, ◌≡◌, ◌∙◌, refl, ap, false, ltb, Option, none, some, List, [], ◌∷◌, arith,
  if◌then◌else◌, inl, inr, get_elem?,
}
use nadir.Prelude.Text.{Text}
use nadir.Types.{ChatRequest, ChatResponse}
use nadir.Types.Errors.{GoError, Result, ok, err}
use nadir.Health
use nadir.Health.{Tracker}
use nadir.Health.Effects.{score-record_success}
use nadir.Proxy.Upstream.{Deps, LlmClient, Upstream, admit, pick_provider, record_success}
use nadir.Proxy.Fallback.Chain.{Attempt-cases, step_next, step_done}
use nadir.Proxy.Fallback.{done, attempt, complete_from, complete_with_fallback}

module _ (deps : Deps) (req : ChatRequest) where
  -- A response that a client gave in round i for a model that was available then, and the health
  -- in which the loop leaves.
  pub record Answered (i : ℕ) (model : Text) (health : Tracker) (resp : ChatResponse) : Type 0 where
    pub client : LlmClient
    pub reply : ChatResponse
    pub picked : pick_provider deps model ≡ ok client
    pub replied : client.complete i (record req { model = model; stream = false }) ≡ ok reply
    pub response : resp ≡ (if ltb 0 i then record reply { model = model } else reply)
    pub healthy : (t : ℕ) → Health.score health model t ≡ 0

  attempt-Answered :
      (i : ℕ) (model : Text) (up : Upstream) (resp : ChatResponse)
      → (attempt deps req i model up).1 ≡ done (ok resp)
      → Answered i model (attempt deps req i model up).0.health resp
  unfolding attempt record_success
  attempt-Answered i model up resp h = picked (pick_provider deps model) refl
    where
      answered :
          (client : LlmClient)
          → pick_provider deps model ≡ ok client
          → (reply : Result ChatResponse)
          → client.complete i (record req { model = model; stream = false }) ≡ reply
          → Answered i model (attempt deps req i model up).0.health resp
      answered client p (err e) q = absurd (ground arith)
      answered client p (ok reply) q =
          let (up', r) = admit up model (deps.before i) in
          record {
            client = client;
            reply = reply;
            picked = p;
            replied = q;
            response = ground arith;
            healthy = λ t. ground (arith, score-record_success up'.health model (deps.after i) t);
          }

      picked :
          (o : Result LlmClient)
          → pick_provider deps model ≡ o
          → Answered i model (attempt deps req i model up).0.health resp
      picked (err e) p = absurd (ground arith)
      picked (ok client) p =
          answered client p (client.complete i (record req { model = model; stream = false })) refl

  complete_from-Answered :
      (i : ℕ) (chain : List Text) (last : Option GoError) (up : Upstream) (resp : ChatResponse)
      → (complete_from deps req i chain last up).1 ≡ ok resp
      → (k : ℕ) × (model : Text) × (get_elem? chain k ≡ some model)
        × Answered (i + k) model (complete_from deps req i chain last up).0.health resp
  complete_from-Answered i [] last up resp h = absurd (unfold complete_from in cc)
  complete_from-Answered i (x ∷ chain) last up resp h =
      elim (Attempt-cases deps req (attempt deps req i x up).1) [
        | inl (e, q) ↦
            let up' = (attempt deps req i x up).0 in
            let step = step_next deps req i x chain last up e q in
            let h' : (complete_from deps req (suc i) chain (some e) up').1 ≡ ok resp =
              rw step at h in
            let (k, model, at, answered) =
              complete_from-Answered (suc i) chain (some e) up' resp h' in
            let round : i + suc k ≡ suc i + k = omega arith in
            (suc k, model, at, rw (step, round) answered)
        | inr (r, q) ↦
            let step = step_done deps req i x chain last up r q in
            let r_ok : r ≡ ok resp = rw step at h in
            let round : i + 0 ≡ i = omega arith in
            (0, x, refl, rw (step, round) (attempt-Answered i x up resp (q ∙ ap done r_ok)))
      ]

  -- A response that the loop returns was given by the client of some model of the chain, in the
  -- round of that model; the response names the model where it is not the first, and the model's
  -- health score is zero afterwards.
  pub complete_with_fallback-Answered :
      (chain : List Text) (up : Upstream) (resp : ChatResponse)
      → (complete_with_fallback deps req chain up).1 ≡ ok resp
      → (k : ℕ) × (model : Text) × (get_elem? chain k ≡ some model)
        × Answered k model (complete_with_fallback deps req chain up).0.health resp
  unfolding complete_with_fallback
  complete_with_fallback-Answered chain up resp h =
      let (k, model, at, answered) = complete_from-Answered 0 chain none up resp h in
      let round : 0 + k ≡ k = omega arith in (k, model, at, rw round at answered)
