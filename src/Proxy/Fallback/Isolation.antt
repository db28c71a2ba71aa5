-- ===== src/Proxy/Fallback/Isolation.antt =====
-- What the fallback loop leaves alone, and what it does where no model is available.
use nadir.Prelude.{
  ℕ, suc, ◌≡◌, ◌∙◌, refl, ap, false, Option, none, some, List, [], ◌∷◌, arith, inl, inr,
}
use nadir.Prelude.Text.{Text, codes, text_eq, text_mem}
use nadir.Types.{ChatRequest}
use nadir.Types.Errors.{GoError, err, kind_of, Result-cases}
use nadir.Health
use nadir.Health.{Tracker}
use nadir.Health.Effects.{available-record_success_ne, available-record_failure_ne}
use nadir.Proxy.Upstream.{
  Deps, LlmClient, Upstream, in_cooldown, limiter_check, admit, pick_provider, record_failure,
  record_success,
}
use nadir.Proxy.Fallback.Chain.{Attempt-cases, step_next, step_done}
use nadir.Proxy.Fallback.{Attempt, next, call, attempt, complete_from, complete_with_fallback}

health-admit : (up : Upstream) (model : Text) (now : ℕ) → (admit up model now).0.health ≡ up.health
unfolding admit limiter_check
health-admit up model now = ground arith

module _ (deps : Deps) (req : ChatRequest) where
  module _ (other : Text) (t : ℕ) where
    call-available :
        (i : ℕ) (model : Text) (client : LlmClient) (up : Upstream)
        → text_eq model other ≡ false
        → Health.available (call deps req i model client up).0.health other t
          ≡ Health.available up.health other t
    unfolding call record_failure record_success
    call-available i model client up h =
        elim (Result-cases (client.complete i (record req { model = model; stream = false }))) [
          | inl (resp, q) ↦
              rw (q, call) (available-record_success_ne up.health model other (deps.after i) t h)
          | inr (e, q) ↦
              rw (q, call)
                (available-record_failure_ne up.health model other (deps.after i) t h (kind_of e))
        ]

    attempt-available :
        (i : ℕ) (model : Text) (up : Upstream)
        → text_eq model other ≡ false
        → Health.available (attempt deps req i model up).0.health other t
          ≡ Health.available up.health other t
    unfolding attempt
    attempt-available i model up h = elim (Result-cases (pick_provider deps model)) [
      | inl (client, q) ↦ ground (
        arith,
        q,
        health-admit up model (deps.before i),
        call-available i model client (admit up model (deps.before i)).0 h,
      )
      | inr (e, q) ↦ ground (arith, q, health-admit up model (deps.before i))
    ]

    complete_from-available :
        (i : ℕ) (chain : List Text) (last : Option GoError) (up : Upstream)
        → text_mem other chain ≡ false
        → Health.available (complete_from deps req i chain last up).0.health other t
          ≡ Health.available up.health other t
    complete_from-available i [] last up h = unfold complete_from in refl
    complete_from-available i (x ∷ chain) last up h =
        let apart : (text_eq x other ≡ false) × (text_mem other chain ≡ false) =
          unfold text_mem in (ground arith, ground arith) in
        let one = attempt-available i x up apart.0 in
        elim (Attempt-cases deps req (attempt deps req i x up).1) [
          | inl (e, q) ↦
              rw (step_next deps req i x chain last up e q)
                (complete_from-available (suc i) chain (some e) _ apart.1 ∙ one)
          | inr (r, q) ↦ rw (step_done deps req i x chain last up r q) one
        ]

  -- Whatever the upstreams answer, a model that is not in the chain is afterwards available at the
  -- instants at which it was before.
  pub complete_with_fallback-available :
      (chain : List Text) (up : Upstream) (other : Text) (t : ℕ)
      → text_mem other chain ≡ false
      → Health.available (complete_with_fallback deps req chain up).0.health other t
        ≡ Health.available up.health other t
  unfolding complete_with_fallback
  complete_with_fallback-available chain up other t h =
      complete_from-available other t 0 chain none up h

  -- The model of the last round, or the one before the loop.
  unfoldable pub last_model : Text → List Text → Text
  last_model m [] = m
  last_model m (x ∷ xs) = last_model x xs

  -- No model of the chain is available in the round in which the loop comes to it.
  abbrev pub IsDown : ℕ → List Text → Upstream → Type 0
  IsDown i [] up = Unit
  IsDown i (x ∷ xs) up =
      (Health.available up.health x (deps.before i) ≡ false) × IsDown (suc i) xs up

  attempt_down :
      (i : ℕ) (m : Text) (up : Upstream)
      → Health.available up.health m (deps.before i) ≡ false
      → attempt deps req i m up ≡ (up, next (in_cooldown (codes "health") m))
  unfolding attempt
  attempt_down i m up h = ground (arith, skip)
    where
      skip : admit up m (deps.before i) ≡ (up, err (in_cooldown (codes "health") m))
      skip = unfold admit in rw (h, admit)

  down_from :
      (i : ℕ) (m : Text) (xs : List Text) (up : Upstream)
      → IsDown i xs up
      → complete_from deps req i xs (some (in_cooldown (codes "health") m)) up
        ≡ (up, err (in_cooldown (codes "health") (last_model m xs)))
  unfolding last_model
  down_from i m [] up h = unfold complete_from in refl
  down_from i m (x ∷ xs) up h =
      let skip = attempt_down i x up h.0 in
      rw
        (
          step_next deps req i x xs (some (in_cooldown (codes "health") m)) up _
              (ap (λ (a : Upstream × Attempt). a.1) skip),
          skip,
        )
        (down_from (suc i) x xs up h.1)

  -- Where no model of a chain that is not empty is available when the loop comes to it, the
  -- loop calls no upstream and changes nothing, and its error is a rate limit that names the
  -- last model.
  pub complete_with_fallback_down :
      (x : Text) (xs : List Text) (up : Upstream)
      → IsDown 0 (x ∷ xs) up
      → complete_with_fallback deps req (x ∷ xs) up
        ≡ (up, err (in_cooldown (codes "health") (last_model x xs)))
  unfolding complete_with_fallback last_model
  complete_with_fallback_down x xs up h =
      let skip = attempt_down 0 x up h.0 in
      rw (step_next deps req 0 x xs none up _ (ap (λ (a : Upstream × Attempt). a.1) skip), skip)
        (down_from 1 x xs up h.1)
