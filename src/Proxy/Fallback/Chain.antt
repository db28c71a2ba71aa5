-- ===== src/Proxy/Fallback/Chain.antt =====
-- What the fallback loop promises of a chain.
use nadir.Prelude.{
  ℕ, suc, ◌+◌, ◌≡◌, ◌∙◌, refl, sym, ap, true, false, Option, none, some, List, [], ◌∷◌, ◌++◌, arith,
  if◌then◌else◌, length, ◌⊎◌, inl, inr,
}
use nadir.Prelude.Text.{Text, codes}
use nadir.Types.{ChatRequest, ChatResponse}
use nadir.Types.Errors.{GoError, Result, ok, err, is_transient}
use nadir.Proxy.Upstream.{Deps, Upstream, in_cooldown, admit}
use nadir.Proxy.Fallback.{Attempt, next, done, attempt, complete_from, complete_with_fallback}

in_cooldown-is_transient :
    (provider model : Text) → is_transient (in_cooldown provider model) ≡ true
unfolding is_transient
in_cooldown-is_transient provider model = refl

module _ (deps : Deps) (req : ChatRequest) where
  -- The loop goes on only after a transient error.
  pub attempt-next :
      (i : ℕ) (model : Text) (up : Upstream) (e : GoError)
      → (attempt deps req i model up).1 ≡ next e
      → is_transient e ≡ true
  unfolding attempt admit
  attempt-next i model up e h = ground (
    arith,
    in_cooldown-is_transient (codes "health") model,
    in_cooldown-is_transient (codes "ratelimit") model,
  )

  -- The outcome of a chain, continued with more models.
  unfoldable pub resume :
      ℕ → List Text → Upstream × Result ChatResponse → Upstream × Result ChatResponse
  resume i more (up, ok resp) = (up, ok resp)
  resume i more (up, err e) =
      if is_transient e then complete_from deps req i more (some e) up else (up, err e)

  pub Attempt-cases :
      (a : Attempt) → ((e : GoError) × (a ≡ next e)) ⊎ ((r : Result ChatResponse) × (a ≡ done r))
  Attempt-cases (next e) = inl (e, refl)
  Attempt-cases (done r) = inr (r, refl)

  pub step_next :
      (i : ℕ) (model : Text) (chain : List Text) (last : Option GoError) (up : Upstream)
      (e : GoError)
      → (attempt deps req i model up).1 ≡ next e
      → complete_from deps req i (model ∷ chain) last up
        ≡ complete_from deps req (suc i) chain (some e) (attempt deps req i model up).0
  unfolding complete_from
  step_next i model chain last up e h = rw (h, complete_from)

  pub step_done :
      (i : ℕ) (model : Text) (chain : List Text) (last : Option GoError) (up : Upstream)
      (r : Result ChatResponse)
      → (attempt deps req i model up).1 ≡ done r
      → complete_from deps req i (model ∷ chain) last up ≡ ((attempt deps req i model up).0, r)
  unfolding complete_from
  step_done i model chain last up r h = rw (h, complete_from)

  -- A `return` is with a response or with a fatal error.
  attempt-done :
      (i : ℕ) (model : Text) (up : Upstream) (e : GoError)
      → (attempt deps req i model up).1 ≡ done (err e)
      → is_transient e ≡ false
  unfolding attempt admit
  attempt-done i model up e h = ground arith

  resume-done :
      (i j : ℕ) (more : List Text) (up up' : Upstream) (model : Text) (r : Result ChatResponse)
      → (attempt deps req i model up).1 ≡ done r
      → resume j more (up', r) ≡ (up', r)
  unfolding resume
  resume-done i j more up up' model (ok resp) h = refl
  resume-done i j more up up' model (err e) h = rw (attempt-done i model up e h)

  complete_from-append :
      (i : ℕ) (xs more : List Text) (e : GoError) (up : Upstream)
      → is_transient e ≡ true
      → complete_from deps req i (xs ++ more) (some e) up
        ≡ resume (i + length xs) more (complete_from deps req i xs (some e) up)
  complete_from-append i [] more e up t =
      let same : i + 0 ≡ i = omega arith in rw same (unfold complete_from resume in rw t)
  complete_from-append i (x ∷ xs) more e up t = elim (Attempt-cases (attempt deps req i x up).1) [
    | inl (e', h) ↦
        let same : i + suc (length xs) ≡ suc i + length xs = omega arith in
        rw (step_next i x xs (some e) up e' h, step_next i x (xs ++ more) (some e) up e' h, same)
          (complete_from-append (suc i) xs more e' _ (attempt-next i x up e' h))
    | inr (r, h) ↦
        rw (step_done i x xs (some e) up r h, step_done i x (xs ++ more) (some e) up r h)
          (sym (resume-done i (i + suc (length xs)) more up _ x r h))
  ]

  -- Models behind the end of a chain that is not empty are consulted only where its outcome
  -- is a transient error, and then in turn, from the state that the chain left: a response or
  -- a fatal error of the chain stands as it is, with the same state.
  pub complete_with_fallback-append :
      (x : Text) (xs more : List Text) (up : Upstream)
      → complete_with_fallback deps req ((x ∷ xs) ++ more) up
        ≡ resume (suc (length xs)) more (complete_with_fallback deps req (x ∷ xs) up)
  unfolding complete_with_fallback
  complete_with_fallback-append x xs more up = elim (Attempt-cases (attempt deps req 0 x up).1) [
    | inl (e', h) ↦
        let same : suc (length xs) ≡ 1 + length xs = omega arith in
        rw (step_next 0 x xs none up e' h, step_next 0 x (xs ++ more) none up e' h)
          (complete_from-append 1 xs more e' _ (attempt-next 0 x up e' h)
            ∙ ap
                (λ (n : ℕ).
                  resume n more (complete_from deps req 1 xs (some e') (attempt deps req 0 x up).0))
                (sym same))
    | inr (r, h) ↦
        rw (step_done 0 x xs none up r h, step_done 0 x (xs ++ more) none up r h)
          (sym (resume-done 0 (suc (length xs)) more up _ x r h))
  ]
