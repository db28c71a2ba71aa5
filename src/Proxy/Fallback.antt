-- ===== src/Proxy/Fallback.antt =====
-- internal/proxy/fallback.go: the loop over the chain for requests without streaming.
pub mod Chain
pub mod Provenance
pub mod Isolation
use nadir.Prelude.{
  ℕ, suc, ◌+◌, Bool, true, false, ltb, Option, none, some, List, [], ◌∷◌, if◌then◌else◌,
}
use nadir.Prelude.Text.{Text, codes}
use nadir.Types.{ChatRequest, ChatResponse}
use nadir.Types.Errors.{GoError, Result, ok, err, is_transient}
use nadir.Proxy.Upstream.{
  Deps, LlmClient, Upstream, admit, pick_provider, record_failure, record_success,
}

-- How the body of the loop ends: `continue` with the last error, or `return`.
pub data Attempt : Type 0 where
  next : GoError → Attempt
  done : Result ChatResponse → Attempt

unfoldable pub stop_or_next : GoError → Attempt
stop_or_next e = if is_transient e then next e else done (err e)

unfoldable pub call : Deps → ChatRequest → ℕ → Text → LlmClient → Upstream → Upstream × Attempt
unfolding stop_or_next
call deps req i model client up =
    elim (client.complete i (record req { model = model; stream = false })) [
      | ok resp ↦ (
        record_success up model (deps.after i),
        done (ok (if ltb 0 i then record resp { model = model } else resp)),
      )
      | err e ↦ (record_failure up model e (deps.after i), stop_or_next e)
    ]

-- The body of the loop in round i.
unfoldable pub attempt : Deps → ChatRequest → ℕ → Text → Upstream → Upstream × Attempt
unfolding call
attempt deps req i model up =
    let (up', admitted) = admit up model (deps.before i) in
    elim admitted [
      | err e ↦ (up', next e)
      | ok _ ↦ elim (pick_provider deps model) [
        | err e ↦ (up', stop_or_next e)
        | ok client ↦ call deps req i model client up'
      ]
    ]

unfoldable pub last_or : Option GoError → GoError
last_or none = GoError.plain (codes "no models in fallback chain")
last_or (some e) = e

unfoldable pub complete_from :
    Deps → ChatRequest → ℕ → List Text → Option GoError → Upstream → Upstream × Result ChatResponse
unfolding last_or
complete_from deps req i [] last up = (up, err (last_or last))
complete_from deps req i (model ∷ chain) last up =
    let (up', a) = attempt deps req i model up in
    elim a [ next e ↦ complete_from deps req (suc i) chain (some e) up' | done r ↦ (up', r) ]

unfoldable pub complete_with_fallback :
    Deps → ChatRequest → List Text → Upstream → Upstream × Result ChatResponse
unfolding complete_from
complete_with_fallback deps req chain up = complete_from deps req 0 chain none up
