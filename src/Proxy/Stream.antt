-- ===== src/Proxy/Stream.antt =====
-- internal/proxy/stream.go: the loop over the chain for streaming requests. What is written to the
-- client is a list of events. The last iterator's chunks are finite, as those of a response are.
pub mod Commit
use nadir.Prelude.{
  ℕ, suc, Bool, true, false, Option, none, some, List, [], ◌∷◌, ◌++◌, if◌then◌else◌,
}
use nadir.Prelude.Text.{Text, codes}
use nadir.Types.{ChatRequest, StreamChunk}
use nadir.Types.Errors.{ErrorKind, ProviderError, GoError, Result, ok, err, is_transient, is_eof}
use nadir.Proxy.Upstream.{
  Deps, LlmClient, StreamIter, Upstream, admit, pick_provider, record_failure, record_success,
}
use nadir.Proxy.Fallback.{last_or}

-- What the handler writes: a chunk as a data line, an error event, or the end marker.
pub data Event : Type 0 where
  chunk : StreamChunk → Event
  error : GoError → Event
  done : Event

-- writeStreamError: the error event and the end marker
unfoldable pub error_events : GoError → List Event
error_events e = Event.error e ∷ Event.done ∷ []

-- The inner loop, after the first chunk: what it writes, and the error that ended it, if one did.
unfoldable pub forward : StreamIter → List Event × Option GoError
unfolding error_events
forward [] = (Event.done ∷ [], none)
forward (ok c ∷ iter) = let (events, e) = forward iter in (Event.chunk c ∷ events, e)
forward (err e ∷ iter) =
    let rest = forward iter in
    if is_eof e then (Event.done ∷ [], none) else (error_events e, some e)

-- How the body of the outer loop ends: `continue`, with the new last error where it sets one, or
-- `return`, with what it wrote.
pub data Attempt : Type 0 where
  next : Option GoError → Attempt
  finish : List Event → Attempt

unfoldable pub stop_or_next : GoError → Attempt
unfolding error_events
stop_or_next e = if is_transient e then next (some e) else finish (error_events e)

-- The failure that is recorded for a stream that ends before its first chunk.
abbrev pub empty_stream : Text → Text → GoError
empty_stream provider model = GoError.provider (record {
  kind = ErrorKind.server_error;
  status_code = 0;
  provider = provider;
  model = model;
  msg = codes "empty stream";
})

unfoldable pub empty_attempt : Deps → ℕ → Text → LlmClient → Upstream → Upstream × Attempt
empty_attempt deps i model client up =
    (record_failure up model (empty_stream client.name model) (deps.after i), next none)

-- From the first call of Next on.
unfoldable pub probe : Deps → ℕ → Text → LlmClient → StreamIter → Upstream → Upstream × Attempt
unfolding forward stop_or_next empty_attempt
probe deps i model client [] up = empty_attempt deps i model client up
probe deps i model client (err e ∷ iter) up =
    if is_eof e
    then empty_attempt deps i model client up
    else (record_failure up model e (deps.after i), stop_or_next e)
probe deps i model client (ok c ∷ iter) up =
    let (events, e) = forward iter in
    (
      elim e [
        | none ↦ record_success up model (deps.after i)
        | some e' ↦ record_failure up model e' (deps.after i)
      ],
      finish (Event.chunk c ∷ events),
    )

-- The body of the loop in round i.
unfoldable pub attempt : Deps → ChatRequest → ℕ → Text → Upstream → Upstream × Attempt
unfolding probe
attempt deps req i model up =
    let (up', admitted) = admit up model (deps.before i) in
    elim admitted [
      | err e ↦ (up', next (some e))
      | ok _ ↦ elim (pick_provider deps model) [
        | err e ↦ (up', stop_or_next e)
        | ok client ↦ elim (client.stream i (record req { model = model; stream = true })) [
          | err e ↦ (record_failure up' model e (deps.after i), stop_or_next e)
          | ok iter ↦ probe deps i model client iter up'
        ]
      ]
    ]

-- lastErr after a `continue`
unfoldable pub keep_last : Option GoError → Option GoError → Option GoError
keep_last last none = last
keep_last last (some e) = some e

unfoldable pub stream_from :
    Deps → ChatRequest → ℕ → List Text → Option GoError → Upstream → Upstream × List Event
unfolding keep_last error_events
stream_from deps req i [] last up = (up, error_events (last_or last))
stream_from deps req i (model ∷ chain) last up =
    let (up', a) = attempt deps req i model up in
    elim a [
      | next e ↦ stream_from deps req (suc i) chain (keep_last last e) up'
      | finish events ↦ (up', events)
    ]

-- For a writer that can flush.
unfoldable pub stream_with_fallback :
    Deps → ChatRequest → List Text → Upstream → Upstream × List Event
unfolding stream_from
stream_with_fallback deps req chain up = stream_from deps req 0 chain none up
