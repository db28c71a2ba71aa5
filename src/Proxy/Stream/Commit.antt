-- ===== src/Proxy/Stream/Commit.antt =====
-- What the streaming loop writes to the client.
use nadir.Prelude.{
  ℕ, suc, ◌+◌, ◌≡◌, ◌∙◌, refl, subst, ap, true, Option, none, some, List, [], ◌∷◌, arith, ◌⊎◌, inl,
  inr, get_elem?, Bool-cases,
}
use nadir.Prelude.Text.{Text}
use nadir.Types.{ChatRequest, StreamChunk}
use nadir.Types.Errors.{GoError, ok, err, is_transient, is_eof, Result-cases}
use nadir.Proxy.Upstream.{Deps, LlmClient, StreamIter, Upstream, admit, pick_provider}
use nadir.Proxy.Stream.{
  Event, Attempt, next, finish, forward, stop_or_next, probe, attempt, keep_last, stream_from,
  stream_with_fallback,
}

-- Chunks, then at most one error event, and then one end marker.
abbrev pub IsStream : List Event → Type 0
IsStream [] = ⊥
IsStream (Event.chunk c ∷ events) = IsStream events
IsStream (Event.error e ∷ events) = events ≡ Event.done ∷ []
IsStream (Event.done ∷ events) = events ≡ []

forward-IsStream : (iter : StreamIter) → IsStream (forward iter).0
unfolding forward
forward-IsStream [] = refl
forward-IsStream (ok c ∷ iter) = forward-IsStream iter
forward-IsStream (err e ∷ iter) = elim (Bool-cases (is_eof e)) [
  | inl h ↦ rw h refl
  | inr h ↦ rw h refl
]

abbrev IsFinished : Attempt → Type 0
IsFinished (next e) = Unit
IsFinished (finish events) = IsStream events

stop_or_next-IsFinished : (e : GoError) → IsFinished (stop_or_next e)
unfolding stop_or_next
stop_or_next-IsFinished e = elim (Bool-cases (is_transient e)) [
  | inl h ↦ rw h tt
  | inr h ↦ rw h refl
]

module _ (deps : Deps) (req : ChatRequest) where
  probe-IsFinished :
      (i : ℕ) (model : Text) (client : LlmClient) (iter : StreamIter) (up : Upstream)
      → IsFinished (probe deps i model client iter up).1
  unfolding probe
  probe-IsFinished i model client [] up = tt
  probe-IsFinished i model client (err e ∷ iter) up = elim (Bool-cases (is_eof e)) [
    | inl h ↦ rw h tt
    | inr h ↦ rw h (stop_or_next-IsFinished e)
  ]
  probe-IsFinished i model client (ok c ∷ iter) up = forward-IsStream iter

  attempt-IsFinished :
      (i : ℕ) (model : Text) (up : Upstream) → IsFinished (attempt deps req i model up).1
  unfolding attempt
  attempt-IsFinished i model up = elim (Result-cases (admit up model (deps.before i)).1) [
    | inr (e, h) ↦ rw (h, attempt) tt
    | inl (_, h) ↦ elim (Result-cases (pick_provider deps model)) [
      | inr (e, q) ↦ rw (h, q, attempt) (stop_or_next-IsFinished e)
      | inl (client, q) ↦
          elim (Result-cases (client.stream i (record req { model = model; stream = true }))) [
            | inr (e, s) ↦ rw (h, q, s, attempt) (stop_or_next-IsFinished e)
            | inl (iter, s) ↦ rw (h, q, s, attempt) (probe-IsFinished i model client iter _)
          ]
    ]
  ]

  Attempt-cases :
      (a : Attempt) → ((e : Option GoError) × (a ≡ next e)) ⊎ ((es : List Event) × (a ≡ finish es))
  Attempt-cases (next e) = inl (e, refl)
  Attempt-cases (finish es) = inr (es, refl)

  step_next :
      (i : ℕ) (x : Text) (chain : List Text) (last e : Option GoError) (up : Upstream)
      → (attempt deps req i x up).1 ≡ next e
      → stream_from deps req i (x ∷ chain) last up
        ≡ stream_from deps req (suc i) chain (keep_last last e) (attempt deps req i x up).0
  unfolding stream_from
  step_next i x chain last e up h = rw (h, stream_from)

  step_finish :
      (i : ℕ) (x : Text) (chain : List Text) (last : Option GoError) (up : Upstream)
      (es : List Event)
      → (attempt deps req i x up).1 ≡ finish es
      → stream_from deps req i (x ∷ chain) last up ≡ ((attempt deps req i x up).0, es)
  unfolding stream_from
  step_finish i x chain last up es h = rw (h, stream_from)

  stream_from-IsStream :
      (i : ℕ) (chain : List Text) (last : Option GoError) (up : Upstream)
      → IsStream (stream_from deps req i chain last up).1
  stream_from-IsStream i [] last up = unfold stream_from in refl
  stream_from-IsStream i (x ∷ chain) last up = elim (Attempt-cases (attempt deps req i x up).1) [
    | inl (e, h) ↦ rw (step_next i x chain last e up h) (stream_from-IsStream (suc i) chain _ _)
    | inr (es, h) ↦
        rw (step_finish i x chain last up es h) (subst IsFinished h (attempt-IsFinished i x up))
  ]

  -- Whatever the upstreams answer, the client is sent chunks, then at most one error event, and then
  -- one end marker with nothing behind it.
  pub stream_with_fallback-IsStream :
      (chain : List Text) (up : Upstream) → IsStream (stream_with_fallback deps req chain up).1
  unfolding stream_with_fallback
  stream_with_fallback-IsStream chain up = stream_from-IsStream 0 chain none up

  -- A stream that a client opened in round i, from whose first chunk on everything is forwarded.
  pub record Committed (i : ℕ) (model : Text) (first : StreamChunk) (events : List Event)
      : Type 0 where
    pub client : LlmClient
    pub iter : StreamIter
    pub picked : pick_provider deps model ≡ ok client
    pub opened :
        client.stream i (record req { model = model; stream = true }) ≡ ok (ok first ∷ iter)
    pub forwarded : events ≡ (forward iter).0

  probe-chunk :
      (i : ℕ) (model : Text) (client : LlmClient) (iter : StreamIter) (up : Upstream)
      (c : StreamChunk) (events : List Event)
      → (probe deps i model client iter up).1 ≡ finish (Event.chunk c ∷ events)
      → (rest : StreamIter) × (iter ≡ ok c ∷ rest) × (events ≡ (forward rest).0)
  unfolding probe
  probe-chunk i model client [] up c events h = absurd (cc)
  probe-chunk i model client (err e ∷ iter) up c events h = absurd (ground arith)
  probe-chunk i model client (ok d ∷ iter) up c events h = (iter, ground arith, ground arith)

  attempt-Committed :
      (i : ℕ) (model : Text) (up : Upstream) (c : StreamChunk) (events : List Event)
      → (attempt deps req i model up).1 ≡ finish (Event.chunk c ∷ events)
      → Committed i model c events
  unfolding attempt
  attempt-Committed i model up c events h = elim (Result-cases (admit up model (deps.before i)).1) [
    | inr (e, a) ↦ absurd (ground arith)
    | inl (_, a) ↦ elim (Result-cases (pick_provider deps model)) [
      | inr (e, q) ↦ absurd (ground arith)
      | inl (client, q) ↦
          elim (Result-cases (client.stream i (record req { model = model; stream = true }))) [
            | inr (e, s) ↦ absurd (ground arith)
            | inl (iter, s) ↦
                let (rest, first, forwarded) =
                  probe-chunk i model client iter (admit up model (deps.before i)).0 c events
                    (ground arith) in
                record {
                  client = client;
                  iter = rest;
                  picked = q;
                  opened = s ∙ ap ok first;
                  forwarded = forwarded;
                }
          ]
    ]
  ]

  stream_from-Committed :
      (i : ℕ) (chain : List Text) (last : Option GoError) (up : Upstream) (c : StreamChunk)
      (events : List Event)
      → (stream_from deps req i chain last up).1 ≡ Event.chunk c ∷ events
      → (k : ℕ) × (model : Text) × (get_elem? chain k ≡ some model)
        × Committed (i + k) model c events
  stream_from-Committed i [] last up c events h = absurd (unfold stream_from in ground arith)
  stream_from-Committed i (x ∷ chain) last up c events h =
      elim (Attempt-cases (attempt deps req i x up).1) [
        | inl (e, q) ↦
            let h' = rw (step_next i x chain last e up q) at h in
            let (k, model, at, committed) =
              stream_from-Committed (suc i) chain (keep_last last e) _ c events h' in
            let round : i + suc k ≡ suc i + k = omega arith in
            (suc k, model, at, rw round committed)
        | inr (es, q) ↦
            let same : es ≡ Event.chunk c ∷ events = rw (step_finish i x chain last up es q) at h in
            let round : i + 0 ≡ i = omega arith in
            (0, x, refl, rw round (attempt-Committed i x up c events (q ∙ ap finish same)))
      ]

  -- Once a chunk has been sent, everything sent comes from the one stream that the client of one
  -- model of the chain opened: there is no fallback behind the first chunk.
  pub stream_with_fallback-Committed :
      (chain : List Text) (up : Upstream) (c : StreamChunk) (events : List Event)
      → (stream_with_fallback deps req chain up).1 ≡ Event.chunk c ∷ events
      → (k : ℕ) × (model : Text) × (get_elem? chain k ≡ some model) × Committed k model c events
  unfolding stream_with_fallback
  stream_with_fallback-Committed chain up c events h =
      let (k, model, at, committed) = stream_from-Committed 0 chain none up c events h in
      let round : 0 + k ≡ k = omega arith in (k, model, at, rw round at committed)
