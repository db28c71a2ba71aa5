-- ===== src/Proxy/Worker/Delivery.antt =====
-- What becomes of the entries that a pool is given.
use nadir.Prelude.{
  ℕ, suc, ◌≤◌, ◌<◌, ◌≡◌, refl, sym, ap, ◌∙◌, subst, arith, some, List, [], ◌∷◌, ◌++◌, ltb, length,
  length-append, ◌⊎◌, Bool-cases, inl, inr,
}
use mathlib.Core.List.{append_assoc}
use mathlib.Core.Option.{some_inj, none-ne-some}
use nadir.Proxy.Worker.Counter.{
  IsCounted, nothing-IsCounted, refused-IsCounted, read-IsCounted, write-IsCounted,
}
use nadir.Proxy.Worker.{Pool, new_logger_pool, submit, Dropping, Event, outcome, Step, Run}

module _ {E : Type 0} where
  -- The entries that the pool accepted, and those that a worker took, the oldest first.
  unfoldable pub accepted_in : List (Event E) → List E
  accepted_in [] = []
  accepted_in (Event.accepted e ∷ trace) = accepted_in trace ++ e ∷ []
  accepted_in (_ ∷ trace) = accepted_in trace

  unfoldable pub taken_in : List (Event E) → List E
  taken_in [] = []
  taken_in (Event.taken e ∷ trace) = taken_in trace ++ e ∷ []
  taken_in (_ ∷ trace) = taken_in trace

  unfoldable pub refused_in : List (Event E) → ℕ
  refused_in [] = 0
  refused_in (Event.refused e ∷ trace) = suc (refused_in trace)
  refused_in (_ ∷ trace) = refused_in trace

  abbrev pub IsKept : List (Event E) → Pool E → Type 0
  IsKept trace q =
      (accepted_in trace ≡ taken_in trace ++ q.queue)
      × (length q.queue ≤ q.cap)
      × (q.dropped ≤ refused_in trace)

  pub submit-cases :
      (e : E) (p q : Pool E)
      → submit e p ≡ some q
      → ((length p.queue < p.cap)
          × (outcome e p ≡ Event.accepted e)
          × (record p { queue = p.queue ++ e ∷ [] } ≡ q))
        ⊎ ((outcome e p ≡ Event.refused e)
            × (record p { dropping = p.dropping ++ Dropping.refused ∷ [] } ≡ q))
  unfolding submit outcome
  submit-cases e p q h = elim (Bool-cases p.closed) [
    | inl shut ↦ absurd (none-ne-some q (rw (shut, submit) at h))
    | inr up ↦ elim (Bool-cases (ltb (length p.queue) p.cap)) [
      | inl room ↦
          let sent : submit e p ≡ some (record p { queue = p.queue ++ e ∷ [] }) =
            rw (up, submit, room) refl in
          inl (ground arith, rw (room, outcome) refl, some_inj.0 (sym sent ∙ h))
      | inr full ↦
          let sent : submit e p
              ≡ some (record p { dropping = p.dropping ++ Dropping.refused ∷ [] }) =
            rw (up, submit, full) refl in
          inr (rw (full, outcome) refl, some_inj.0 (sym sent ∙ h))
    ]
  ]

  -- The invariant of a run.
  record IsSteady (trace : List (Event E)) (q : Pool E) : Type 0 where
    order : accepted_in trace ≡ taken_in trace ++ q.queue
    room : length q.queue ≤ q.cap
    count : IsCounted (refused_in trace) q.dropped q.dropping

  send-IsSteady :
      (trace : List (Event E)) (p q : Pool E) (e : E)
      → submit e p ≡ some q
      → IsSteady trace p
      → IsSteady (outcome e p ∷ trace) q
  unfolding accepted_in taken_in refused_in
  send-IsSteady trace p q e h k = elim (submit-cases e p q h) [
    | inl (free, shown, next) ↦ rw shown (
        subst (IsSteady (Event.accepted e ∷ trace)) next (record {
          order =
              ap (λ (es : List E). es ++ e ∷ []) k.order
              ∙ append_assoc (taken_in trace) p.queue (e ∷ []);
          room = omega (arith, length-append p.queue (e ∷ []));
          count = k.count;
        }))
    | inr (shown, next) ↦ rw shown (
        subst (IsSteady (Event.refused e ∷ trace)) next (record {
          order = k.order;
          room = k.room;
          count = refused-IsCounted (refused_in trace) p.dropped p.dropping k.count;
        }))
  ]

  Step-IsSteady :
      (trace : List (Event E)) {p q : Pool E} {ev : Event E}
      → Step p ev q
      → IsSteady trace p
      → IsSteady (ev ∷ trace) q
  unfolding accepted_in taken_in refused_in
  Step-IsSteady trace (Step.send p q e h) k = send-IsSteady trace p q e h k
  Step-IsSteady trace (Step.read_dropped p hs gs place) k = record {
    order = k.order;
    room = k.room;
    count = read-IsCounted (refused_in trace) p.dropped p.dropping hs gs place k.count;
  }
  Step-IsSteady trace (Step.write_dropped p n hs gs place) k = record {
    order = k.order;
    room = k.room;
    count = write-IsCounted (refused_in trace) p.dropped n p.dropping hs gs place k.count;
  }
  Step-IsSteady trace (Step.receive p e rest ws vs front _) k = record {
    order =
        k.order
        ∙ ap (◌++◌ (taken_in trace)) front
        ∙ sym (append_assoc (taken_in trace) (e ∷ []) rest);
    room = omega (arith, k.room, ap length front);
    count = k.count;
  }
  Step-IsSteady trace (Step.log p e n ws vs _ _) k = record {
    order = k.order;
    room = k.room;
    count = k.count;
  }
  Step-IsSteady trace (Step.loop p e n ws vs _ _) k = record {
    order = k.order;
    room = k.room;
    count = k.count;
  }
  Step-IsSteady trace (Step.stop_canceled p ws vs _ _) k = record {
    order = k.order;
    room = k.room;
    count = k.count;
  }
  Step-IsSteady trace (Step.stop_closed p ws vs _ _ _) k = record {
    order = k.order;
    room = k.room;
    count = k.count;
  }
  Step-IsSteady trace (Step.close_channel p _) k = record {
    order = k.order;
    room = k.room;
    count = k.count;
  }
  Step-IsSteady trace (Step.cancel p _) k = record {
    order = k.order;
    room = k.room;
    count = k.count;
  }

  Run-IsSteady :
      {s q : Pool E} {trace : List (Event E)} → IsSteady [] s → Run s trace q → IsSteady trace q
  Run-IsSteady h Run.start = h
  Run-IsSteady h (Run.then_step {trace = trace} r st) = Step-IsSteady trace st (Run-IsSteady h r)

  -- In every run of a pool, whatever its goroutines do in whatever order: the accepted entries are, in their
  -- order, those that the workers took followed by those in the queue; the queue is within its capacity;
  -- and the counter of dropped entries is at most the number of the entries that were refused.
  pub pool_lem :
      (stores workers bound : ℕ) (trace : List (Event E)) (q : Pool E)
      → Run (new_logger_pool stores workers bound) trace q
      → IsKept trace q
  unfolding new_logger_pool accepted_in taken_in refused_in
  pool_lem stores workers bound trace q r =
      let start : IsSteady [] (new_logger_pool stores workers bound) = record {
        order = refl;
        room = omega arith;
        count = nothing-IsCounted;
      } in
      let k = Run-IsSteady start r in (k.order, k.room, omega (arith, k.count.within))
