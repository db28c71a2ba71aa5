-- ===== src/Proxy/Worker/Calls.antt =====
-- Which entries reach which stores.
use nadir.Prelude.{
  ℕ, zero, suc, ◌+◌, ◌<◌, ◌≡◌, refl, ap, subst, arith, Bool, List, [], ◌∷◌, ◌++◌, leb, ◌==◌, ◌&&◌,
  if◌then◌else◌, replicate, All, inl, inr,
}
use nadir.Proxy.Worker.{Worker, Pool, new_logger_pool, Event, Step, Run, default_to}
use nadir.Proxy.Worker.Delivery.{accepted_in, taken_in, submit-cases, pool_lem}

module _ {E : Type 0} (t : E → Bool) where
  -- How many entries pass the test.
  unfoldable pub passing : List E → ℕ
  passing [] = 0
  passing (e ∷ es) = (if t e then 1 else 0) + passing es

  -- How many calls of the store k have an entry that passes.
  unfoldable pub logged : ℕ → List (ℕ × E) → ℕ
  logged k [] = 0
  logged k ((j, e) ∷ calls) = (if j == k && t e then 1 else 0) + logged k calls

  -- How many entries that pass a worker has still to give to the store k.
  unfoldable pub pending_of : ℕ → Worker E → ℕ
  pending_of k Worker.waiting = 0
  pending_of k (Worker.logging e j) = if leb j k && t e then 1 else 0
  pending_of k Worker.stopped = 0

  unfoldable pub pending : ℕ → List (Worker E) → ℕ
  unfolding pending_of
  pending k [] = 0
  pending k (w ∷ ws) = pending_of k w + pending k ws

  passing-append : (es fs : List E) → passing (es ++ fs) ≡ passing es + passing fs
  unfolding passing
  passing-append [] fs = omega arith
  passing-append (e ∷ es) fs = omega (arith, passing-append es fs)

  logged-append : (k : ℕ) (xs ys : List (ℕ × E)) → logged k (xs ++ ys) ≡ logged k xs + logged k ys
  unfolding logged
  logged-append k [] ys = omega arith
  logged-append k ((j, e) ∷ xs) ys = omega (arith, logged-append k xs ys)

  pending-append :
      (k : ℕ) (ws vs : List (Worker E)) → pending k (ws ++ vs) ≡ pending k ws + pending k vs
  unfolding pending
  pending-append k [] vs = omega arith
  pending-append k (w ∷ ws) vs = omega (arith, pending-append k ws vs)

  -- One worker's change changes what is pending by its own part.
  pending-change :
      (k : ℕ) (all ws vs : List (Worker E)) (w v : Worker E)
      → all ≡ ws ++ w ∷ vs
      → pending k (ws ++ v ∷ vs) + pending_of k w ≡ pending k all + pending_of k v
  unfolding pending
  pending-change k all ws vs w v e =
      rw e (omega (arith, pending-append k ws (w ∷ vs), pending-append k ws (v ∷ vs)))

  pending-receive :
      (k : ℕ) (all ws vs : List (Worker E)) (e : E)
      → all ≡ ws ++ Worker.waiting ∷ vs
      → pending k (ws ++ Worker.logging e 0 ∷ vs) ≡ pending k all + passing (e ∷ [])
  unfolding pending_of passing
  pending-receive k all ws vs e h =
      ground (arith, pending-change k all ws vs Worker.waiting (Worker.logging e 0) h)

  pending-log :
      (k j : ℕ) (all ws vs : List (Worker E)) (e : E)
      → all ≡ ws ++ Worker.logging e j ∷ vs
      → pending k (ws ++ Worker.logging e (suc j) ∷ vs) + logged k ((j, e) ∷ []) ≡ pending k all
  unfolding pending_of logged
  pending-log k j all ws vs e h =
      ground (arith, pending-change k all ws vs (Worker.logging e j) (Worker.logging e (suc j)) h)

  pending-loop :
      (k j : ℕ) (all ws vs : List (Worker E)) (e : E)
      → k < j
      → all ≡ ws ++ Worker.logging e j ∷ vs
      → pending k (ws ++ Worker.waiting ∷ vs) ≡ pending k all
  unfolding pending_of
  pending-loop k j all ws vs e b h =
      ground (arith, pending-change k all ws vs (Worker.logging e j) Worker.waiting h)

  pending-stop :
      (k : ℕ) (all ws vs : List (Worker E))
      → all ≡ ws ++ Worker.waiting ∷ vs
      → pending k (ws ++ Worker.stopped ∷ vs) ≡ pending k all
  unfolding pending_of
  pending-stop k all ws vs h =
      ground (arith, pending-change k all ws vs Worker.waiting Worker.stopped h)

  abbrev pub IsDelivered : ℕ → ℕ → List (Event E) → Pool E → Type 0
  IsDelivered stores k trace q =
      (q.stores ≡ stores) × (logged k q.calls + pending k q.workers ≡ passing (taken_in trace))

  Step-IsDelivered :
      (stores k : ℕ) (trace : List (Event E)) {p q : Pool E} {ev : Event E}
      → k < stores
      → Step p ev q
      → IsDelivered stores k trace p
      → IsDelivered stores k (ev ∷ trace) q
  unfolding taken_in
  Step-IsDelivered stores k trace b (Step.send p q e h) (n, d) = elim (submit-cases e p q h) [
    | inl (free, shown, next) ↦
        rw shown (subst (IsDelivered stores k (Event.accepted e ∷ trace)) next (n, d))
    | inr (shown, next) ↦
        rw shown (subst (IsDelivered stores k (Event.refused e ∷ trace)) next (n, d))
  ]
  Step-IsDelivered stores k trace b (Step.read_dropped p hs gs _) h = h
  Step-IsDelivered stores k trace b (Step.write_dropped p n hs gs _) h = h
  Step-IsDelivered stores k trace b (Step.receive p e rest ws vs front place) (n, d) = (
    n,
    omega (
      arith,
      pending-receive k p.workers ws vs e place,
      passing-append (taken_in trace) (e ∷ []),
    ),
  )
  Step-IsDelivered stores k trace b (Step.log p e j ws vs place more) (n, d) = (
    n,
    omega (arith, pending-log k j p.workers ws vs e place, logged-append k p.calls ((j, e) ∷ [])),
  )
  Step-IsDelivered stores k trace b (Step.loop p e j ws vs place all) (n, d) =
      (n, omega (arith, pending-loop k j p.workers ws vs e (omega arith) place))
  Step-IsDelivered stores k trace b (Step.stop_canceled p ws vs place _) (n, d) =
      (n, omega (arith, pending-stop k p.workers ws vs place))
  Step-IsDelivered stores k trace b (Step.stop_closed p ws vs place _ _) (n, d) =
      (n, omega (arith, pending-stop k p.workers ws vs place))
  Step-IsDelivered stores k trace b (Step.close_channel p _) h = h
  Step-IsDelivered stores k trace b (Step.cancel p _) h = h

  Run-IsDelivered :
      {s q : Pool E} {trace : List (Event E)} (stores k : ℕ)
      → k < stores
      → IsDelivered stores k [] s
      → Run s trace q
      → IsDelivered stores k trace q
  Run-IsDelivered stores k b h Run.start = h
  Run-IsDelivered stores k b h (Run.then_step {trace = trace} r st) =
      Step-IsDelivered stores k trace b st (Run-IsDelivered stores k b h r)

  pending-replicate : (k n : ℕ) → pending k (replicate n Worker.waiting) ≡ 0
  unfolding pending pending_of
  pending-replicate k zero = refl
  pending-replicate k (suc n) = omega (arith, pending-replicate k n)

  pending_stopped :
      (k : ℕ) (ws : List (Worker E))
      → All (λ (w : Worker E). w ≡ Worker.stopped) ws
      → pending k ws ≡ 0
  unfolding pending
  pending_stopped k [] h = refl
  pending_stopped k (w ∷ ws) h =
      rw h.0 (unfold pending_of in omega (arith, pending_stopped k ws h.1))

  new-IsDelivered :
      (stores workers bound k : ℕ) → IsDelivered stores k [] (new_logger_pool stores workers bound)
  unfolding new_logger_pool logged taken_in passing
  new-IsDelivered stores workers bound k =
      (refl, omega (arith, pending-replicate k (default_to workers 4)))

  -- When all workers of a pool have returned, each store was given each entry that the pool accepted once, but
  -- for the entries that are left in the queue: for every test of entries, as many calls of the store as
  -- accepted entries pass it, less those in the queue. The pool may have gone any way there.
  pub all_stopped_lem :
      (stores workers bound k : ℕ) (trace : List (Event E)) (q : Pool E)
      → Run (new_logger_pool stores workers bound) trace q
      → k < stores
      → All (λ (w : Worker E). w ≡ Worker.stopped) q.workers
      → logged k q.calls + passing q.queue ≡ passing (accepted_in trace)
  all_stopped_lem stores workers bound k trace q r b done =
      let (order, room, refused) = pool_lem stores workers bound trace q r in
      let (n, d) = Run-IsDelivered stores k b (new-IsDelivered stores workers bound k) r in
      omega (
        arith,
        ap passing order,
        passing-append (taken_in trace) q.queue,
        pending_stopped k q.workers done,
      )
