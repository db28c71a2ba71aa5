-- ===== src/Tests/Pools.antt =====
-- Runs of the logger pool.
use nadir.Prelude.{ℕ, ◌+◌, ◌≡◌, refl, arith, Bool, true, false, List, [], ◌∷◌, ◌==◌}
use nadir.Proxy.Worker.{Dropping, Worker, Pool, new_logger_pool, submit, outcome, Event, Step, Run}
use nadir.Proxy.Worker.Delivery.{IsKept, accepted_in, pool_lem}
use nadir.Proxy.Worker.Calls.{passing, logged, all_stopped_lem}

-- A pool of one store, one worker and room for four entries, with the queue, the worker and the calls given.
abbrev pool : List ℕ → Worker ℕ → List (ℕ × ℕ) → Bool → Pool ℕ
pool queue worker calls closed = record {
  stores = 1;
  cap = 4;
  queue = queue;
  closed = closed;
  canceled = closed;
  dropped = 0;
  dropping = [];
  workers = worker ∷ [];
  calls = calls;
}

abbrev events : List (Event ℕ)
events = Event.silent ∷ Event.silent ∷ Event.taken 7 ∷ Event.accepted 8 ∷ Event.accepted 7 ∷ []

abbrev left : Pool ℕ
left = pool (8 ∷ []) Worker.waiting ((0, 7) ∷ []) false

run : Run (new_logger_pool 1 1 4) events left
unfolding new_logger_pool submit outcome
run =
    let q0 = pool [] Worker.waiting [] false in
    let q1 = pool (7 ∷ []) Worker.waiting [] false in
    let q2 = pool (7 ∷ 8 ∷ []) Worker.waiting [] false in
    let q3 = pool (8 ∷ []) (Worker.logging 7 0) [] false in
    let q4 = pool (8 ∷ []) (Worker.logging 7 1) ((0, 7) ∷ []) false in
    let r1 : Run q0 (Event.accepted 7 ∷ []) q1 = Run.then_step Run.start (Step.send q0 q1 7 refl) in
    let r2 : Run q0 (Event.accepted 8 ∷ Event.accepted 7 ∷ []) q2 =
      Run.then_step r1 (Step.send q1 q2 8 refl) in
    let r3 : Run q0 (Event.taken 7 ∷ Event.accepted 8 ∷ Event.accepted 7 ∷ []) q3 =
      Run.then_step r2 (Step.receive q2 7 (8 ∷ []) [] [] refl refl) in
    let r4 : Run q0 (Event.silent ∷ Event.taken 7 ∷ Event.accepted 8 ∷ Event.accepted 7 ∷ []) q4 =
      Run.then_step r3 (Step.log q3 7 0 [] [] refl (omega arith)) in
    Run.then_step r4 (Step.loop q4 7 1 [] [] refl (omega arith))

abbrev all_events : List (Event ℕ)
all_events = Event.silent ∷ Event.silent ∷ Event.silent ∷ events

abbrev last : Pool ℕ
last = pool (8 ∷ []) Worker.stopped ((0, 7) ∷ []) true

-- Close, with an entry in the queue.
closing : Run (new_logger_pool 1 1 4) all_events last
closing =
    let shut = record left { closed = true } in
    let q = record shut { canceled = true } in
    let r1 : Run (new_logger_pool 1 1 4) (Event.silent ∷ events) shut =
      Run.then_step run (Step.close_channel left refl) in
    let r2 : Run (new_logger_pool 1 1 4) (Event.silent ∷ Event.silent ∷ events) q =
      Run.then_step r1 (Step.cancel shut refl) in
    Run.then_step r2 (Step.stop_canceled q [] [] refl refl)

pool_lem_example : IsKept events left
pool_lem_example = pool_lem 1 1 4 events left run

all_stopped_lem_example :
    logged (λ e. e == 8) 0 last.calls + passing (λ e. e == 8) last.queue
    ≡ passing (λ e. e == 8) (accepted_in all_events)
all_stopped_lem_example =
    all_stopped_lem (λ e. e == 8) 1 1 4 0 all_events last closing (omega arith) (refl, tt)

-- The entry in the queue reached no store.
lost : logged (λ e. e == 8) 0 last.calls ≡ 0
unfolding logged
lost = refl

-- A pool of one store and one worker whose queue is full, with the counter and the calls that increment it.
abbrev full : ℕ → List Dropping → Pool ℕ
full dropped dropping = record {
  stores = 1;
  cap = 1;
  queue = 7 ∷ [];
  closed = false;
  canceled = false;
  dropped = dropped;
  dropping = dropping;
  workers = Worker.waiting ∷ [];
  calls = [];
}

abbrev two_drops : List (Event ℕ)
two_drops =
    Event.silent
    ∷ Event.silent
    ∷ Event.silent
    ∷ Event.silent
    ∷ Event.refused 9
    ∷ Event.refused 8
    ∷ []

-- Two entries are refused, and the counter is 1: both calls read it ahead of the other's write.
lost_increment : Run (full 0 []) two_drops (full 1 [])
unfolding submit outcome
lost_increment =
    let waiting = Dropping.refused in
    let read = Dropping.counted 0 in
    let q1 = full 0 (waiting ∷ []) in
    let q2 = full 0 (waiting ∷ waiting ∷ []) in
    let q3 = full 0 (read ∷ waiting ∷ []) in
    let q4 = full 0 (read ∷ read ∷ []) in
    let q5 = full 1 (read ∷ []) in
    let r1 : Run (full 0 []) (Event.refused 8 ∷ []) q1 =
      Run.then_step Run.start (Step.send (full 0 []) q1 8 refl) in
    let r2 : Run (full 0 []) (Event.refused 9 ∷ Event.refused 8 ∷ []) q2 =
      Run.then_step r1 (Step.send q1 q2 9 refl) in
    let r3 : Run (full 0 []) (Event.silent ∷ Event.refused 9 ∷ Event.refused 8 ∷ []) q3 =
      Run.then_step r2 (Step.read_dropped q2 [] (waiting ∷ []) refl) in
    let r4 : Run (full 0 []) (Event.silent ∷ Event.silent ∷ Event.refused 9 ∷ Event.refused 8 ∷ [])
        q4 =
      Run.then_step r3 (Step.read_dropped q3 (read ∷ []) [] refl) in
    let r5 : Run (full 0 [])
        (Event.silent ∷ Event.silent ∷ Event.silent ∷ Event.refused 9 ∷ Event.refused 8 ∷ []) q5 =
      Run.then_step r4 (Step.write_dropped q4 0 [] (read ∷ []) refl) in
    Run.then_step r5 (Step.write_dropped q5 0 [] [] refl)
