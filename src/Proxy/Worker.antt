-- ===== src/Proxy/Worker.antt =====
-- internal/proxy/worker.go: the pool that logs requests. The channel is a bounded queue, each goroutine is in
-- one of three places, and a step is one goroutine's: a select of several ready cases, and the scheduler,
-- are the choice of the step. A store's error is only reported, so a call of Log is its effect.
pub mod Counter
pub mod Delivery
pub mod Calls
use nadir.Prelude.{
  ℕ, suc, ◌+◌, ◌%◌, ◌^◌, ◌≤◌, ◌<◌, ◌≡◌, Bool, true, false, Option, none, some, List, [], ◌∷◌, ◌++◌,
  ltb, ◌==◌, if◌then◌else◌, length, replicate,
}

-- Where a worker is: in its select, ahead of the call of the store of that index, or returned.
pub data Worker (E : Type 0) : Type 0 where
  waiting : Worker E
  logging : E → ℕ → Worker E
  stopped : Worker E

-- Where a Submit is whose entry had no room: ahead of reading the counter of dropped entries, or ahead of
-- writing the number that it read and one more. The increment has no lock.
pub data Dropping : Type 0 where
  refused : Dropping
  counted : ℕ → Dropping

pub record Pool (E : Type 0) : Type 0 where
  pub stores : ℕ
  pub cap : ℕ
  pub queue : List E
  pub closed : Bool
  pub canceled : Bool
  pub dropped : ℕ
  pub dropping : List Dropping
  pub workers : List (Worker E)
  -- The calls of Log, with the store of each.
  pub calls : List (ℕ × E)

-- What a step shows.
pub data Event (E : Type 0) : Type 0 where
  accepted refused taken : E → Event E
  silent : Event E

unfoldable pub default_to : ℕ → ℕ → ℕ
default_to n default = if n == 0 then default else n

module _ {E : Type 0} where
  -- newLoggerPool
  unfoldable pub new_logger_pool : ℕ → ℕ → ℕ → Pool E
  unfolding default_to
  new_logger_pool stores workers cap = record {
    stores = stores;
    cap = default_to cap 1024;
    queue = [];
    closed = false;
    canceled = false;
    dropped = 0;
    dropping = [];
    workers = replicate (default_to workers 4) Worker.waiting;
    calls = [];
  }

  -- The select of Submit: none is the panic of a send on a closed channel.
  unfoldable pub submit : E → Pool E → Option (Pool E)
  submit e p =
      if p.closed
      then none
      else (if ltb (length p.queue) p.cap
          then some (record p { queue = p.queue ++ e ∷ [] })
          else some (record p { dropping = p.dropping ++ Dropping.refused ∷ [] }))

  -- Submit, with no other goroutine between its steps.
  unfoldable pub submit_alone : E → Pool E → Option (Pool E)
  submit_alone e p =
      if p.closed
      then none
      else (if ltb (length p.queue) p.cap
          then some (record p { queue = p.queue ++ e ∷ [] })
          else some (record p { dropped = (p.dropped + 1) % 2 ^ 64 }))

  -- What becomes of the entry of a Submit.
  unfoldable pub outcome : E → Pool E → Event E
  outcome e p = if ltb (length p.queue) p.cap then Event.accepted e else Event.refused e

  pub data Step : Pool E → Event E → Pool E → Type 0 where
    send : (p q : Pool E) (e : E) → submit e p ≡ some q → Step p (outcome e p) q
    read_dropped :
        (p : Pool E) (hs gs : List Dropping)
        → p.dropping ≡ hs ++ Dropping.refused ∷ gs
        → Step p Event.silent (record p { dropping = hs ++ Dropping.counted p.dropped ∷ gs })
    write_dropped :
        (p : Pool E) (n : ℕ) (hs gs : List Dropping)
        → p.dropping ≡ hs ++ Dropping.counted n ∷ gs
        → Step p Event.silent (record p { dropped = (n + 1) % 2 ^ 64; dropping = hs ++ gs })
    receive :
        (p : Pool E) (e : E) (rest : List E) (ws vs : List (Worker E))
        → p.queue ≡ e ∷ rest
        → p.workers ≡ ws ++ Worker.waiting ∷ vs
        → Step p
            (Event.taken e)
            (record p { queue = rest; workers = ws ++ Worker.logging e 0 ∷ vs })
    log :
        (p : Pool E) (e : E) (k : ℕ) (ws vs : List (Worker E))
        → p.workers ≡ ws ++ Worker.logging e k ∷ vs
        → k < p.stores
        → Step p Event.silent (record p {
          workers = ws ++ Worker.logging e (suc k) ∷ vs;
          calls = p.calls ++ (k, e) ∷ [];
        })
    loop :
        (p : Pool E) (e : E) (k : ℕ) (ws vs : List (Worker E))
        → p.workers ≡ ws ++ Worker.logging e k ∷ vs
        → p.stores ≤ k
        → Step p Event.silent (record p { workers = ws ++ Worker.waiting ∷ vs })
    stop_canceled :
        (p : Pool E) (ws vs : List (Worker E))
        → p.workers ≡ ws ++ Worker.waiting ∷ vs
        → p.canceled ≡ true
        → Step p Event.silent (record p { workers = ws ++ Worker.stopped ∷ vs })
    stop_closed :
        (p : Pool E) (ws vs : List (Worker E))
        → p.workers ≡ ws ++ Worker.waiting ∷ vs
        → p.closed ≡ true
        → p.queue ≡ []
        → Step p Event.silent (record p { workers = ws ++ Worker.stopped ∷ vs })
    close_channel :
        (p : Pool E) → p.closed ≡ false → Step p Event.silent (record p { closed = true })
    cancel : (p : Pool E) → p.closed ≡ true → Step p Event.silent (record p { canceled = true })

  -- A run and its events, the newest first.
  pub data Run (s : Pool E) : List (Event E) → Pool E → Type 0 where
    start : Run s [] s
    then_step :
        {p q : Pool E} {trace : List (Event E)} {ev : Event E}
        → Run s trace p
        → Step p ev q
        → Run s (ev ∷ trace) q
