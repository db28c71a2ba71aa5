-- ===== src/Health/Log.antt =====
-- The tracker against the history of calls: the failures of a model since its last success, and the
-- instant of its last failure. A history is a list of events with the newest first.
use nadir.Prelude.{ℕ, ◌+◌, ◌-◌, ◌<◌, ◌≡◌, refl, true, List, [], ◌∷◌, arith, ltb, if◌then◌else◌}
use nadir.Prelude.Dict
use nadir.Prelude.Dict.{get-put}
use nadir.Prelude.Text.{Text, text_eq, text_eq_iff}
use nadir.Types.Errors.{ErrorKind}
use nadir.Health.{Tracker, fresh, get_record, record_success, record_failure, available, score}

pub data Event : Type 0 where
  success : Text → ℕ → Event
  failure : Text → ErrorKind → ℕ → Event

unfoldable pub step : Tracker → Event → Tracker
step t (success m now) = record_success t m now
step t (failure m kind now) = record_failure t m kind now

unfoldable pub run : Tracker → List Event → Tracker
unfolding step
run t [] = t
run t (e ∷ es) = step (run t es) e

-- The failures of the model since its last success.
unfoldable pub streak : Text → List Event → ℕ
streak m [] = 0
streak m (success n now ∷ es) = if text_eq n m then 0 else streak m es
streak m (failure n kind now ∷ es) = let k = streak m es in if text_eq n m then k + 1 else k

-- The instant of the model's last failure, the zero time if it has none.
unfoldable pub last_failure : Text → List Event → ℕ
last_failure m [] = 0
last_failure m (success n now ∷ es) = last_failure m es
last_failure m (failure n kind now ∷ es) = if text_eq n m then now else last_failure m es

-- A tracker with no record yet, whose limit is at least one failure.
pub record IsNew (t : Tracker) : Type 0 where
  pub no_records : t.records ≡ Dict.empty
  pub positive : 0 < t.max_failures

get_record-new : (t : Tracker) (m : Text) → t.records ≡ Dict.empty → get_record t m ≡ fresh
unfolding get_record Dict.get
get_record-new t m h = rw h

get_record-success :
    (t : Tracker) (n m : Text) (now : ℕ)
    → get_record (record_success t n now) m ≡ (
        if text_eq n m
        then record (get_record t n) { failures = 0; last_success_at = now }
        else get_record t m)
unfolding record_success
get_record-success t n m now =
    ground (
      arith,
      get-put t.records n m (record (get_record t n) { failures = 0; last_success_at = now }),
    )

get_record-failure :
    (t : Tracker) (n m : Text) (kind : ErrorKind) (now : ℕ)
    → get_record (record_failure t n kind now) m ≡ (
        if text_eq n m
        then record (get_record t n) {
          failures = (get_record t n).failures + 1;
          last_failure_kind = kind;
          last_failure_at = now;
        }
        else get_record t m)
unfolding record_failure
get_record-failure t n m kind now = ground (
  arith,
  get-put t.records n m (record (get_record t n) {
    failures = (get_record t n).failures + 1;
    last_failure_kind = kind;
    last_failure_at = now;
  }),
)

available_by_record :
    (t : Tracker) (m : Text) (now : ℕ)
    → 0 < t.max_failures
    → available t m now ≡ (
        if ltb (get_record t m).failures t.max_failures
        then true
        else ltb t.cooldown (now - (get_record t m).last_failure_at))
unfolding available get_record
available_by_record t m now h = ground arith

score_by_record :
    (t : Tracker) (m : Text) (now : ℕ)
    → score t m now ≡ (
        if ltb t.cooldown (now - (get_record t m).last_failure_at)
        then 0
        else (get_record t m).failures)
unfolding score get_record
score_by_record t m now = ground arith

module _ (t : Tracker) (new : IsNew t) (m : Text) where
  run-max_failures : (es : List Event) → (run t es).max_failures ≡ t.max_failures
  unfolding run record_success record_failure
  run-max_failures [] = refl
  run-max_failures (success n now ∷ es) = run-max_failures es
  run-max_failures (failure n kind now ∷ es) = run-max_failures es

  run-cooldown : (es : List Event) → (run t es).cooldown ≡ t.cooldown
  unfolding run record_success record_failure
  run-cooldown [] = refl
  run-cooldown (success n now ∷ es) = run-cooldown es
  run-cooldown (failure n kind now ∷ es) = run-cooldown es

  run-streak : (es : List Event) → (get_record (run t es) m).failures ≡ streak m es
  unfolding run streak
  run-streak [] = ground (arith, get_record-new t m new.no_records)
  run-streak (success n now ∷ es) =
      ground (arith, run-streak es, get_record-success (run t es) n m now, text_eq_iff n m)
  run-streak (failure n kind now ∷ es) =
      ground (arith, run-streak es, get_record-failure (run t es) n m kind now, text_eq_iff n m)

  run-last_failure :
      (es : List Event) → (get_record (run t es) m).last_failure_at ≡ last_failure m es
  unfolding run last_failure
  run-last_failure [] = ground (arith, get_record-new t m new.no_records)
  run-last_failure (success n now ∷ es) =
      ground (arith, run-last_failure es, get_record-success (run t es) n m now, text_eq_iff n m)
  run-last_failure (failure n kind now ∷ es) =
      ground (arith, run-last_failure es, get_record-failure (run t es) n m kind now)

  -- From a tracker without records whose limit is positive, after any history, a model is
  -- available exactly when its failures since its last success are below the limit, or the
  -- cooldown has passed since its last failure.
  pub available-run :
      (es : List Event) (now : ℕ)
      → available (run t es) m now ≡ (
          if ltb (streak m es) t.max_failures
          then true
          else ltb t.cooldown (now - last_failure m es))
  available-run es now = ground (
    arith,
    available_by_record (run t es) m now,
    run-streak es,
    run-last_failure es,
    run-max_failures es,
    run-cooldown es,
    new.positive,
  )

  -- From a tracker without records whose limit is positive, after any history, a model's
  -- score is the number of its failures since its last success, and zero once the cooldown
  -- has passed since its last failure.
  pub score-run :
      (es : List Event) (now : ℕ)
      → score (run t es) m now
        ≡ (if ltb t.cooldown (now - last_failure m es) then 0 else streak m es)
  score-run es now =
      ground (
        arith,
        score_by_record (run t es) m now,
        run-streak es,
        run-last_failure es,
        run-cooldown es,
      )
