-- ===== src/Health.antt =====
-- health/health.go: the failure history of each model. An instant is a number of nanoseconds, and
-- each operation takes the one that it reads from the clock; the zero time is 0. Order reads the
-- clock once here, and once for each comparison in the program.
pub mod Sort
pub mod Log
pub mod Ordering
pub mod Effects
use nadir.Prelude.{ℕ, ◌+◌, ◌-◌, ◌*◌, ◌^◌, Bool, true, Option, none, some, List, ltb, if◌then◌else◌}
use nadir.Prelude.Dict
use nadir.Prelude.Dict.{Dict}
use nadir.Prelude.Text.{Text}
use nadir.Types.Errors.{ErrorKind}
use nadir.Health.Sort.{sort_by}

pub record Record : Type 0 where
  pub failures : ℕ
  pub last_failure_kind : ErrorKind
  pub last_failure_at : ℕ
  pub last_success_at : ℕ

pub record Tracker : Type 0 where
  pub cooldown : ℕ
  pub max_failures : ℕ
  pub records : Dict Record

-- New, with the constants defaultCooldown (30 s) and defaultMaxFailures
abbrev pub new : Tracker
new = record { cooldown = 30 * 10 ^ 9; max_failures = 5; records = Dict.empty }

abbrev pub fresh : Record
fresh = record {
  failures = 0;
  last_failure_kind = ErrorKind.unknown;
  last_failure_at = 0;
  last_success_at = 0;
}

-- get: the record of the model, a fresh one where it has none
unfoldable pub get_record : Tracker → Text → Record
get_record t model = elim (Dict.get t.records model) [ none ↦ fresh | some r ↦ r ]

unfoldable pub record_success : Tracker → Text → ℕ → Tracker
unfolding get_record
record_success t model now =
    let r = get_record t model in
    record t {
      records = Dict.put t.records model (record r { failures = 0; last_success_at = now });
    }

unfoldable pub record_failure : Tracker → Text → ErrorKind → ℕ → Tracker
unfolding get_record
record_failure t model kind now =
    let r = get_record t model in
    record t {
      records =
          Dict.put t.records model (record r {
            failures = r.failures + 1;
            last_failure_kind = kind;
            last_failure_at = now;
          });
    }

unfoldable pub available : Tracker → Text → ℕ → Bool
available t model now = elim (Dict.get t.records model) [
  | none ↦ true
  | some r ↦
      if ltb r.failures t.max_failures then true else ltb t.cooldown (now - r.last_failure_at)
]

unfoldable pub score : Tracker → Text → ℕ → ℕ
score t model now = elim (Dict.get t.records model) [
  | none ↦ 0
  | some r ↦ if ltb t.cooldown (now - r.last_failure_at) then 0 else r.failures
]

unfoldable pub order : Tracker → List Text → ℕ → List Text
order t candidates now = sort_by (λ m. score t m now) candidates
