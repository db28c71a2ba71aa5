-- ===== src/Tests/Limits.antt =====
-- The rate limiters and the health tracker at concrete inputs.
use mathlib.Core.List.{Perm}
use nadir.Prelude.{
  ℕ, ◌≡◌, ◌≤◌, refl, arith, true, false, List, [], ◌∷◌, ◌+◌, ◌-◌, ltb, ◌==◌, if◌then◌else◌, length,
}
use nadir.Prelude.Text.{Text, codes, text_eq}
use nadir.Prelude.Dict
use nadir.Types.Errors.{ErrorKind}
use nadir.Health.{available, score, order, record_success, record_failure}
use nadir.Health.Log
use nadir.Health.Log.{IsNew, success, failure, available-run, score-run}
use nadir.Health.Ordering.{penalty, order_lem}
use nadir.Health.Sort.{keep, sort_by, IsSortedBy}
use nadir.RateLimit.User
use nadir.RateLimit.User.{User}
use nadir.RateLimit.User.Window
use nadir.RateLimit.User.Window.{IsWithin, accepted, check-run, accepted-IsWithin}
use nadir.RateLimit.User.Retry.{check_after_retry}
use nadir.RateLimit.Model
use nadir.RateLimit.Model.{check_after_hint, check-record_limit, record_limit}
use nadir.Tests.Fixtures.{tracker}

abbrev limiter : User
limiter = record { limit = 2; window = 10; buckets = Dict.empty }

abbrev calls : List (Text × ℕ)
calls = (codes "a", 4) ∷ (codes "b", 3) ∷ (codes "a", 1) ∷ []

calls-IsClocked : Window.IsClocked ((codes "a", 5) ∷ calls)
calls-IsClocked = (
  (omega arith, (omega arith, (omega arith, tt))),
  ((omega arith, (omega arith, tt)), ((omega arith, tt), (tt, tt))),
)

check-run_example :
    (User.check (Window.run limiter calls) (codes "a") 5).1.ok
    ≡ ltb (Window.recent 10 5 (accepted limiter (codes "a") calls)) 2
check-run_example = check-run limiter refl (codes "a") calls 5 calls-IsClocked

-- Two calls of a user fill the limit of two, and another user's call does not.
third_refused : (User.check (Window.run limiter calls) (codes "a") 5).1.ok ≡ false
unfolding User.check Window.run Dict.get Dict.put text_eq
third_refused = refl

accepted-IsWithin_example : IsWithin limiter (accepted limiter (codes "a") ((codes "a", 5) ∷ calls))
accepted-IsWithin_example =
    accepted-IsWithin limiter refl (codes "a") ((codes "a", 5) ∷ calls) calls-IsClocked

abbrev full : User
full = record { limit = 1; window = 10; buckets = Dict.put Dict.empty (codes "a") (4 ∷ []) }

full-bucket : User.bucket full (codes "a") ≡ 4 ∷ []
unfolding User.bucket Dict.get Dict.put text_eq
full-bucket = refl

full_refused : (User.check full (codes "a") 5).1.ok ≡ false
unfolding User.check Dict.get Dict.put text_eq
full_refused = refl

full_fits : length (User.bucket full (codes "a")) ≤ 1
full_fits = rw full-bucket (omega arith)

check_after_retry_example :
    ((User.check full (codes "a") 5).0 ≡ full)
    × ((User.check full (codes "a") (5 + (User.check full (codes "a") 5).1.retry)).1
        ≡ record { retry = 0; ok = false })
    × ((User.check full (codes "a") (5 + (User.check full (codes "a") 5).1.retry + 1)).1.ok ≡ true)
check_after_retry_example =
    check_after_retry full (codes "a") 5 (omega arith) full_fits full_refused

abbrev limited : Model.Model
limited = record_limit Model.new_model (codes "m") 7 100

limited_refused : (Model.check limited (codes "m") 103).1.ok ≡ false
unfolding Model.check record_limit Model.hint Dict.get Dict.put text_eq
limited_refused = refl

abbrev events : List Log.Event
events =
    failure (codes "m") ErrorKind.timeout 9
    ∷ failure (codes "m") ErrorKind.server_error 8
    ∷ success (codes "n") 7
    ∷ []

tracker-IsNew : IsNew tracker
tracker-IsNew = record { no_records = refl; positive = omega arith }

available-run_example : available (Log.run tracker events) (codes "m") 12 ≡ (
    if ltb (Log.streak (codes "m") events) 2
    then true
    else ltb 30 (12 - Log.last_failure (codes "m") events))
available-run_example = available-run tracker tracker-IsNew (codes "m") events 12

-- The model with two failures goes behind the other.
ordered :
    order (Log.run tracker events) (codes "m" ∷ codes "n" ∷ []) 12 ≡ codes "n" ∷ codes "m" ∷ []
unfolding order sort_by score record_failure record_success Log.run Dict.get Dict.put text_eq
ordered = refl

order_lem_example :
    let out = order (Log.run tracker events) (codes "m" ∷ codes "n" ∷ []) 12 in
    Perm out (codes "m" ∷ codes "n" ∷ [])
    × IsSortedBy (penalty tracker events 12) out
    × ((n : ℕ)
        → keep (λ m. penalty tracker events 12 m == n) out
          ≡ keep (λ m. penalty tracker events 12 m == n) (codes "m" ∷ codes "n" ∷ []))
order_lem_example = order_lem tracker events (codes "m" ∷ codes "n" ∷ []) 12 tracker-IsNew
