-- ===== src/Health/Effects.antt =====
-- What recording a success or a failure changes.
use nadir.Prelude.{ℕ, ◌+◌, ◌≡◌, false, arith}
use nadir.Prelude.Dict.{get-put}
use nadir.Prelude.Text.{Text, text_eq, text_eq_self}
use nadir.Types.Errors.{ErrorKind}
use nadir.Health.{Tracker, get_record, record_success, record_failure, available, score}

-- After a success the model's score is zero.
pub score-record_success :
    (t : Tracker) (m : Text) (now later : ℕ) → score (record_success t m now) m later ≡ 0
unfolding score record_success
score-record_success t m now later = ground (
  arith,
  text_eq_self m,
  get-put t.records m m (record (get_record t m) { failures = 0; last_success_at = now }),
)

module _ (t : Tracker) (m n : Text) (now later : ℕ) (other : text_eq m n ≡ false) where
  -- A success of one model changes nothing for another.
  pub available-record_success_ne : available (record_success t m now) n later ≡ available t n later
  unfolding available record_success
  available-record_success_ne = ground (
    arith,
    get-put t.records m n (record (get_record t m) { failures = 0; last_success_at = now }),
  )

  -- Nor does a failure.
  pub available-record_failure_ne :
      (kind : ErrorKind) → available (record_failure t m kind now) n later ≡ available t n later
  unfolding available record_failure
  available-record_failure_ne kind = ground (
    arith,
    get-put t.records m n (record (get_record t m) {
      failures = (get_record t m).failures + 1;
      last_failure_kind = kind;
      last_failure_at = now;
    }),
  )
