-- ===== src/RateLimit/Model.antt =====
-- ratelimit/model.go: a cooldown for each upstream model. Instants and durations are numbers of
-- nanoseconds; a duration that is not positive is 0.
use nadir.Prelude.{
  ℕ, ◌+◌, ◌-◌, ◌*◌, ◌^◌, ◌<◌, ◌≡◌, Bool, true, false, none, some, arith, ltb, ◌==◌, if◌then◌else◌,
}
use nadir.Prelude.Dict
use nadir.Prelude.Dict.{Dict, get-put, get-delete}
use nadir.Prelude.Text.{Text, text_eq, text_eq_self}

pub record Model : Type 0 where
  pub cooldowns : Dict ℕ

-- NewModel
abbrev pub new_model : Model
new_model = record { cooldowns = Dict.empty }

-- The retry hint and whether the call may pass.
pub record Answer : Type 0 where
  pub retry : ℕ
  pub ok : Bool

unfoldable pub check : Model → Text → ℕ → Model × Answer
check m model now = elim (Dict.get m.cooldowns model) [
  | none ↦ (m, record { retry = 0; ok = true })
  | some until ↦
      if ltb now until
      then (m, record { retry = until - now; ok = false })
      else (record { cooldowns = Dict.delete m.cooldowns model }, record { retry = 0; ok = true })
]

-- The duration that Record sets: 30 s where the hint is not positive.
unfoldable pub hint : ℕ → ℕ
hint retry_after = if retry_after == 0 then 30 * 10 ^ 9 else retry_after

unfoldable pub record_limit : Model → Text → ℕ → ℕ → Model
unfolding hint
record_limit m model retry_after now = record {
  cooldowns = Dict.put m.cooldowns model (now + hint retry_after);
}

-- After Record a model is refused exactly until its cooldown ends, with a hint that reaches to
-- that end.
pub check-record_limit :
    (m : Model) (model : Text) (retry_after now later : ℕ)
    → ((check (record_limit m model retry_after now) model later).1 ≡ (
        if ltb later (now + hint retry_after)
        then record { retry = now + hint retry_after - later; ok = false }
        else record { retry = 0; ok = true }))
unfolding check record_limit
check-record_limit m model retry_after now later =
    ground (arith, get-put m.cooldowns model model (now + hint retry_after), text_eq_self model)

-- Check and Record of one model change no answer about another.
pub check_ne :
    (m : Model) (a b : Text) (retry_after now later : ℕ)
    → text_eq a b ≡ false
    → ((check (check m a now).0 b later).1 ≡ (check m b later).1)
      × ((check (record_limit m a retry_after now) b later).1 ≡ (check m b later).1)
unfolding check record_limit
check_ne m a b retry_after now later h = (
  ground (arith, get-delete m.cooldowns a b),
  ground (arith, get-put m.cooldowns a b (now + hint retry_after)),
)

-- A refused call that waits for its hint passes; the call itself changes nothing.
pub check_after_hint :
    (m : Model) (model : Text) (now : ℕ)
    → (check m model now).1.ok ≡ false
    → (0 < (check m model now).1.retry)
      × ((check m model now).0 ≡ m)
      × ((check m model (now + (check m model now).1.retry)).1.ok ≡ true)
unfolding check
check_after_hint m model now h = ground arith
