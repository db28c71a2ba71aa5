-- ===== src/Budget.antt =====
-- internal/budget/budget.go: the spending of the day, of the month and in total, the gate on the
-- limits, and the alerts. Amounts are floats of the interface Float; the calendar (time.Format) and
-- the printing of a float (strconv.FormatFloat) are arguments. The hooks are called with the events
-- that an operation returns. The state file is in Persist.
pub mod Rollover
pub mod Alerts
pub mod Persist
pub mod Totals
use nadir.Prelude.{
  ℕ, Bool, true, false, not, ◌&&◌, Option, none, some, List, [], ◌∷◌, ◌++◌, if◌then◌else◌,
}
use nadir.Prelude.Dict
use nadir.Prelude.Dict.{Dict}
use nadir.Prelude.Float.{Float}
use nadir.Prelude.Text.{Text, codes, text_eq, has_prefix}

pub record Config (F : Type 0) : Type 0 where
  pub daily_limit_usd : F
  pub monthly_limit_usd : F
  pub alert_thresholds : List F

pub record State (F : Type 0) : Type 0 where
  pub day : Text
  pub month : Text
  pub daily_usd : F
  pub monthly_usd : F
  pub total_usd : F

pub record Tracker (F : Type 0) : Type 0 where
  pub cfg : Config F
  pub state : State F
  pub fired : Dict Bool

pub data Period : Type 0 where
  daily monthly : Period

pub record AlertEvent (F : Type 0) : Type 0 where
  pub period : Period
  pub threshold : F
  pub limit : F
  pub spent : F

-- now.Format("2006-01-02"), now.Format("2006-01") and strconv.FormatFloat(f, 'f', -1, 64)
pub record Format (F : Type 0) : Type 0 where
  pub day_of : ℕ → Text
  pub month_of : ℕ → Text
  pub format_float : F → Text

module _ {F : Type 0} ⦃f : Float F⦄ where
  abbrev pub zero_usd : F
  zero_usd = f.decimal 0 0

  -- a > 0
  abbrev pub positive : F → Bool
  positive a = f.lt_float zero_usd a

  -- New
  unfoldable pub new_tracker : Config F → Tracker F
  new_tracker cfg = record {
    cfg = record cfg {
      alert_thresholds = elim cfg.alert_thresholds [
        | [] ↦ f.decimal 5 1 ∷ f.decimal 8 1 ∷ f.decimal 1 0 ∷ []
        | t ∷ ts ↦ t ∷ ts
      ];
    };
    state = record {
      day = [];
      month = [];
      daily_usd = zero_usd;
      monthly_usd = zero_usd;
      total_usd = zero_usd;
    };
    fired = Dict.empty;
  }

  module _ (format : Format F) where
    unfoldable pub roll_day : Tracker F → Text → Tracker F
    roll_day t day = if text_eq t.state.day day then t else record t {
      state = record (t.state) { daily_usd = zero_usd; day = day };
      fired = Dict.keep_keys (λ k. not (has_prefix k (codes "daily-"))) t.fired;
    }

    unfoldable pub roll_month : Tracker F → Text → Tracker F
    roll_month t month = if text_eq t.state.month month then t else record t {
      state = record (t.state) { monthly_usd = zero_usd; month = month };
      fired = Dict.keep_keys (λ k. not (has_prefix k (codes "monthly-"))) t.fired;
    }

    unfoldable pub roll_if_stale : Tracker F → ℕ → Tracker F
    roll_if_stale t now = roll_month (roll_day t (format.day_of now)) (format.month_of now)

    -- The reason is empty where the request is allowed.
    unfoldable pub allowed : Tracker F → ℕ → Tracker F × Bool × Text
    allowed t now =
        let t' = roll_if_stale t now in
        if positive t'.cfg.daily_limit_usd && f.le_float t'.cfg.daily_limit_usd t'.state.daily_usd
        then (t', false, codes "daily budget exceeded")
        else if positive t'.cfg.monthly_limit_usd
            && f.le_float t'.cfg.monthly_limit_usd t'.state.monthly_usd
        then (t', false, codes "monthly budget exceeded")
        else (t', true, [])

    unfoldable pub period_text : Period → Text
    period_text Period.daily = codes "daily-"
    period_text Period.monthly = codes "monthly-"

    -- The key of an alert: the period and formatPercent of the threshold
    unfoldable pub alert_key : Period → F → Text
    unfolding period_text
    alert_key period thr = period_text period ++ format.format_float (f.mul thr (f.decimal 100 0))

    unfoldable pub is_fired : Tracker F → Text → Bool
    is_fired t key = elim (Dict.get t.fired key) [ none ↦ false | some b ↦ b ]

    -- One of the two tests in the loop of maybeAlertLocked.
    unfoldable pub alert_one : Period → F → F → F → Tracker F → Tracker F × List (AlertEvent F)
    unfolding is_fired
    alert_one period limit spent thr t =
        if positive limit
          && (not (is_fired t (alert_key period thr)) && f.le_float (f.mul limit thr) spent)
        then (
          record t { fired = Dict.put t.fired (alert_key period thr) true },
          record { period = period; threshold = thr; limit = limit; spent = spent } ∷ [],
        )
        else (t, [])

    unfoldable pub alert_all : List F → Tracker F → Tracker F × List (AlertEvent F)
    alert_all [] t = (t, [])
    alert_all (thr ∷ thrs) t =
        let (t1, e1) = alert_one Period.daily t.cfg.daily_limit_usd t.state.daily_usd thr t in
        let (t2, e2) =
          alert_one Period.monthly t1.cfg.monthly_limit_usd t1.state.monthly_usd thr t1 in
        let (t3, e3) = alert_all thrs t2 in (t3, e1 ++ (e2 ++ e3))

    unfoldable pub maybe_alert : Tracker F → Tracker F × List (AlertEvent F)
    maybe_alert t = alert_all t.cfg.alert_thresholds t

    -- Record: the tracker after it, and the events handed to the hooks
    unfoldable pub record_cost : Tracker F → F → ℕ → Tracker F × List (AlertEvent F)
    record_cost t cost now =
        if f.le_float cost zero_usd
        then (t, [])
        else (let t' = roll_if_stale t now in
            maybe_alert (record t' {
              state = record (t'.state) {
                daily_usd = f.add t'.state.daily_usd cost;
                monthly_usd = f.add t'.state.monthly_usd cost;
                total_usd = f.add t'.state.total_usd cost;
              };
            }))

    unfoldable pub snapshot : Tracker F → ℕ → Tracker F × State F
    snapshot t now = let t' = roll_if_stale t now in (t', t'.state)
