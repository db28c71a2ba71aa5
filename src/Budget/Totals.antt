-- ===== src/Budget/Totals.antt =====
-- What recording a cost adds.
use nadir.Prelude.{ℕ, ◌≡◌, false, arith}
use nadir.Prelude.Float.{Float}
use nadir.Prelude.Text.{text_eq_self}
use nadir.Budget.{Tracker, Format, zero_usd, roll_if_stale, maybe_alert, record_cost, snapshot}
use nadir.Budget.Rollover.{spent_today, spent_this_month, roll_lem}
use nadir.Budget.Alerts.{alert_all-Grows}

module _ {F : Type 0} ⦃f : Float F⦄ (format : Format F) where
  state-maybe_alert : (t : Tracker F) → (maybe_alert format t).0.state ≡ t.state
  unfolding maybe_alert
  state-maybe_alert t = (alert_all-Grows format t.cfg.alert_thresholds t).state

  -- A cost that is not at or below zero is added once to what was spent on its day, in its month and
  -- in total, and a snapshot at that instant shows it.
  pub snapshot-record_cost :
      (t : Tracker F) (cost : F) (now : ℕ)
      → f.le_float cost zero_usd ≡ false
      → (snapshot format (record_cost format t cost now).0 now).1 ≡ record {
        day = format.day_of now;
        month = format.month_of now;
        daily_usd = f.add (spent_today format t now) cost;
        monthly_usd = f.add (spent_this_month format t now) cost;
        total_usd = f.add t.state.total_usd cost;
      }
  unfolding snapshot record_cost spent_today spent_this_month
  snapshot-record_cost t cost now h =
      let (cfg, state) = roll_lem format t now in
      ground (
        arith,
        cfg,
        state,
        state-maybe_alert (record (roll_if_stale format t now) {
          state = record ((roll_if_stale format t now).state) {
            daily_usd = f.add (roll_if_stale format t now).state.daily_usd cost;
            monthly_usd = f.add (roll_if_stale format t now).state.monthly_usd cost;
            total_usd = f.add (roll_if_stale format t now).state.total_usd cost;
          };
        }),
        (roll_lem format (record_cost format t cost now).0 now).1,
        text_eq_self (format.day_of now),
        text_eq_self (format.month_of now),
      )
