-- ===== src/Budget/Rollover.antt =====
-- A new day and a new month, and what the gate and the recording make of them.
use nadir.Prelude.{ℕ, ◌≡◌, not, ◌&&◌, ◌||◌, arith, if◌then◌else◌}
use nadir.Prelude.Float.{Float}
use nadir.Prelude.Text.{text_eq, text_eq_iff}
use nadir.Budget.{Tracker, Format, zero_usd, positive, roll_day, roll_month, roll_if_stale, allowed}

module _ {F : Type 0} ⦃f : Float F⦄ (format : Format F) where
  -- What the tracker holds as spent on the day, or in the month, of an instant.
  unfoldable pub spent_today : Tracker F → ℕ → F
  spent_today t now =
      if text_eq t.state.day (format.day_of now) then t.state.daily_usd else zero_usd

  unfoldable pub spent_this_month : Tracker F → ℕ → F
  spent_this_month t now =
      if text_eq t.state.month (format.month_of now) then t.state.monthly_usd else zero_usd

  pub roll_lem :
      (t : Tracker F) (now : ℕ)
      → let t' = roll_if_stale format t now in
        (t'.cfg ≡ t.cfg)
        × (t'.state ≡ record {
          day = format.day_of now;
          month = format.month_of now;
          daily_usd = spent_today t now;
          monthly_usd = spent_this_month t now;
          total_usd = t.state.total_usd;
        })
  unfolding roll_if_stale roll_day roll_month spent_today spent_this_month
  roll_lem t now = (
    ground arith,
    ground (
      arith,
      text_eq_iff t.state.day (format.day_of now),
      text_eq_iff t.state.month (format.month_of now),
    ),
  )

  -- A request is allowed exactly when neither limit that is set is reached by what was spent on the
  -- day and in the month of the request; the total is not touched.
  pub allowed_lem :
      (t : Tracker F) (now : ℕ)
      → let r = allowed format t now in
        (r.1
          ≡ not (
              (positive t.cfg.daily_limit_usd
                && f.le_float t.cfg.daily_limit_usd (spent_today t now))
              || (positive t.cfg.monthly_limit_usd
                  && f.le_float t.cfg.monthly_limit_usd (spent_this_month t now))))
        × (r.0.state.total_usd ≡ t.state.total_usd)
  unfolding allowed
  allowed_lem t now =
      let (cfg, state) = roll_lem t now in (ground (arith, cfg, state), ground (arith, state))
