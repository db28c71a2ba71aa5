-- ===== src/Budget/Alerts.antt =====
-- Which alerts are reported again.
use nadir.Prelude.{◌≡◌, refl, ◌∙◌, true, false, not, ◌&&◌, List, [], ◌∷◌, arith, All}
use nadir.Prelude.Dict.{get-put}
use nadir.Prelude.Float.{Float}
use nadir.Prelude.Text.{Text, text_eq_self}
use nadir.Budget.{
  Tracker, Period, Format, positive, alert_key, is_fired, alert_one, alert_all, maybe_alert,
}

module _ {F : Type 0} ⦃f : Float F⦄ (format : Format F) where
  is_fired-alert_one :
      (p : Period) (limit spent thr : F) (t : Tracker F) (key : Text)
      → is_fired format t key ≡ true
      → is_fired format (alert_one format p limit spent thr t).0 key ≡ true
  unfolding alert_one
  is_fired-alert_one p limit spent thr t key h =
      ground (arith, get-put t.fired (alert_key format p thr) key true)

  state-alert_one :
      (p : Period) (limit spent thr : F) (t : Tracker F)
      → ((alert_one format p limit spent thr t).0.cfg ≡ t.cfg)
        × ((alert_one format p limit spent thr t).0.state ≡ t.state)
  unfolding alert_one
  state-alert_one p limit spent thr t = (ground arith, ground arith)

  -- Both tests of a threshold find nothing to report.
  abbrev IsSettled : Tracker F → F → Type 0
  IsSettled t thr =
      ((positive t.cfg.daily_limit_usd
          && (not (is_fired format t (alert_key format Period.daily thr))
              && f.le_float (f.mul t.cfg.daily_limit_usd thr) t.state.daily_usd))
        ≡ false)
      × ((positive t.cfg.monthly_limit_usd
            && (not (is_fired format t (alert_key format Period.monthly thr))
                && f.le_float (f.mul t.cfg.monthly_limit_usd thr) t.state.monthly_usd))
          ≡ false)

  -- The amounts are the same, and every alert that was fired still is.
  pub record Grows (t t' : Tracker F) : Type 0 where
    pub cfg : t'.cfg ≡ t.cfg
    pub state : t'.state ≡ t.state
    pub fired : (key : Text) → is_fired format t key ≡ true → is_fired format t' key ≡ true

  Grows-alert_one :
      (p : Period) (limit spent thr : F) (t : Tracker F)
      → Grows t (alert_one format p limit spent thr t).0
  Grows-alert_one p limit spent thr t =
      let (c, s) = state-alert_one p limit spent thr t in
      record { cfg = c; state = s; fired = is_fired-alert_one p limit spent thr t }

  Grows-trans : {t u v : Tracker F} → Grows t u → Grows u v → Grows t v
  Grows-trans g h = record {
    cfg = h.cfg ∙ g.cfg;
    state = h.state ∙ g.state;
    fired = λ key k. h.fired key (g.fired key k);
  }

  IsSettled-Grows : {t t' : Tracker F} (thr : F) → Grows t t' → IsSettled t thr → IsSettled t' thr
  IsSettled-Grows thr g s = (
    ground (arith, g.cfg, g.state, g.fired (alert_key format Period.daily thr), s.0),
    ground (arith, g.cfg, g.state, g.fired (alert_key format Period.monthly thr), s.1),
  )

  -- The tracker after both tests of a threshold.
  abbrev after_both : F → Tracker F → Tracker F
  after_both thr t =
      let t1 = (alert_one format Period.daily t.cfg.daily_limit_usd t.state.daily_usd thr t).0 in
      (alert_one format Period.monthly t1.cfg.monthly_limit_usd t1.state.monthly_usd thr t1).0

  Grows-after_both : (thr : F) (t : Tracker F) → Grows t (after_both thr t)
  Grows-after_both thr t = Grows-trans (Grows-alert_one _ _ _ thr t) (Grows-alert_one _ _ _ thr _)

  fires :
      (p : Period) (limit spent thr : F) (t : Tracker F)
      → (positive limit
          && (not
                (is_fired format (alert_one format p limit spent thr t).0 (alert_key format p thr))
              && f.le_float (f.mul limit thr) spent))
        ≡ false
  unfolding alert_one
  fires p limit spent thr t = ground (
    arith,
    get-put t.fired (alert_key format p thr) (alert_key format p thr) true,
    text_eq_self (alert_key format p thr),
  )

  after_both-IsSettled : (thr : F) (t : Tracker F) → IsSettled (after_both thr t) thr
  after_both-IsSettled thr t =
      let t1 = (alert_one format Period.daily t.cfg.daily_limit_usd t.state.daily_usd thr t).0 in
      let g1 = Grows-alert_one Period.daily t.cfg.daily_limit_usd t.state.daily_usd thr t in
      let g2 =
        Grows-alert_one Period.monthly t1.cfg.monthly_limit_usd t1.state.monthly_usd thr t1 in
      let key = alert_key format Period.daily thr in
      (
        ground (
          arith,
          g1.cfg,
          g1.state,
          g2.cfg,
          g2.state,
          g2.fired key,
          fires Period.daily t.cfg.daily_limit_usd t.state.daily_usd thr t,
        ),
        ground (
          arith,
          g2.cfg,
          g2.state,
          fires Period.monthly t1.cfg.monthly_limit_usd t1.state.monthly_usd thr t1,
        ),
      )

  pub alert_all-Grows : (thrs : List F) (t : Tracker F) → Grows t (alert_all format thrs t).0
  unfolding alert_all
  alert_all-Grows [] t = record { cfg = refl; state = refl; fired = λ key h. h }
  alert_all-Grows (thr ∷ thrs) t =
      Grows-trans (Grows-after_both thr t) (alert_all-Grows thrs (after_both thr t))

  alert_all-IsSettled :
      (thrs : List F) (t : Tracker F) → All (IsSettled (alert_all format thrs t).0) thrs
  unfolding alert_all
  alert_all-IsSettled [] t = tt
  alert_all-IsSettled (thr ∷ thrs) t = (
    IsSettled-Grows thr (alert_all-Grows thrs (after_both thr t)) (after_both-IsSettled thr t),
    alert_all-IsSettled thrs (after_both thr t),
  )

  alert_all_settled :
      (thrs : List F) (t : Tracker F) → All (IsSettled t) thrs → alert_all format thrs t ≡ (t, [])
  unfolding alert_all
  alert_all_settled [] t s = refl
  alert_all_settled (thr ∷ thrs) t s =
      let first = quiet Period.daily t.cfg.daily_limit_usd t.state.daily_usd thr t s.0.0 in
      let second = quiet Period.monthly t.cfg.monthly_limit_usd t.state.monthly_usd thr t s.0.1 in
      rw (first, second, alert_all_settled thrs t s.1)
    where
      quiet :
          (p : Period) (limit spent thr : F) (t : Tracker F)
          → (positive limit
              && (not (is_fired format t (alert_key format p thr))
                  && f.le_float (f.mul limit thr) spent))
            ≡ false
          → alert_one format p limit spent thr t ≡ (t, [])
      quiet p limit spent thr t h = unfold alert_one in rw (h, alert_one)

  -- While the amounts stay as they are, a threshold is reported once: a second round of alerts
  -- reports nothing and changes nothing.
  pub maybe_alert_once :
      (t : Tracker F) → maybe_alert format (maybe_alert format t).0 ≡ ((maybe_alert format t).0, [])
  unfolding maybe_alert
  maybe_alert_once t =
      let thrs = t.cfg.alert_thresholds in
      let g = alert_all-Grows thrs t in
      rw g.cfg (alert_all_settled thrs (alert_all format thrs t).0 (alert_all-IsSettled thrs t))
