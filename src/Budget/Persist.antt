-- ===== src/Budget/Persist.antt =====
-- SaveTo and LoadFrom of internal/budget/budget.go. The file system and encoding/json are arguments.
use nadir.Prelude.{
  ℕ, ◌≡◌, refl, ap, ◌∙◌, arith, Bool, Option, none, some, List, [], ◌∷◌, inl, inr, if◌then◌else◌,
  Bool-cases,
}
use nadir.Prelude.Float.{Float}
use nadir.Prelude.Text.{Text}
use nadir.Types.Errors.{GoError, Result, ok, err, Result-cases}
use nadir.Budget.{
  Tracker, State, Format, zero_usd, roll_if_stale, allowed, maybe_alert, record_cost, snapshot,
}
use nadir.Budget.Alerts.{alert_all-Grows}
use nadir.Budget.Rollover.{spent_today, spent_this_month, roll_lem}

-- os.WriteFile, os.ReadFile, errors.Is(err, os.ErrNotExist), json.MarshalIndent and json.Unmarshal
pub record Disk (F : Type 0) (D : Type 0) : Type 0 where
  pub write_file : D → Text → Text → D × Option GoError
  pub read_file : D → Text → Result Text
  pub is_not_exist : GoError → Bool
  pub marshal : State F → Result Text
  pub unmarshal : Text → Result (State F)

module _ {F : Type 0} ⦃f : Float F⦄ (format : Format F) {D : Type 0} (disk : Disk F D) where
  -- The tracker, which Snapshot rolls over, the files and the error.
  unfoldable pub save_to : Tracker F → D → Text → ℕ → Tracker F × D × Option GoError
  save_to t d path now =
      let (t', snap) = snapshot format t now in
      elim (disk.marshal snap) [
        | err e ↦ (t', d, some e)
        | ok b ↦ (let (d', failed) = disk.write_file d path b in (t', d', failed))
      ]

  unfoldable pub load_from : Tracker F → D → Text → Tracker F × Option GoError
  load_from t d path = elim (disk.read_file d path) [
    | err e ↦ if disk.is_not_exist e then (t, none) else (t, some e)
    | ok content ↦ elim (disk.unmarshal content) [
      | err e ↦ (t, some e)
      | ok s ↦ (record t { state = s }, none)
    ]
  ]

  load_from-save_to :
      (t u : Tracker F) (d : D) (path : Text) (now : ℕ)
      → ((b : Text)
          → disk.marshal (snapshot format t now).1 ≡ ok b
          → disk.unmarshal b ≡ ok (snapshot format t now).1)
      → ((b : Text)
          → (disk.write_file d path b).1 ≡ none
          → disk.read_file (disk.write_file d path b).0 path ≡ ok b)
      → (save_to t d path now).2 ≡ none
      → load_from u (save_to t d path now).1 path
        ≡ (record u { state = (save_to t d path now).0.state }, none)
  unfolding save_to load_from snapshot
  load_from-save_to t u d path now decodes reads saved =
      elim (Result-cases (disk.marshal (roll_if_stale format t now).state)) [
        | inl (b, h) ↦ ground (arith, h, decodes b h, reads b)
        | inr (e, h) ↦ absurd (ground (arith, h, saved))
      ]

  save_to_cfg :
      (t : Tracker F) (d : D) (path : Text) (now : ℕ) → (save_to t d path now).0.cfg ≡ t.cfg
  unfolding save_to snapshot
  save_to_cfg t d path now = ground (arith, (roll_lem format t now).0)

  -- A call of the tracker that the gate or a recorded cost makes.
  pub data Call : Type 0 where
    gate : ℕ → Call
    spend : F → ℕ → Call

  -- The answers of Allowed in a history of calls.
  unfoldable pub answers : Tracker F → List Call → List (Bool × Text)
  answers t [] = []
  answers t (gate now ∷ calls) = let r = allowed format t now in (r.1, r.2) ∷ answers r.0 calls
  answers t (spend cost now ∷ calls) = answers (record_cost format t cost now).0 calls

  -- Two trackers with the same limits and the same amounts.
  pub record IsAlike (t u : Tracker F) : Type 0 where
    pub daily : u.cfg.daily_limit_usd ≡ t.cfg.daily_limit_usd
    pub monthly : u.cfg.monthly_limit_usd ≡ t.cfg.monthly_limit_usd
    pub state : u.state ≡ t.state

  roll_if_stale-IsAlike :
      (t u : Tracker F) (now : ℕ)
      → IsAlike t u
      → IsAlike (roll_if_stale format t now) (roll_if_stale format u now)
  unfolding spent_today spent_this_month
  roll_if_stale-IsAlike t u now a =
      let (ct, st) = roll_lem format t now in
      let (cu, su) = roll_lem format u now in
      record {
        daily = ground (arith, ct, cu, a.daily);
        monthly = ground (arith, ct, cu, a.monthly);
        state = ground (arith, st, su, a.state);
      }

  allowed-IsAlike :
      (t u : Tracker F) (now : ℕ)
      → IsAlike t u
      → IsAlike (allowed format t now).0 (allowed format u now).0
        × ((allowed format u now).1 ≡ (allowed format t now).1)
        × ((allowed format u now).2 ≡ (allowed format t now).2)
  unfolding allowed
  allowed-IsAlike t u now a =
      let r = roll_if_stale-IsAlike t u now a in
      (
        record {
          daily = ground (arith, r.daily);
          monthly = ground (arith, r.monthly);
          state = ground (arith, r.state);
        },
        ground (arith, r.daily, r.monthly, r.state),
        ground (arith, r.daily, r.monthly, r.state),
      )

  record_cost-IsAlike :
      (t u : Tracker F) (cost : F) (now : ℕ)
      → IsAlike t u
      → IsAlike (record_cost format t cost now).0 (record_cost format u cost now).0
  unfolding record_cost maybe_alert
  record_cost-IsAlike t u cost now a = elim (Bool-cases (f.le_float cost zero_usd)) [
    | inl free ↦ rw (free, record_cost) a
    | inr paid ↦
        let r = roll_if_stale-IsAlike t u now a in
        let gt = alert_all-Grows format (with_cost t).cfg.alert_thresholds (with_cost t) in
        let gu = alert_all-Grows format (with_cost u).cfg.alert_thresholds (with_cost u) in
        rw (paid, record_cost)
          (record {
            daily = ground (arith, gt.cfg, gu.cfg, r.daily);
            monthly = ground (arith, gt.cfg, gu.cfg, r.monthly);
            state = ground (arith, gt.state, gu.state, r.state);
          })
  ]
    where
      with_cost : Tracker F → Tracker F
      with_cost t =
          let t' = roll_if_stale format t now in
          record t' {
            state = record (t'.state) {
              daily_usd = f.add t'.state.daily_usd cost;
              monthly_usd = f.add t'.state.monthly_usd cost;
              total_usd = f.add t'.state.total_usd cost;
            };
          }

  answers-IsAlike :
      (calls : List Call) (t u : Tracker F) → IsAlike t u → answers u calls ≡ answers t calls
  unfolding answers
  answers-IsAlike [] t u a = refl
  answers-IsAlike (gate now ∷ calls) t u a =
      let (after, pass, reason) = allowed-IsAlike t u now a in
      rw (pass, reason, answers-IsAlike calls _ _ after) refl
  answers-IsAlike (spend cost now ∷ calls) t u a =
      answers-IsAlike calls _ _ (record_cost-IsAlike t u cost now a)

  -- Where decoding gives back the amounts that were encoded, and reading a file that was written
  -- gives its content: after SaveTo without an error, a tracker with the same limits that loads the
  -- file, with whatever amounts it had, loads it without an error, and answers every history of
  -- recorded costs and calls of the gate as the tracker that was saved does.
  pub answers-load_from :
      (t u : Tracker F) (d : D) (path : Text) (now : ℕ) (calls : List Call)
      → ((b : Text)
          → disk.marshal (snapshot format t now).1 ≡ ok b
          → disk.unmarshal b ≡ ok (snapshot format t now).1)
      → ((b : Text)
          → (disk.write_file d path b).1 ≡ none
          → disk.read_file (disk.write_file d path b).0 path ≡ ok b)
      → u.cfg.daily_limit_usd ≡ t.cfg.daily_limit_usd
      → u.cfg.monthly_limit_usd ≡ t.cfg.monthly_limit_usd
      → (save_to t d path now).2 ≡ none
      → ((load_from u (save_to t d path now).1 path).1 ≡ none)
        × (answers (load_from u (save_to t d path now).1 path).0 calls
            ≡ answers (save_to t d path now).0 calls)
  answers-load_from t u d path now calls decodes reads daily monthly saved =
      let loaded = load_from-save_to t u d path now decodes reads saved in
      let cfg = save_to_cfg t d path now in
      (
        ap (λ r. r.1) loaded,
        ap (λ r. answers r.0 calls) loaded
            ∙ answers-IsAlike calls (save_to t d path now).0 _ (record {
              daily = ground (arith, cfg, daily);
              monthly = ground (arith, cfg, monthly);
              state = refl;
            }),
      )
