-- ===== src/Tests/Costs.antt =====
-- The budget, the classifiers, the price table and the folding of conversations at concrete inputs.
use nadir.Prelude.{
  ℕ, ◌≡◌, ◌⊎◌, ◌≤◌, ◌+◌, refl, sym, ap, arith, Bool, true, false, not, ◌&&◌, ◌||◌, Option, none,
  some, List, [], ◌∷◌, ◌++◌, length, take, drop, ◌==◌, if◌then◌else◌,
}
use nadir.Prelude.Text.{Text, codes, text_eq, text_mem, trim_space}
use nadir.Types.{Message}
use nadir.Types.Errors.{GoError, Result, ok, err}
use nadir.Budget.{
  Tracker, State, Config, new_tracker, zero_usd, positive, allowed, record_cost, maybe_alert,
  snapshot,
}
use nadir.Budget.Rollover.{spent_today, spent_this_month, allowed_lem}
use nadir.Budget.Persist.{Disk, save_to, load_from, Call, answers, answers-load_from}
use nadir.Budget.Alerts.{maybe_alert_once}
use nadir.Classifier.Cascade.{Cascading}
use nadir.ModelMeta.{Model, last_entry}
use nadir.Compress
use nadir.Compress.{fold, select, summary_message, fold_lem}
use nadir.Optimize.{dedup, int_to_str, squeeze}
use nadir.Tests.Fixtures.{thousandths, calendar, plain_json, say, simple_verdict}

-- A limit of 2 a day and none a month.
abbrev budget : Tracker ℕ
budget =
    new_tracker (record { daily_limit_usd = 2000; monthly_limit_usd = 0; alert_thresholds = [] })

abbrev spent : Tracker ℕ
spent = (record_cost calendar budget 1700 250).0

allowed_lem_example :
    ((allowed calendar spent 260).1
      ≡ not (
          (positive spent.cfg.daily_limit_usd
            && thousandths.le_float spent.cfg.daily_limit_usd (spent_today calendar spent 260))
          || (positive spent.cfg.monthly_limit_usd
              && thousandths.le_float spent.cfg.monthly_limit_usd
                  (spent_this_month calendar spent 260))))
    × ((allowed calendar spent 260).0.state.total_usd ≡ spent.state.total_usd)
allowed_lem_example = allowed_lem calendar spent 260

-- The limit is reached by a second cost on the same day, and the next day starts again.
day_is_over :
    ((allowed calendar (record_cost calendar spent 300 260).0 270).1 ≡ false)
    × ((allowed calendar (record_cost calendar spent 300 260).0 300).1 ≡ true)
unfolding allowed record_cost new_tracker nadir.Budget.roll_if_stale nadir.Budget.roll_month
    nadir.Prelude.Text.text_eq nadir.Budget.roll_day maybe_alert nadir.Budget.alert_all
    nadir.Budget.alert_one nadir.Prelude.Dict.get nadir.Prelude.Dict.keep_keys
    nadir.Prelude.Dict.put nadir.Budget.alert_key
day_is_over = (refl, refl)

-- A disk with one file, and an encoding of amounts whose day and month are one character each.
abbrev decode : Text → Result (State ℕ)
decode (daily ∷ monthly ∷ total ∷ day ∷ month ∷ []) = ok (record {
  day = day ∷ [];
  month = month ∷ [];
  daily_usd = daily;
  monthly_usd = monthly;
  total_usd = total;
})
decode _ = err GoError.eof

abbrev decode_encoded : Result Text → Result (State ℕ)
decode_encoded (ok b) = decode b
decode_encoded (err e) = err e

abbrev disk : Disk ℕ Text
disk = record {
  write_file = λ d path b. (b, none);
  read_file = λ d path. ok d;
  is_not_exist = λ e. false;
  marshal = λ s. ok (s.daily_usd ∷ s.monthly_usd ∷ s.total_usd ∷ s.day ++ s.month);
  unmarshal = decode;
}

spent_decodes :
    (b : Text)
    → disk.marshal (snapshot calendar spent 260).1 ≡ ok b
    → disk.unmarshal b ≡ ok (snapshot calendar spent 260).1
unfolding snapshot record_cost new_tracker nadir.Budget.roll_if_stale nadir.Budget.roll_month
    nadir.Prelude.Text.text_eq nadir.Budget.roll_day maybe_alert nadir.Budget.alert_all
    nadir.Budget.alert_one nadir.Prelude.Dict.get nadir.Prelude.Dict.keep_keys
    nadir.Prelude.Dict.put nadir.Budget.alert_key
spent_decodes b h = ap decode_encoded (sym h)

spent_reads :
    (b : Text)
    → (disk.write_file [] (codes "state") b).1 ≡ none
    → disk.read_file (disk.write_file [] (codes "state") b).0 (codes "state") ≡ ok b
spent_reads b h = refl

spent_is_saved : (save_to calendar disk spent [] (codes "state") 260).2 ≡ none
unfolding save_to snapshot
spent_is_saved = refl

same_limits :
    (budget.cfg.daily_limit_usd ≡ spent.cfg.daily_limit_usd)
    × (budget.cfg.monthly_limit_usd ≡ spent.cfg.monthly_limit_usd)
unfolding record_cost new_tracker nadir.Budget.roll_if_stale nadir.Budget.roll_month
    nadir.Prelude.Text.text_eq nadir.Budget.roll_day maybe_alert nadir.Budget.alert_all
    nadir.Budget.alert_one nadir.Prelude.Dict.get nadir.Prelude.Dict.keep_keys
    nadir.Prelude.Dict.put nadir.Budget.alert_key
same_limits = (refl, refl)

abbrev after_restart : List (Call calendar disk)
after_restart = Call.spend 300 262 ∷ Call.gate 270 ∷ Call.gate 300 ∷ []

answers-load_from_example :
    let saved = save_to calendar disk spent [] (codes "state") 260 in
    ((load_from calendar disk budget saved.1 (codes "state")).1 ≡ none)
    × (answers calendar disk
          (load_from calendar disk budget saved.1 (codes "state")).0
          after_restart
        ≡ answers calendar disk saved.0 after_restart)
answers-load_from_example =
    answers-load_from calendar disk spent budget [] (codes "state") 260 after_restart spent_decodes
      spent_reads same_limits.0 same_limits.1 spent_is_saved

maybe_alert_once_example :
    maybe_alert calendar (maybe_alert calendar spent).0 ≡ ((maybe_alert calendar spent).0, [])
maybe_alert_once_example = maybe_alert_once calendar spent

-- The secondary fails.
abbrev cascade : Cascading ℕ
cascade = record {
  primary = simple_verdict;
  secondary = some (λ s. err (GoError.plain (codes "timeout")));
  confidence_threshold = 900;
}

abbrev price : Text → ℕ → Model ℕ
price name per_1k = record {
  name = name;
  input_per_1k = per_1k;
  output_per_1k = per_1k;
  context = 8;
  vision = false;
}

abbrev prices : List (Model ℕ)
prices = price (codes "m") 1 ∷ price (codes "n") 2 ∷ price (codes "m") 3 ∷ []

last_price : last_entry prices (codes "m") ≡ some (price (codes "m") 3)
unfolding last_entry nadir.Prelude.Text.text_eq
last_price = refl

abbrev talk : List Message
talk =
    say (codes "user") (codes "a")
    ∷ say (codes "system") (codes "s")
    ∷ say (codes "assistant") (codes "b")
    ∷ say (codes "user") (codes "c")
    ∷ []

abbrev small : Compress.Config
small = record { max_messages = 2; max_bytes = 0; keep_recent = 1 }

two_folded : (fold plain_json talk small).folded ≡ 2
unfolding fold select Compress.needs_compress nadir.Prelude.Text.text_eq
two_folded = refl

-- The same tool output twice.
abbrev outputs : List Message
outputs =
    say (codes "tool") (codes "out")
    ∷ say (codes "user") (codes "hi")
    ∷ say (codes "tool") (codes "out")
    ∷ []

one_left : length (dedup plain_json [] outputs) ≡ 2
unfolding dedup text_mem text_eq nadir.Optimize.is_tool nadir.Optimize.decode_content
one_left = refl

printed : int_to_str 2048 ≡ codes "2048"
unfolding int_to_str
printed = refl

squeezed : squeeze (codes " a  b ") ≡ codes "a b"
unfolding squeeze trim_space
squeezed = refl
