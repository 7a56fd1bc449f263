-- ===== src/Lifecycle/Evaluator/Shadow.antt =====
-- The exit from shadow: `_shadow`.
use kometa.Prelude.{
  ℕ, ◌-◌, ◌/◌, Bool, true, false, ◌&&◌, ◌||◌, String, Option, none, some, List, [], ◌∷◌, map,
  length, ltb, string_eq, if◌then◌else◌,
}
use kometa.Prelude.Dict.{insert}
use kometa.Core.Time.{days}
use kometa.Core.Models.{Stage, micro, retired, Trade}
use kometa.Core.Events.{StageChanged}
use kometa.Decimal.{Decimal, den, dec, dec_zero, frac, ltb_ℚ, eqb_ℚ}
use kometa.Execution.Orders.{round_price, to_integral, half_even}
use kometa.Lifecycle.Evaluator.Metrics.{Metrics, count, multiples}
use kometa.Lifecycle.Evaluator.Base.{Env, Method, give, ◌>>=◌, now, ask, or_fail}
use kometa.Lifecycle.Ladder.{VersionState, BacktestProfile, Key, key_of, number, evaluator}
use kometa.Lifecycle.Registry as Reg
use kometa.Lifecycle.Registry.{value_error, zero_division_error}
use kometa.Lifecycle.Stats.{Band, inside, mean, quotient, bootstrap_mean_band}

abbrev pub week : ℕ
week = days 7

-- `reg.transition` by the evaluator; the clock is read for the record
unfoldable pub move : Env → Key → Stage → String → Metrics → Method StageChanged
move k (id, version) to reason m = do
  at ← now k
  ask (Reg.transition id version to reason evaluator m at)

unfoldable pub moved_to : Env → Key → Stage → String → Metrics → Method (Option StageChanged)
moved_to k key to reason m = move k key to reason m >>= λ ev. give (some ev)

-- a whole number of weeks, at least one
abbrev pub whole_weeks : Decimal → ℕ
whole_weeks weeks =
    let x = to_integral half_even weeks in
    let n = (x.up - x.down) / den x in if ltb n 1 then 1 else n

abbrev pub shadow_metrics : (weeks per_week : Decimal) (signals trades : ℕ) → Band → Metrics
shadow_metrics weeks per_week signals trades (lo, hi) =
    ("weeks", number (round_price weeks 2 half_even))
    ∷ ("signals", count signals)
    ∷ ("trades", count trades)
    ∷ ("entries_per_week", number per_week)
    ∷ ("rate_band_lo", number lo)
    ∷ ("rate_band_hi", number hi)
    ∷ []

abbrev pub with_avg : Decimal → Band → Metrics → Metrics
with_avg avg (lo, hi) m =
    insert "r_band_hi" (number hi) (insert "r_band_lo" (number lo) (insert "avg_r" (number avg) m))

-- the verdict of the bands, and the metrics
abbrev pub Verdict : Type 0
Verdict = Bool × Metrics

abbrev pub judge_avg : Bool → Metrics → Decimal → Band → Verdict
judge_avg ok_rate m avg band = (ok_rate && inside avg band, with_avg avg band m)

-- `if trades: ... else: ok = False`
unfoldable pub compare_avg : Env → BacktestProfile → List Trade → Bool → Metrics → Method Verdict
compare_avg k prof [] ok_rate m = give (false, m)
compare_avg k prof (t ∷ ts) ok_rate m =
    or_fail value_error
      (bootstrap_mean_band k.numbers prof.trade_r (length (t ∷ ts)) k.cfg.shadow.exit.band)
    >>= λ band. give (judge_avg ok_rate m (mean (multiples (t ∷ ts))) band)

-- `len(trades) / weeks`, which raises for no time
abbrev pub rate_of : (trades : ℕ) (weeks : Decimal) → Option Decimal
rate_of trades weeks = if eqb_ℚ weeks dec_zero then none else some (quotient (dec trades) weeks)

-- the entry rate and the mean R against the backtest
unfoldable pub compare_shadow :
    Env → BacktestProfile → (weeks : Decimal) (signals : ℕ) → List Trade → Method Verdict
compare_shadow k prof weeks signals trades = do
  rate ← or_fail zero_division_error (rate_of (length trades) weeks)
  band ← or_fail value_error (
      bootstrap_mean_band k.numbers (map dec prof.weekly_entries) (whole_weeks weeks)
        k.cfg.shadow.exit.band)
  compare_avg k prof trades (inside rate band)
      (shadow_metrics weeks rate signals (length trades) band)

unfoldable pub leave_shadow : Env → Key → Verdict → Method (Option StageChanged)
leave_shadow k key (true, m) = moved_to k key micro "shadow matches backtest" m
leave_shadow k key (false, m) = moved_to k key retired "shadow diverges from backtest" m

unfoldable pub judge_profile :
    Env
    → VersionState
    → Option BacktestProfile
    → (weeks : Decimal) (signals : ℕ) → Method (Option StageChanged)
judge_profile k v none weeks signals = give none
judge_profile k v (some prof) weeks signals =
    compare_shadow k prof weeks signals (k.stage_data.trades (key_of v) v.stage_since true)
    >>= leave_shadow k (key_of v)

-- too early, or too few signals
unfoldable pub not_due : Env → (weeks : Decimal) (signals : ℕ) → Bool
not_due k weeks signals =
    ltb_ℚ weeks k.cfg.shadow.exit.min_weeks || ltb signals k.cfg.shadow.exit.min_signals

unfoldable pub judge_shadow : Env → VersionState → Method (Option StageChanged)
judge_shadow k v = do
  at ← now k
  let weeks = frac (at - v.stage_since) week
  let signals = k.stage_data.signal_count (key_of v) v.stage_since
  if not_due k weeks signals || v.info.paper_only
      then give none
      else judge_profile k v v.profile weeks signals
