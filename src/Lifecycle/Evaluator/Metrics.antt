-- ===== src/Lifecycle/Evaluator/Metrics.antt =====
-- The numbers by which the evaluator judges a version: `demotion_reasons`, `_slippage_ratio`.
use kometa.Prelude.{
  ◌||◌, ℕ, ◌-◌, Bool, true, false, not, String, Option, none, some, List, [], ◌∷◌, ◌++◌, string_eq,
  map, length, drop, leb, if◌then◌else◌,
}
use Prim.Native.String.{◌++◌ as ◌+++◌}
use kometa.Prelude.Dict.{Dict, insert, get_or}
use kometa.Core.Models.{Trade}
use kometa.Core.Broker.{ExecutionQuality}
use kometa.Decimal.{Decimal, dec, dec_zero, ◌*ℚ◌, ltb_ℚ, leb_ℚ}
use kometa.Lifecycle.Config.{Demotion}
use kometa.Lifecycle.Evaluator.Base.{
  Reason, deep_drawdown, low_profit_factor, high_slippage, odd_win_rate, odd_avg_r,
}
use kometa.Lifecycle.Ladder.{BacktestProfile, Metric, number, not_finite, null}
use kometa.Lifecycle.Stats.{
  Numbers, Band, Ratio, finite, infinite, mean, quotient, inside, profit_factor, max_drawdown_r,
  bootstrap_mean_band, is_gain,
}

abbrev pub Metrics : Type 0
Metrics = Dict String Metric

abbrev pub count : ℕ → Metric
count n = number (dec n)

abbrev pub number_or_null : Option Decimal → Metric
number_or_null none = null
number_or_null (some x) = number x

abbrev pub ratio_metric : Ratio → Metric
ratio_metric (finite x) = number x
ratio_metric infinite = not_finite

-- `_rs`
abbrev pub multiples : List Trade → List Decimal
multiples ts = map (λ t. t.r_multiple) ts

-- `xs[-n:]` for n not zero
abbrev pub last_of : {A : Type 0} → ℕ → List A → List A
last_of n xs = drop (length xs - n) xs

abbrev slippages : List ExecutionQuality → List Decimal
slippages [] = []
slippages (f ∷ fs) = elim f.slippage [ none ↦ slippages fs | some x ↦ x ∷ slippages fs ]

unfoldable pub slippage_ratio : List ExecutionQuality → Option BacktestProfile → Option Decimal
slippage_ratio fills none = none
slippage_ratio fills (some prof) =
    let model = map (λ f. get_or f.symbol dec_zero prof.model_slippage) fills in
    let actual = slippages fills in
    if leb (length actual) 0 || leb_ℚ (mean model) dec_zero
    then none
    else some (quotient (mean actual) (mean model))

-- The reasons and the metrics so far.
abbrev pub Findings : Type 0
Findings = List Reason × Metrics

abbrev pub set : String → Metric → Findings → Findings
set name x (rs, m) = (rs, insert name x m)

abbrev pub add_if : Bool → Reason → Findings → Findings
add_if true r (rs, m) = (rs ++ r ∷ [], m)
add_if false r f = f

-- the drawdown against the profile's
unfoldable pub judge_drawdown :
    Demotion → Option BacktestProfile → List Decimal → Findings → Findings
judge_drawdown d none rs f = f
judge_drawdown d (some prof) rs f =
    let dd = max_drawdown_r rs in
    add_if (ltb_ℚ (d.dd_vs_mc_p95 *ℚ prof.mc_dd_p95_r) dd)
      (deep_drawdown dd d.dd_vs_mc_p95 prof.mc_dd_p95_r)
      (set "mc_dd_p95_r" (number prof.mc_dd_p95_r) (set "dd_r" (number dd) f))

abbrev pub below_min : Ratio → Decimal → Bool
below_min (finite x) least = ltb_ℚ x least
below_min infinite least = false

unfoldable pub judge_profit_factor : Demotion → List Decimal → Findings → Findings
judge_profit_factor d rs f =
    let pf = profit_factor (last_of d.rolling_pf_window rs) in
    if leb d.rolling_pf_window (length rs)
    then add_if (below_min pf d.rolling_pf_min) (low_profit_factor pf d.rolling_pf_min)
        (set "rolling_pf" (ratio_metric pf) f)
    else f

abbrev pub judge_ratio : Demotion → Option Decimal → Findings → Findings
judge_ratio d none f = f
judge_ratio d (some ratio) f =
    add_if (ltb_ℚ d.slippage_vs_model_max ratio) (high_slippage ratio d.slippage_vs_model_max)
      (set "slippage_vs_model" (number ratio) f)

unfoldable pub judge_slippage :
    Demotion → Option BacktestProfile → List ExecutionQuality → Findings → Findings
unfolding slippage_ratio
judge_slippage d prof fills f =
    judge_ratio d
      (if leb d.slippage_window (length fills)
        then slippage_ratio (last_of d.slippage_window fills) prof
        else none)
      f

-- `[1.0 if r > 0 else 0.0 for r in rs]`
abbrev pub wins : List Decimal → List Decimal
wins rs = map (λ r. if is_gain r then dec 1 else dec_zero) rs

abbrev pub judge_bands : (wr ar : Decimal) → Band → Band → Findings → Findings
judge_bands wr ar wr_band ar_band f = add_if (not (inside ar ar_band)) (odd_avg_r ar ar_band) (
    add_if (not (inside wr wr_band)) (odd_win_rate wr wr_band)
      (set "avg_r" (number ar) (set "win_rate" (number wr) f)))

abbrev pub with_bands : Option Band → Option Band → (Band → Band → Findings) → Option Findings
with_bands none ar f = none
with_bands (some wr) none f = none
with_bands (some wr) (some ar) f = some (f wr ar)

-- None is the ValueError of `bootstrap_mean_band`.
unfoldable pub judge_drift :
    Numbers → Demotion → Option BacktestProfile → List Decimal → Findings → Option Findings
judge_drift n d none rs f = some f
judge_drift n d (some prof) rs f =
    let window = last_of d.drift_window rs in
    if leb d.drift_window (length rs)
    then with_bands (bootstrap_mean_band n (wins prof.trade_r) d.drift_window d.drift_interval)
        (bootstrap_mean_band n prof.trade_r d.drift_window d.drift_interval)
        (λ wr_band ar_band. judge_bands (mean (wins window)) (mean window) wr_band ar_band f)
    else some f

unfoldable pub demotion_reasons :
    Numbers
    → Demotion
    → Option BacktestProfile
    → List Trade
    → List ExecutionQuality
    → Option Findings
demotion_reasons n d prof trades fills =
    let rs = multiples trades in
    judge_drift n d prof rs (
      judge_slippage d prof fills (
        judge_profit_factor d rs
          (judge_drawdown d prof rs ([], ("trades", count (length trades)) ∷ []))))

-- `"; ".join(reasons)`
abbrev pub joined : (Reason → String) → List Reason → String
joined show [] = ""
joined show (r ∷ []) = show r
joined show (r ∷ s ∷ rs) = show r +++ ("; " +++ joined show (s ∷ rs))
