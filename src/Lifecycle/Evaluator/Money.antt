-- ===== src/Lifecycle/Evaluator/Money.antt =====
-- The money stages: `_money`, `_micro_exit`, `_demote` and `_act`.
use Prim.{Unit, tt}
use kometa.Prelude.{
  ℕ, ◌+◌, ◌-◌, Bool, false, ◌&&◌, ◌||◌, not, String, Option, none, some, List, [], ◌∷◌, length,
  keep_if, ltb, leb, ◌==◌, string_eq, if◌then◌else◌,
}
use kometa.Prelude.Dict.{insert}
use kometa.Core.Time.{Datetime, days}
use kometa.Core.Models.{Stage, shadow, micro, live, scaled, retired, stage_eq, Trade}
use kometa.Core.Broker.{ExecutionQuality}
use kometa.Core.Events.{StageChanged}
use kometa.Decimal.{Decimal, dec, frac, ◌*ℚ◌, ltb_ℚ, leb_ℚ}
use kometa.Execution.Orders.{to_integral, half_even}
use kometa.Lifecycle.Evaluator.Metrics.{
  Metrics, Findings, number_or_null, multiples, last_of, demotion_reasons, slippage_ratio, joined,
}
use kometa.Lifecycle.Evaluator.Shadow.{move, moved_to}
use kometa.Lifecycle.Evaluator.Base.{
  gets, Env, Method, cancel_pending, close_positions, DemotionActions, demotion_action_failed, give,
  ◌>>=◌, ◌>>◌, now, or_fail, alert, act,
}
use kometa.Lifecycle.Ladder.{
  VersionState, BacktestProfile, Key, key_of, number, demotions_since, money_since,
}
use kometa.Lifecycle.Registry as Reg
use kometa.Lifecycle.Registry.{Registry, value_error}
use kometa.Lifecycle.Stats.{Band, inside, mean, bootstrap_mean_band, annualized_sharpe, daily_r}

-- `to in (Stage.SHADOW, Stage.RETIRED)`
abbrev pub leaves_money : Stage → Bool
leaves_money to = to == shadow || to == retired

unfoldable pub report_failure : Env → Key → Option String → Method (Unit {0})
report_failure k key none = give tt
report_failure k key (some e) = do at ← now k; alert (demotion_action_failed key e at)

unfoldable pub close_after :
    DemotionActions → Key → Stage → String → Option String → Method (Option String)
close_after d key to reason (some e) = give (some e)
close_after d key to reason none =
    if leaves_money to then act d (close_positions key reason) else give none

unfoldable pub act_with : Env → Option DemotionActions → Key → Stage → String → Method (Unit {0})
act_with k none key to reason = give tt
act_with k (some d) key to reason = do
  failed ← act d (cancel_pending key reason)
  closed ← close_after d key to reason failed
  report_failure k key closed

-- `_act`
unfoldable pub act_on : Env → VersionState → Stage → String → Method (Unit {0})
act_on k v to reason = act_with k k.actions (key_of v) to reason

-- `timedelta(days=round(30.44 * months))`
abbrev pub months : ℕ → ℕ
months n = days (to_integral half_even (dec n *ℚ frac 3044 100)).up

abbrev pub demoted_from : Stage → (often : Bool) → Stage
demoted_from s often =
    if s == scaled then live else if s == live then micro else if often then retired else shadow

unfoldable pub demoted_stage : Env → VersionState → Datetime → Stage
demoted_stage k v window_start =
    demoted_from v.stage
      (leb k.cfg.demotion.retire_after_demotions (demotions_since v window_start + 1))

unfoldable pub demote : Env → VersionState → String → Metrics → Method StageChanged
demote k v reason m = do
  at ← now k
  let to = demoted_stage k v (at - months k.cfg.demotion.retire_window_months)
  ev ← move k (key_of v) to reason m
  act_on k v to reason
  give ev

unfoldable pub demoted : Env → VersionState → String → Metrics → Method (Option StageChanged)
demoted k v reason m = demote k v reason m >>= λ ev. give (some ev)

abbrev pub slips : Option Decimal → Decimal → Bool
slips none most = false
slips (some ratio) most = ltb_ℚ most ratio

abbrev pub micro_metrics : Option Decimal → Decimal → Band → Metrics → Metrics
micro_metrics ratio avg (lo, hi) m = insert "r_band_hi" (number hi) (
    insert "r_band_lo" (number lo)
      (insert "avg_r" (number avg) (insert "slippage_vs_model" (number_or_null ratio) m)))

abbrev pub not_ready : Env → Option Decimal → Decimal → Band → Bool
not_ready k ratio avg band =
    slips ratio k.cfg.micro.exit.max_slippage_vs_model || not (inside avg band)

-- the weekly limit on promotions to live
unfoldable pub promote_to_live : Env → VersionState → Metrics → Method (Option StageChanged)
promote_to_live k v m = do
  at ← now k
  count ← gets (Reg.promotions_to live (at - days 7))
  if leb k.cfg.limits.max_promotions_to_live_per_week count
      then give none
      else moved_to k (key_of v) live "micro targets met" m

unfoldable pub judge_micro :
    Env
    → VersionState
    → Option BacktestProfile
    → List Trade
    → List ExecutionQuality
    → Metrics
    → Method (Option StageChanged)
judge_micro k v none trades fills m = give none
judge_micro k v (some prof) trades fills m =
    let ex = k.cfg.micro.exit in
    if ltb (length trades) ex.min_trades
    then give none
    else or_fail value_error (bootstrap_mean_band k.numbers prof.trade_r (length trades) ex.band)
      >>= λ band.
          let ratio = slippage_ratio fills (some prof) in
          let avg = mean (multiples trades) in
          if not_ready k ratio avg band
          then give none
          else promote_to_live k v (micro_metrics ratio avg band m)

unfoldable pub micro_exit :
    Env → VersionState → List Trade → List ExecutionQuality → Metrics → Method (Option StageChanged)
micro_exit k v trades fills m = judge_micro k v v.profile trades fills m

abbrev pub on_target : Env → List Trade → Decimal → Bool
on_target k stage_trades sharpe =
    leb k.cfg.live.exit.min_trades (length stage_trades)
    && leb_ℚ k.cfg.live.exit.min_rolling_sharpe sharpe

-- live and scaled, by the rolling Sharpe ratio
unfoldable pub judge_sharpe :
    Env
    → VersionState
    → (stage_trades : List Trade) (sharpe : Decimal) → Metrics
    → Method (Option StageChanged)
judge_sharpe k v stage_trades sharpe m =
    let ex = k.cfg.live.exit in
    if v.stage == live && on_target k stage_trades sharpe
    then moved_to k (key_of v) scaled "live targets met" m
    else if v.stage == scaled && ltb_ℚ sharpe ex.min_rolling_sharpe
    then demoted k v (k.texts.slipped sharpe ex.min_rolling_sharpe) m
    else give none

unfoldable pub judge_findings :
    Env
    → VersionState
    → List Trade
    → List ExecutionQuality
    → Findings
    → Method (Option StageChanged)
judge_findings k v trades fills (r ∷ rs, m) =
    demoted k v (joined k.texts.demotion_reason (r ∷ rs)) m
judge_findings k v trades fills ([], m) =
    let stage_trades = keep_if (λ t. leb v.stage_since t.entry_time) trades in
    let sharpe =
      annualized_sharpe k.numbers (daily_r (last_of k.cfg.live.exit.min_trades trades)) in
    if v.stage == micro
    then micro_exit k v stage_trades fills m
    else judge_sharpe k v stage_trades sharpe (insert "rolling_sharpe" (number sharpe) m)

-- `v.money_since() or v.stage_since`
abbrev pub since : VersionState → Datetime
since v = elim (money_since v) [ none ↦ v.stage_since | some t ↦ t ]

unfoldable pub judge_money : Env → VersionState → Method (Option StageChanged)
judge_money k v =
    let trades = k.stage_data.trades (key_of v) (since v) false in
    let fills = k.stage_data.fills (key_of v) (since v) in
    or_fail value_error (demotion_reasons k.numbers k.cfg.demotion v.profile trades fills)
    >>= judge_findings k v trades fills
