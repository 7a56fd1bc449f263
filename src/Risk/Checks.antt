-- ===== src/Risk/Checks.antt =====
-- The nine checks of `RiskGate.decide`, in packages/risk/src/autotrader/risk/gate.py, in order: each
-- can only keep, reduce or reject. `Facts` holds the local variables of `decide` that they share.
pub mod Bounds
pub mod Steps
pub mod Market
pub mod Trace
use kometa.Prelude.{
  ℕ, suc, ◌+◌, Bool, true, false, ◌&&◌, ◌||◌, not, String, Option, none, some, List, [], ◌∷◌,
  Result, ok, err, ◌>>=◌, ◌==◌, ltb, leb, string_eq, pair_eq, if◌then◌else◌,
}
use kometa.Prelude.Dict.{Dict, lookup}
use kometa.Core.Time.{Datetime}
use kometa.Core.Broker.{DataError, division_by_zero}
use kometa.Core.Models.{
  Stage, stage_eq, micro, live, scaled, demo_only, HaltState, halt_eq, normal, Instrument, Signal,
  OrderIntent, is_buy,
}
use kometa.Decimal.{Decimal, dec, dec_zero, ◌+ℚ◌, ◌-ℚ◌, ◌*ℚ◌, leb_ℚ, ltb_ℚ, min_ℚ, abs_ℚ, div_ℚ}
use kometa.Risk.Config.{RiskLimits, WeeklyCutoff, max_lots, stage_limit_of}
use kometa.Risk.Events.{EventIndex, in_blackout}
use kometa.Risk.Exposure.{
  Snapshot, Exposure, Direction, currency_dirs, floor_step, sum_where, every, notional, risk_money,
  of_strategy, on_symbol, holds, count_if,
}
use kometa.Risk.Work.{
  Work, Reason, Why, halted, wrong_side, stop_too_close, no_equity, below_min_lot,
  independent_sizing, per_trade_risk, strategy_open_risk, total_open_risk, leverage, symbol_lot_cap,
  broker_max_lot, margin, demo_minimum, too_many, no_margin_data, news_blackout, weekly_cutoff,
  stage_does_not_trade, capped_to_stage_limit, reject, add_reason, cap, unless_rejected,
}

pub record Facts : Type 0 where
  pub lim : RiskLimits
  pub intent : OrderIntent
  pub snap : Snapshot
  pub halt : HaltState
  pub inst : Instrument
  pub fx : Decimal
  pub stop : Decimal
  pub entry : Decimal

abbrev pub dist : Facts → Decimal
dist f = abs_ℚ (f.entry -ℚ f.stop)

-- `per_lot_risk`
abbrev pub per_lot_risk : Facts → Decimal
per_lot_risk f = dist f *ℚ f.inst.contract_size *ℚ f.fx

abbrev pub stage_of : Facts → Option Stage
stage_of f = lookup (f.intent.signal.strategy_id, f.intent.signal.strategy_version) f.snap.stages

abbrev pub stage_limit : Facts → Decimal
stage_limit f = stage_limit_of f.lim (stage_of f)

-- 1. halt state
unfoldable pub check_halt : Facts → Work → Work
check_halt f w = if f.halt == normal then w else reject (halted f.halt) w

-- 2. stop
unfoldable pub check_stop : Facts → Work → Work
check_stop f w =
    if w.rejected
    then w
    else if (if is_buy f.intent.signal.side then leb_ℚ f.entry f.stop else leb_ℚ f.stop f.entry)
    then reject wrong_side w
    else if ltb_ℚ (dist f) (f.lim.min_stop_spreads *ℚ (f.snap.ask -ℚ f.snap.bid))
    then reject (stop_too_close f.lim.min_stop_spreads) w
    else if leb_ℚ f.snap.equity dec_zero
    then reject no_equity w
    else w

-- `rf`
abbrev pub own_fraction : Facts → Decimal
own_fraction f =
    let rf = min_ℚ f.intent.risk_fraction f.lim.risk_per_trade_max in
    if ltb_ℚ dec_zero (stage_limit f) then min_ℚ rf (stage_limit f) else rf

-- a cap of the checks, at the instrument's step and smallest size
abbrev pub capped : Facts → Decimal → Why → Work → Result DataError Work
capped f limit why w = cap limit why f.inst.lot_step f.inst.min_lot w

-- `w.cap(floor_step(room / cost, step), why, step, min_lot)`
unfoldable pub cap_quotient : Facts → Decimal → Decimal → Why → Work → Result DataError Work
cap_quotient f room cost why w = do
  q ← div_ℚ division_by_zero room cost
  limit ← floor_step q f.inst.lot_step
  capped f limit why w

-- 3. independent size
unfoldable pub check_size : Facts → Work → Result DataError Work
check_size f w = do
  q ← div_ℚ division_by_zero (f.snap.equity *ℚ own_fraction f) (per_lot_risk f)
  own ← floor_step q f.inst.lot_step
  if ltb_ℚ own f.inst.min_lot
      then ok (reject below_min_lot w)
      else capped f own independent_sizing w

-- 4. open risk
unfoldable pub check_open_risk : Facts → Work → Result DataError Work
check_open_risk f w = do
  w1 ← cap_quotient f (f.snap.equity *ℚ f.lim.risk_per_trade_max) (per_lot_risk f) per_trade_risk w
  strat ←
      sum_where (of_strategy f.intent.signal.strategy_id) (risk_money f.lim f.snap) dec_zero
        f.snap.exposures
  w2 ←
      cap_quotient f (f.snap.equity *ℚ f.lim.open_risk_per_strategy_max -ℚ strat) (per_lot_risk f)
        strategy_open_risk w1
  total ← sum_where every (risk_money f.lim f.snap) dec_zero f.snap.exposures
  cap_quotient f (f.snap.equity *ℚ f.lim.open_risk_total_max -ℚ total) (per_lot_risk f)
      total_open_risk w2

-- 5. same currency, same direction: the loop over `new_dirs` stops at the first rejection
unfoldable pub check_dirs : Facts → Dict String Direction → Work → Work
check_dirs f [] w = w
check_dirs f ((ccy, d) ∷ dirs) w =
    let rest = check_dirs f dirs w in
    let n = count_if (holds f.snap ccy d) f.snap.exposures in
    if leb f.lim.same_currency_same_direction_max_positions n
    then reject (too_many n d ccy) w
    else rest

unfoldable pub check_currency : Facts → Work → Result DataError Work
check_currency f w = ok (check_dirs f (currency_dirs f.inst f.intent.signal.side) w)

-- 6. leverage and per-symbol lot caps
unfoldable pub check_leverage : Facts → Work → Result DataError Work
check_leverage f w = do
  held ← sum_where every (λ e. notional f.snap e.symbol e.lots e.entry) dec_zero f.snap.exposures
  w1 ←
      cap_quotient f (f.snap.equity *ℚ f.lim.leverage_notional_max -ℚ held)
        (f.inst.contract_size *ℚ f.entry *ℚ f.fx) leverage w
  lots_on ← sum_where (on_symbol f.intent.signal.symbol) (λ e. ok e.lots) dec_zero f.snap.exposures
  most ← max_lots f.lim f.intent.signal.symbol
  w2 ← capped f (most -ℚ lots_on) symbol_lot_cap w1
  capped f f.inst.max_lot broker_max_lot w2

-- `mpl is None or mpl <= 0`, and the cap otherwise
unfoldable pub margin_cap : Facts → Option Decimal → Work → Result DataError Work
margin_cap f none w = ok (reject no_margin_data w)
margin_cap f (some mpl) w =
    if leb_ℚ mpl dec_zero
    then ok (reject no_margin_data w)
    else cap_quotient f f.snap.free_margin ((f.lim.min_free_margin_ratio +ℚ dec 1) *ℚ mpl) margin w

-- 7. margin
unfoldable pub check_margin : Facts → Work → Result DataError Work
unfolding margin_cap
check_margin f w = margin_cap f (lookup f.intent.signal.symbol f.snap.margin_per_lot) w

-- `now.astimezone(ZoneInfo(tz))` as the weekday and the microsecond of the day: the zone database
-- is a parameter.
abbrev pub LocalTime : Type 0
LocalTime = String → Datetime → ℕ × ℕ

-- `_after_weekly_cutoff`
unfoldable pub after_weekly_cutoff : LocalTime → RiskLimits → Datetime → Bool
after_weekly_cutoff local lim now =
    let c = lim.no_new_entries_after in
    let (weekday, at) = local c.tz now in
    ltb c.weekday weekday || (leb weekday c.weekday && leb c.weekday weekday && leb c.at at)

-- 8. news blackout and weekend cutoff
unfoldable pub check_calendar : LocalTime → Facts → Work → Result DataError Work
check_calendar local f w =
    if (elim f.snap.events [
      | none ↦ false
      | some index ↦
          in_blackout index f.snap.now (f.inst.base ∷ f.inst.quote ∷ []) f.lim.news_blackout_minutes
    ])
    then ok (reject news_blackout w)
    else if after_weekly_cutoff local f.lim f.snap.now
    then ok (reject weekly_cutoff w)
    else ok w

-- `stage in trading`: demo_only only with a limit of its own
abbrev pub trades_in : Decimal → Option Stage → Bool
trades_in limit none = false
trades_in limit (some s) =
    (s == micro || s == live || s == scaled) || (s == demo_only && ltb_ℚ dec_zero limit)

-- the cap of `demo_only` to the smallest size
abbrev pub demo_cap : Facts → Option Stage → Work → Result DataError Work
demo_cap f none w = ok w
demo_cap f (some s) w = if s == demo_only then capped f f.inst.min_lot demo_minimum w else ok w

unfoldable pub judge_stage : Facts → Work → Work
judge_stage f w =
    if trades_in (stage_limit f) (stage_of f)
    then (if ltb_ℚ (stage_limit f) f.intent.risk_fraction
        then add_reason (capped_to_stage_limit (stage_limit f)) w
        else w)
    else reject (stage_does_not_trade (stage_of f)) w

-- 9. stage
unfoldable pub check_stage : Facts → Work → Result DataError Work
check_stage f w = do w1 ← demo_cap f (stage_of f) w; ok (judge_stage f w1)

-- the checks of `decide`, one after the other
unfoldable pub run_checks : LocalTime → Facts → Work → Result DataError Work
run_checks local f w = do
  w3 ← unless_rejected (check_size f) (check_stop f (check_halt f w))
  w4 ← unless_rejected (check_open_risk f) w3
  w5 ← unless_rejected (check_currency f) w4
  w6 ← unless_rejected (check_leverage f) w5
  w7 ← unless_rejected (check_margin f) w6
  w8 ← unless_rejected (check_calendar local f) w7
  unless_rejected (check_stage f) w8
