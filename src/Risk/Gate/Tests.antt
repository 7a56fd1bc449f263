-- ===== src/Risk/Gate/Tests.antt =====
-- One entry through the gate: a EURUSD buy of 0.5 lots beside an open position, resized to 0.2 lots by
-- the per-trade risk; and the gate's halts and tokens.
use kometa.Prelude.{
  arith, String, sym, ◌∙◌, ◌≡◌, ◌≢◌, refl, true, false, none, some, List, [], ◌∷◌, ok, contains,
  string_eq, ◌≤◌,
}
use kometa.Core.Time.{Datetime, days}
use kometa.Core.Models.{
  AssetClass, SwapMode, Instrument, check_lots, Signal, Side, EntryType, OrderIntent, Verdict,
  normal, full_halt, stop_on_right_side, micro,
}
use kometa.Decimal.{
  Decimal, dec, frac, dec_zero, ◌+ℚ◌, ◌-ℚ◌, ◌*ℚ◌, ◌≤ℚ◌, ◌<ℚ◌, abs_ℚ, leb_ℚ, ltb_ℚ, eqb_ℚ, min_ℚ,
  max_ℚ, div_ℚ, floor_ℚ, neg_ℚ,
}
use kometa.Risk.Config.{RiskLimits}
use kometa.Risk.State.{initial_state}
use kometa.Risk.Events.{event_index, high, in_blackout}
use kometa.Risk.Exposure.{
  Exposure, Snapshot, sum_where, risk_money, stop_money, notional, of_strategy, on_symbol, every,
  floor_step,
}
use kometa.Risk.Work.{reject, cap, capped_to, unless_rejected, add_reason}
use kometa.Risk.Checks.{
  Facts, per_lot_risk, trades_in, stage_limit, stage_of, after_weekly_cutoff, run_checks,
  check_halt, check_stop, check_size, check_open_risk, check_currency, check_dirs, check_leverage,
  check_margin, margin_cap, check_calendar, check_stage, judge_stage, cap_quotient,
}
use kometa.Risk.Checks.Market.{blacked_out}
use kometa.Risk.Gate.{
  Gate, GateEnv, Decision, Token, decide, assess, assess_with, entry_of, facts_of, finish,
  decision_of, final_lots, verdict_of, resume, redeem, spend,
}
use kometa.Risk.Gate.Halts.{Op, deciding, account, rollover, full, run}
use kometa.Risk.Gate.Reduces.{decide-le-proposed}
use kometa.Risk.Gate.Limits.{
  approved_guards, approved_within_risk_budgets, approved_within_leverage_and_margin,
  approved-ge-min_lot,
}
use kometa.Risk.Gate.Halts.{run_full_halt}
use kometa.Risk.Gate.Resume.{IsRefused, resume_needs, resume_once}
use kometa.Risk.Gate.History.{run-IsRecorded, IsRecorded}

abbrev limits : RiskLimits
limits = record {
  account_currency = "USD";
  risk_per_trade_default = frac 5 1000;
  risk_per_trade_max = frac 1 100;
  open_risk_per_strategy_max = frac 2 100;
  open_risk_total_max = frac 5 100;
  same_currency_same_direction_max_positions = 3;
  leverage_notional_max = dec 10;
  per_symbol_max_lots = ("default", dec 2) ∷ [];
  daily_loss_halt = frac 3 100;
  weekly_loss_halt = frac 6 100;
  peak_drawdown_full_halt = frac 10 100;
  news_blackout_minutes = 30;
  no_new_entries_after = record { weekday = 4; at = 0; tz = "America/New_York" };
  min_free_margin_ratio = dec 1;
  decision_ttl_seconds = 10;
  min_stop_spreads = dec 3;
  stage_risk_limits = ("micro", frac 1 100) ∷ [];
}

abbrev eurusd : Instrument
eurusd = record {
  symbol = "EURUSD";
  asset_class = AssetClass.fx;
  base = "EUR";
  quote = "USD";
  contract_size = dec 100000;
  pip_size = frac 1 10000;
  tick_size = frac 1 100000;
  min_lot = frac 1 100;
  lot_step = frac 1 100;
  max_lot = dec 50;
  commission_per_lot = dec 7;
  swap_long = dec_zero;
  swap_short = dec_zero;
  swap_mode = SwapMode.points;
  triple_swap_weekday = 2;
  trading_sessions = [];
  daily_close = "17:00";
}

abbrev breakout : Signal
breakout = record {
  signal_id = "8d3e";
  strategy_id = "breakout";
  strategy_version = "1.0.0";
  symbol = "EURUSD";
  side = Side.buy;
  entry_type = EntryType.market;
  entry_price = none;
  stop_price = frac 10952 10000;
  target_price = none;
  expiry_bars = none;
  created_at = days 20000;
  reason = "range broken";
  tags = [];
}

abbrev pub intent : OrderIntent
intent = record {
  intent_id = "5a1c";
  signal = breakout;
  proposed_lots = frac 1 2;
  risk_fraction = frac 1 100;
  account_id = "demo-1";
  tenant_id = "default";
}

abbrev held : Exposure
held = record {
  symbol = "EURUSD";
  side = Side.sell;
  lots = frac 1 10;
  entry = frac 11 10;
  stop = some (frac 1105 1000);
  strategy_id = some "breakout";
  pending = false;
  external = false;
}

abbrev snap : Snapshot
snap = record {
  now = days 20000;
  equity = dec 10000;
  free_margin = dec 10000;
  bid = frac 11001 10000;
  ask = frac 11002 10000;
  exposures = held ∷ [];
  instruments = ("EURUSD", eurusd) ∷ [];
  to_account = λ ccy. ok (dec 1);
  margin_per_lot = ("EURUSD", dec 3667) ∷ [];
  stages = (("breakout", "1.0.0"), micro) ∷ [];
  events = some (
      event_index
        (record { time = days 20001; currency = "USD"; impact = high; name = "NFP" } ∷ []));
}

abbrev pub gate : Gate
gate = record {
  limits_hash = "77aa";
  lim = limits;
  state = initial_state;
  saved = none;
  announced = [];
}

abbrev pub env : GateEnv
env = record { sign = λ d. "sig"; local = λ tz t. (2, 0) }

abbrev facts : Facts
facts = facts_of gate intent snap eurusd (dec 1) (frac 11002 10000)

decided :
    (x : Gate × Decision) × (decide env intent snap gate ≡ ok x)
    × (x.1.verdict ≡ Verdict.resize)
    × (eqb_ℚ x.1.approved_lots (frac 2 10) ≡ true)
unfolding decide assess assess_with entry_of run_checks check_halt check_stop check_size
    check_open_risk check_currency check_dirs check_leverage check_margin margin_cap check_calendar
    check_stage judge_stage cap_quotient finish decision_of final_lots verdict_of sum_where
    risk_money stop_money notional floor_step reject cap capped_to unless_rejected add_reason
    after_weekly_cutoff ◌+ℚ◌ ◌-ℚ◌ ◌*ℚ◌ leb_ℚ ltb_ℚ eqb_ℚ min_ℚ max_ℚ abs_ℚ div_ℚ floor_ℚ neg_ℚ
    in_blackout
decided = (_, refl, refl, refl)

abbrev decision : Decision
decision = decided.0.1

allowed : decision.verdict ≢ Verdict.reject
allowed r = resize≢reject (sym decided.2 ∙ r)
  where
    resize≢reject : ◌≡◌ {A = Verdict} Verdict.resize Verdict.reject → ⊥
    resize≢reject e = cc

valid : check_lots eurusd ≡ true
unfolding leb_ℚ ltb_ℚ
valid = refl

price : entry_of snap breakout ≡ ok (frac 11002 10000)
unfolding entry_of
price = refl

strategy_risk :
    (x : Decimal) × (sum_where
        (of_strategy "breakout")
        (risk_money limits snap)
        dec_zero
        snap.exposures
      ≡ ok x)
unfolding sum_where risk_money stop_money ◌+ℚ◌ ◌-ℚ◌ ◌*ℚ◌ max_ℚ
strategy_risk = (_, refl)

total_risk :
    (x : Decimal) × (sum_where every (risk_money limits snap) dec_zero snap.exposures ≡ ok x)
unfolding sum_where risk_money stop_money ◌+ℚ◌ ◌-ℚ◌ ◌*ℚ◌ max_ℚ
total_risk = (_, refl)

held_notional :
    (x : Decimal) × (sum_where every
        (λ e. notional snap e.symbol e.lots e.entry)
        dec_zero
        snap.exposures
      ≡ ok x)
unfolding sum_where notional ◌+ℚ◌ ◌*ℚ◌
held_notional = (_, refl)

lots_on :
    (x : Decimal) × (sum_where (on_symbol "EURUSD") (λ e. ok e.lots) dec_zero snap.exposures ≡ ok x)
unfolding sum_where ◌+ℚ◌
lots_on = (_, refl)

decide-le-proposed_example :
    (dec_zero ≤ℚ decision.approved_lots) × (decision.approved_lots ≤ℚ frac 1 2)
decide-le-proposed_example = decide-le-proposed env intent snap gate (omega arith) decided.1

approved_within_risk_budgets_example :
    (decision.approved_lots *ℚ per_lot_risk facts ≤ℚ dec 10000 *ℚ frac 1 100)
    × (decision.approved_lots *ℚ per_lot_risk facts ≤ℚ dec 10000 *ℚ frac 2 100 -ℚ strategy_risk.0)
    × (decision.approved_lots *ℚ per_lot_risk facts ≤ℚ dec 10000 *ℚ frac 5 100 -ℚ total_risk.0)
approved_within_risk_budgets_example =
    approved_within_risk_budgets env intent snap gate decided.1 allowed refl valid refl
      (omega arith) price strategy_risk.0 total_risk.0 strategy_risk.1 total_risk.1

approved_guards_example :
    (gate.state.halt ≡ normal)
    × (stop_on_right_side Side.buy (frac 11002 10000) (frac 10952 10000) ≡ true)
    × (dec 3 *ℚ (frac 11002 10000 -ℚ frac 11001 10000)
        ≤ℚ abs_ℚ (frac 11002 10000 -ℚ frac 10952 10000))
    × (dec_zero <ℚ dec 10000)
    × (blacked_out facts ≡ false)
    × (after_weekly_cutoff env.local limits snap.now ≡ false)
    × (trades_in (stage_limit facts) (stage_of facts) ≡ true)
approved_guards_example =
    approved_guards env intent snap gate decided.1 allowed refl valid refl (omega arith) price

approved_within_leverage_and_margin_example :
    (decision.approved_lots *ℚ (dec 100000 *ℚ frac 11002 10000 *ℚ dec 1)
      ≤ℚ dec 10000 *ℚ dec 10 -ℚ held_notional.0)
    × (decision.approved_lots ≤ℚ dec 2 -ℚ lots_on.0)
    × (decision.approved_lots ≤ℚ dec 50)
    × (decision.approved_lots *ℚ ((dec 1 +ℚ dec 1) *ℚ dec 3667) ≤ℚ dec 10000)
approved_within_leverage_and_margin_example =
    approved_within_leverage_and_margin env intent snap gate decided.1 allowed refl valid refl
      (omega arith) price held_notional.0 lots_on.0 (dec 2) (dec 3667) (omega arith) (omega arith)
      held_notional.1 lots_on.1 refl refl

approved-ge-min_lot_example : frac 1 100 ≤ℚ decision.approved_lots
approved-ge-min_lot_example =
    approved-ge-min_lot env intent snap gate decided.1 allowed refl valid refl (omega arith) price
      (omega arith)

-- a gate in full halt, and calls that do not clear it
abbrev halted_gate : Gate
halted_gate = record gate {
  state = record initial_state { halt = full_halt; halt_reason = "peak drawdown limit" };
}

abbrev calls : List Op
calls = deciding intent snap ∷ account (dec 10000) (days 20001) ∷ rollover (dec 10000) true ∷ []

run_full_halt_example : (run env calls halted_gate).state.halt ≡ full_halt
run_full_halt_example = run_full_halt env calls halted_gate refl refl

abbrev token : Token
token = record {
  action = some "resume_full_halt";
  expires_at = ok (days 20002);
  nonce = some "n-1";
  genuine = true;
}

accepted : (resume token (days 20001) halted_gate).1 ≡ ok true
unfolding resume redeem spend
accepted = refl

resume_needs_example :
    (full_halt ≡ full_halt)
    × (token.action ≡ some "resume_full_halt")
    × (token.genuine ≡ true)
    × ((e : Datetime) × (token.expires_at ≡ ok e) × (days 20001 ≤ e))
    × ((n : String) × (token.nonce ≡ some n)
        × (contains n halted_gate.state.used_nonces ≡ false)
        × ((resume token (days 20001) halted_gate).0.state.halt ≡ normal)
        × (contains n (resume token (days 20001) halted_gate).0.state.used_nonces ≡ true))
resume_needs_example = resume_needs token (days 20001) halted_gate accepted

resume_once_example :
    IsRefused token
      (days 20001)
      (run env (full "again" (days 20001) ∷ calls) (resume token (days 20001) halted_gate).0)
resume_once_example =
    resume_once env token token (days 20001) (days 20001) (full "again" (days 20001) ∷ calls)
      halted_gate accepted refl

run-IsRecorded_example : IsRecorded gate (run env calls gate)
run-IsRecorded_example = run-IsRecorded env calls gate refl
