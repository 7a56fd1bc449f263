-- ===== src/Risk/Config.antt =====
-- packages/risk/src/autotrader/risk/config.py: the signed limits.
use kometa.Prelude.{ℕ, String, Option, none, some, Result, ok, err, string_eq}
use kometa.Prelude.Dict.{Dict, lookup, get_or}
use kometa.Core.Broker.{DataError, key_error}
use kometa.Core.Models.{Stage, stage_value}
use kometa.Decimal.{Decimal, dec_zero}

-- `at` is the microsecond of the day.
pub record WeeklyCutoff : Type 0 where
  pub weekday : ℕ
  pub at : ℕ
  pub tz : String

pub record RiskLimits : Type 0 where
  pub account_currency : String
  pub risk_per_trade_default : Decimal
  pub risk_per_trade_max : Decimal
  pub open_risk_per_strategy_max : Decimal
  pub open_risk_total_max : Decimal
  pub same_currency_same_direction_max_positions : ℕ
  pub leverage_notional_max : Decimal
  pub per_symbol_max_lots : Dict String Decimal
  pub daily_loss_halt : Decimal
  pub weekly_loss_halt : Decimal
  pub peak_drawdown_full_halt : Decimal
  pub news_blackout_minutes : ℕ
  pub no_new_entries_after : WeeklyCutoff
  pub min_free_margin_ratio : Decimal
  pub decision_ttl_seconds : ℕ
  pub min_stop_spreads : Decimal
  pub stage_risk_limits : Dict String Decimal

-- `RiskLimits.max_lots`: the default is looked up first, also for a symbol that has its own cap
abbrev pub max_lots : RiskLimits → String → Result DataError Decimal
max_lots lim symbol = elim (lookup "default" lim.per_symbol_max_lots) [
  | none ↦ err (key_error "default")
  | some default ↦ ok (get_or symbol default lim.per_symbol_max_lots)
]

-- `lim.stage_risk_limits.get(stage.value, ZERO) if stage else ZERO`
abbrev pub stage_limit_of : RiskLimits → Option Stage → Decimal
stage_limit_of lim none = dec_zero
stage_limit_of lim (some s) = get_or (stage_value s) dec_zero lim.stage_risk_limits
