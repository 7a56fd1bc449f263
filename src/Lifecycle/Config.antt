-- ===== src/Lifecycle/Config.antt =====
-- The thresholds of the ladder in packages/lifecycle/src/autotrader/lifecycle/config.py. The bounds
-- that pydantic checks on its numbers are hypotheses of the theorems that need them.
use kometa.Prelude.{ℕ}
use kometa.Decimal.{Decimal}

pub record ShadowExit : Type 0 where
  pub min_weeks : Decimal
  pub min_signals : ℕ
  pub band : Decimal

pub record MicroExit : Type 0 where
  pub min_trades : ℕ
  pub max_slippage_vs_model : Decimal
  pub band : Decimal

pub record LiveExit : Type 0 where
  pub min_trades : ℕ
  pub min_rolling_sharpe : Decimal

pub record ShadowStage : Type 0 where
  pub risk_per_trade : Decimal
  pub exit : ShadowExit

pub record MicroStage : Type 0 where
  pub risk_per_trade : Decimal
  pub exit : MicroExit

pub record LiveStage : Type 0 where
  pub risk_per_trade : Decimal
  pub exit : LiveExit

pub record ScaledStage : Type 0 where
  pub risk_per_trade_max : Decimal

pub record Demotion : Type 0 where
  pub dd_vs_mc_p95 : Decimal
  pub rolling_pf_window : ℕ
  pub rolling_pf_min : Decimal
  pub slippage_vs_model_max : Decimal
  pub slippage_window : ℕ
  pub drift_window : ℕ
  pub drift_interval : Decimal
  pub retire_after_demotions : ℕ
  pub retire_window_months : ℕ

pub record GlobalLimits : Type 0 where
  pub max_promotions_to_live_per_week : ℕ

pub record PromotionConfig : Type 0 where
  pub shadow : ShadowStage
  pub micro : MicroStage
  pub live : LiveStage
  pub scaled : ScaledStage
  pub demotion : Demotion
  pub limits : GlobalLimits
