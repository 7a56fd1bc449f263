-- ===== src/Lifecycle/Evaluator/Tests.antt =====
-- A version with money that loses, and one in shadow: the theorems and runs at them.
use kometa.Prelude.{◌+◌, ◌≡◌, refl, true, false, none, some, [], ◌∷◌, arith}
use kometa.Core.Time.{days}
use kometa.Core.Models.{Stage, shadow, micro, Trade, buy}
use kometa.Decimal.{dec, dec_zero, frac, neg_ℚ}
use kometa.Lifecycle.Config.{PromotionConfig}
use kometa.Lifecycle.Evaluator.{evaluate_all}
use kometa.Lifecycle.Evaluator.Base.{Env, World}
use kometa.Lifecycle.Evaluator.Calls.{Calls}
use kometa.Lifecycle.Evaluator.Graduation.{Graduated, judge_shadow-Graduated}
use kometa.Lifecycle.Evaluator.Judging.{evaluate_all-Calls}
use kometa.Lifecycle.Evaluator.Money.{judge_money}
use kometa.Lifecycle.Evaluator.Outcome.{Ensures}
use kometa.Lifecycle.Evaluator.Shadow.{judge_shadow}
use kometa.Lifecycle.Evaluator.Verdicts.{Judged, judge_money-Judged}
use kometa.Lifecycle.Evaluator.Windows.{HasWindows}
use kometa.Lifecycle.Ladder.{VersionState, BacktestProfile, trader, money_stage}

abbrev cfg : PromotionConfig
cfg = record {
  shadow = record {
    risk_per_trade = dec_zero;
    exit = record { min_weeks = dec 4; min_signals = 30; band = frac 9 10 };
  };
  micro = record {
    risk_per_trade = frac 1 1000;
    exit = record { min_trades = 2; max_slippage_vs_model = frac 3 2; band = frac 9 10 };
  };
  live = record {
    risk_per_trade = frac 5 1000;
    exit = record { min_trades = 150; min_rolling_sharpe = dec 1 };
  };
  scaled = record { risk_per_trade_max = frac 1 100 };
  demotion = record {
    dd_vs_mc_p95 = frac 3 2;
    rolling_pf_window = 50;
    rolling_pf_min = dec 1;
    slippage_vs_model_max = dec 2;
    slippage_window = 50;
    drift_window = 40;
    drift_interval = frac 95 100;
    retire_after_demotions = 3;
    retire_window_months = 6;
  };
  limits = record { max_promotions_to_live_per_week = 1 };
}

abbrev loss : Trade
loss = record {
  trade_id = "t1";
  account_id = "demo";
  tenant_id = "default";
  strategy_id = "breakout";
  strategy_version = "1.0.0";
  symbol = "EURUSD";
  side = buy;
  lots = frac 1 100;
  entry_time = days 2;
  entry_price = frac 11 10;
  stop_price = frac 109 100;
  exit_time = days 3;
  exit_price = frac 107 100;
  pnl_gross = neg_ℚ (dec 30);
  costs = dec_zero;
  pnl_net = neg_ℚ (dec 30);
  money_at_risk = dec 10;
  r_multiple = record { up = 0; down = 3; below = 0 };
  mae = dec_zero;
  mfe = dec_zero;
}

abbrev env : Env
env = record {
  cfg = cfg;
  stage_data = record {
    trades = λ key since is_shadow. loss ∷ loss ∷ [];
    signal_count = λ key since. 40;
    fills = λ key since. [];
  };
  clock = λ n. days (60 + n);
  actions = some record { raised = λ done a. none };
  learning_paused = none;
  numbers = record {
    mean_band = λ sample n level. (dec_zero, dec 10);
    std = λ xs. dec 1;
    root_252 = frac 1587 100;
    bootstrap_p = λ a b seed. frac 1 2;
    cumsum = λ r. r;
    running_max = λ xs. xs;
    largest = λ xs. dec 1;
  };
  texts = record {
    demotion_reason = λ r. "drawdown";
    slipped = λ s m. "slipped";
    swap_reason = λ v. "better";
    swap_payload = λ r. "{}";
    stable_seed = λ key. 7;
  };
}

abbrev profile : BacktestProfile
profile = record {
  strategy_id = "breakout";
  strategy_version = "1.0.0";
  trade_r = dec 1 ∷ dec 2 ∷ [];
  weekly_entries = 3 ∷ 4 ∷ [];
  mc_dd_p95_r = dec 2;
  model_slippage = [];
  source = "report";
  synthetic = false;
}

abbrev version : Stage → VersionState
version stage = record {
  info = record {
    strategy_id = "breakout";
    version = "1.0.0";
    family = "trend";
    origin = trader;
    paper_only = false;
    code_hash = "c0de";
    params = "{}";
    parent_version = none;
    created_by = "owner";
    tenant_id = "default";
  };
  stage = stage;
  stage_since = days 1;
  history = [];
  profile = some profile;
}

abbrev world : Stage → World
world stage = record {
  registry = record {
    ledger = [];
    book = record { versions = (("breakout", "1.0.0"), version stage) ∷ []; swap_tests = [] };
    alerts = [];
    events = [];
  };
  readings = 0;
  done = [];
  alerts = [];
}

windows : HasWindows cfg
windows = record { drift = omega arith; min_trades = omega arith }

in_money : money_stage micro ≡ true
unfolding money_stage
in_money = refl

judge_money-Judged_example :
    Ensures
      (judge_money env (version micro))
      (world micro)
      (Judged env (version micro) (days 60) (world micro).registry [] [])
judge_money-Judged_example =
    judge_money-Judged env (version micro) (world micro) refl in_money windows
      (omega arith, omega arith)

judge_shadow-Graduated_example :
    Ensures
      (judge_shadow env (version shadow))
      (world shadow)
      (Graduated env (version shadow) (days 60) (world shadow).registry [])
judge_shadow-Graduated_example =
    judge_shadow-Graduated env (version shadow) (world shadow) refl refl (omega arith)
      (omega arith, omega arith)

evaluate_all-Calls_example :
    Calls (world micro).registry (evaluate_all env (world micro)).1.registry
evaluate_all-Calls_example = evaluate_all-Calls env (world micro)
