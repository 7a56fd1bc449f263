-- ===== src/Execution/Calls/Tests.antt =====
-- A day of execution: an order that is open, calls of every kind, and the broker behind them.
use kometa.Execution.Orders.{stop_protects}
use Prim.{tt}
use kometa.Prelude.{
  ℕ, ◌+◌, ◌≡◌, ◌≤◌, refl, true, false, String, none, some, List, [], ◌∷◌, ok, string_eq,
}
use kometa.Core.Time.{seconds, minutes}
use kometa.Core.Broker.{
  AccountInfo, TradeMode, MarginMode, BrokerAck, BrokerPosition, client_order_id,
}
use kometa.Core.Models.{Side, EntryType, RiskDecision, Verdict, h1, HaltState, for_state}
use kometa.Decimal.{eqb_ℚ, dec, frac, dec_zero}
use kometa.Risk.Gate.Tests.{intent}
use kometa.Execution.Journal.{
  by_position, is_active, active, TrackedOrder, ExecState, empty_state, OrderState,
}
use kometa.Execution.World.{Env, World, Adapter, ExecutionConfig, now}
use kometa.Execution.Watchdog.{Watchdog, new_watchdog}
use kometa.Execution.Service.{Service, judge_account, wanted_mode, is_other}
use kometa.Execution.Startup.{judge_account_accepts}
use kometa.Execution.Entries.{execute, result}
use kometa.Execution.Reconcile.Report.{
  balance_off, untracked_orders, untracked_positions, compare_order, compare_orders, BrokerView,
  mismatches,
}
use kometa.Execution.Reconcile.Agreement.{Agreement, mismatches_none}
use kometa.Execution.Reconcile.Episode.{RiskControl}
use kometa.Execution.Kept.{Keyed}
use kometa.Execution.Steps.{Step}
use kometa.Execution.Calls.{
  Call, entry, pass, heartbeat, new_stop, close_one, halt, cancel_of, close_of, resync_by_owner,
  IsCovered, perform_all, perform_all-Step, execute_once,
}

abbrev account : AccountInfo
account = record {
  account_id = "acct-1";
  currency = "EUR";
  balance = dec 10000;
  equity = dec 10000;
  margin = dec_zero;
  free_margin = dec 10000;
  server_time = 5000000;
  trade_mode = TradeMode.demo;
  margin_mode = MarginMode.hedging;
}

abbrev done : BrokerAck
done = record {
  success = true;
  broker_order_id = some "b7";
  position_id = some "p7";
  filled_price = some (dec 2);
  filled_lots = some (frac 1 10);
  error = none;
  latency_ms = dec 12;
}

abbrev position : BrokerPosition
position = record {
  position_id = "p1";
  symbol = "EURUSD";
  side = Side.buy;
  lots = frac 1 10;
  price_open = dec 2;
  sl = some (dec 1);
  tp = none;
  magic = 7;
  comment = "at5a1c000000000000000000000000b";
  opened_at = 1000;
  profit = dec_zero;
}

-- The broker of the tests is a clock that ticks a second at each reading.
abbrev adapter : Adapter ℕ
adapter = record {
  clock = λ b. (b, b + seconds 1);
  account = λ b. (ok account, b);
  place = λ req b. (ok done, b);
  modify = λ req b. (ok done, b);
  cancel = λ id b. (ok done, b);
  close_position = λ id b. (ok done, b);
  open_positions = λ b. (ok (position ∷ []), b);
  pending_orders = λ b. (ok [], b);
  deals = λ since b. (ok [], b);
}

abbrev config : ExecutionConfig
config = record {
  reconcile_interval = minutes 1;
  heartbeat_interval = seconds 30;
  watchdog_timeout = minutes 2;
  watched_services = "engine" ∷ "risk_gate" ∷ [];
  stop_confirm_attempts = 3;
  max_quote_age = seconds 5;
  send_grace = seconds 30;
  balance_tolerance = frac 1 100;
  deal_lookback = minutes 60;
}

abbrev pub env : Env ℕ
env = record {
  adapter = adapter;
  cfg = config;
  genuine = λ d sig. true;
  hex = λ id. id;
  magic_number = λ id version. 7;
  adopted_id = λ magic. "adopted-magic-7";
  account_id = "acct-1";
  symbols = [];
  to_account = λ symbol. some (dec 1);
}

abbrev risk : RiskControl ℕ
risk = record { enter = λ why at b. (none, b); clear = λ b. (true, b) }

abbrev open_now : TrackedOrder
open_now = record {
  client_order_id = client_order_id (λ id. id) intent.intent_id;
  intent_id = some intent.intent_id;
  account_id = "acct-1";
  tenant_id = "default";
  strategy_id = "trend";
  strategy_version = "v1";
  symbol = "EURUSD";
  side = Side.buy;
  order_type = EntryType.market;
  lots = frac 1 10;
  requested_price = some (dec 2);
  sl = dec 1;
  tp = none;
  magic = 7;
  state = OrderState.open_order;
  broker_order_id = none;
  position_id = some "p1";
  created_at = 1000;
  expires_at = none;
  stop_confirmed = true;
  note = "";
  entry_price = some (dec 2);
  initial_sl = some (dec 1);
  opened_lots = some (frac 1 10);
  filled_at = some 1000;
  realized = dec_zero;
  costs = dec_zero;
  out_value = dec_zero;
  out_lots = dec_zero;
}

abbrev pub state : ExecState
state = record empty_state {
  orders = (open_now.client_order_id, open_now) ∷ [];
  seen_deals = ("d1", 2000) ∷ ("d2", 3000) ∷ [];
}

abbrev pub world : World ℕ
world = record {
  state = state;
  verifier = record { last_sequence_plus_one = 0 };
  quotes = [];
  reported = [];
  effects = [];
  broker = 5000000;
}

abbrev service : Service
service = record { watchdog = new_watchdog 4000000; last_recon = none }

abbrev pub decision : RiskDecision String
decision = record {
  intent_id = intent.intent_id;
  verdict = Verdict.approve;
  approved_lots = frac 1 10;
  reasons = [];
  limits_snapshot_hash = "77aa";
  decided_at = 100;
  expires_at = 9000000000;
  sequence = 4;
  signature = some "sig";
}

abbrev calls : List Call
calls =
    heartbeat "engine" 4500000
    ∷ entry intent decision h1
    ∷ pass
    ∷ new_stop "p1" (frac 3 2)
    ∷ cancel_of "trend" "v1" "drawdown"
    ∷ halt (for_state HaltState.daily_halt "daily loss" 6000000)
    ∷ close_of "trend" "v1" "drawdown"
    ∷ close_one "p1" "time exit"
    ∷ resync_by_owner
    ∷ []

pub state_Keyed : Keyed state.orders
unfolding Keyed
state_Keyed = (refl, (refl, tt))

perform_all-Step_example :
    Step (IsCovered env calls) world (perform_all env risk calls (service, world)).1
perform_all-Step_example = perform_all-Step env risk calls (service, world) state_Keyed

execute_once_example :
    (u : TrackedOrder) × (execute env intent decision h1
        (perform_all env risk calls (service, world)).1
      ≡ (
        ok (
            result
              (client_order_id env.hex intent.intent_id)
              (some u.state)
              false
              "duplicate intent"),
        (now env (perform_all env risk calls (service, world)).1).1,
      ))
execute_once_example =
    execute_once env risk calls (service, world) intent decision h1 open_now state_Keyed refl

judge_account_accepts_example :
    (account ≡ account)
    × (5000000 ≤ 4000000 + 2000000)
    × (4000000 ≤ 5000000 + 2000000)
    × (TradeMode.demo ≡ wanted_mode "paper")
    × (MarginMode.hedging ≡ MarginMode.hedging)
    × (is_other (some "acct-1") "acct-1" ≡ false)
unfolding judge_account
judge_account_accepts_example =
    judge_account_accepts "paper" (some "acct-1") 2000000 4000000 account account refl

abbrev seen : BrokerView
seen = record { positions = position ∷ []; orders = []; balance = dec 10000 }

nothing_wrong : mismatches config 5000000 state seen ≡ []
unfolding mismatches compare_orders active is_active compare_order eqb_ℚ stop_protects
    untracked_positions by_position untracked_orders balance_off
nothing_wrong = refl

mismatches_none_example : Agreement config 5000000 state seen
mismatches_none_example = mismatches_none config 5000000 state seen nothing_wrong
