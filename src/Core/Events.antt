-- ===== src/Core/Events.antt =====
-- packages/core/src/autotrader/core/events.py and alerts.py: the messages of the bus, one constructor
-- per class of event, each with the time `at` first. JSON (`meta`) is its text. Bars and the requests
-- of a strategy are those of models.py.
use kometa.Prelude.{ltb, Bool, String, Option, List}
use kometa.Prelude.Dict.{Dict}
use kometa.Core.Time.{Datetime}
use kometa.Core.Models.{
  Timeframe, Stage, HaltState, Side, Signal, OrderIntent, RiskDecision, Order, Fill, Trade,
}
use kometa.Core.Broker.{Quote}
use kometa.Decimal.{Decimal}

pub data Severity : Type 0 where
  critical warning information : Severity

pub record Alert : Type 0 where
  pub severity : Severity
  pub kind : String
  pub message : String
  pub at : Datetime
  pub details : Dict String String

pub record Bar : Type 0 where
  pub symbol : String
  pub timeframe : Timeframe
  pub open_time : Datetime
  pub close_time : Datetime
  pub bid_o : Decimal
  pub bid_h : Decimal
  pub bid_l : Decimal
  pub bid_c : Decimal
  pub ask_o : Decimal
  pub ask_h : Decimal
  pub ask_l : Decimal
  pub ask_c : Decimal
  pub volume : Decimal

-- `Bar._check`: whether the bar is accepted
unfoldable pub check_bar : Bar → Bool
check_bar b = ltb b.open_time b.close_time

pub record CancelRequest : Type 0 where
  pub strategy_id : String
  pub strategy_version : String
  pub signal_id : String
  pub reason : String

pub record CloseRequest : Type 0 where
  pub strategy_id : String
  pub strategy_version : String
  pub position_id : String
  pub reason : String

pub record ModifyStopRequest : Type 0 where
  pub strategy_id : String
  pub strategy_version : String
  pub position_id : String
  pub new_stop : Decimal
  pub reason : String

pub data StrategyRequest : Type 0 where
  cancel_request : CancelRequest → StrategyRequest
  close_request : CloseRequest → StrategyRequest
  modify_stop_request : ModifyStopRequest → StrategyRequest

pub record StageChanged : Type 0 where
  pub at : Datetime
  pub strategy_id : String
  pub strategy_version : String
  pub from_stage : Stage
  pub to_stage : Stage
  pub reason : String

-- `Exposure` of events.py: an open position or a pending entry as the broker reports it
pub record ReportedExposure : Type 0 where
  pub symbol : String
  pub side : Side
  pub lots : Decimal
  pub entry : Decimal
  pub stop : Option Decimal
  pub strategy_id : Option String
  pub strategy_version : Option String
  pub position_id : Option String
  pub pending : Bool
  pub external : Bool

pub record AccountUpdate : Type 0 where
  pub at : Datetime
  pub account_id : String
  pub tenant_id : String
  pub currency : String
  pub balance : Decimal
  pub equity : Decimal
  pub free_margin : Decimal
  pub exposures : List ReportedExposure
  pub quotes : List Quote
  pub margin_per_lot : Dict String Decimal

-- `R` is the type of a risk decision's reasons.
pub data BusMessage (R : Type 0) : Type 0 where
  bar_closed : (at : Datetime) → (symbol : String) → Timeframe → Bar → BusMessage R
  quote_update : (at : Datetime) → (symbol : String) → (bid ask : Decimal) → BusMessage R
  signal_emitted : (at : Datetime) → Signal → Timeframe → (in_shadow : Bool) → BusMessage R
  order_intent_created : (at : Datetime) → OrderIntent → Timeframe → BusMessage R
  risk_decided : (at : Datetime) → RiskDecision R → BusMessage R
  order_placed : (at : Datetime) → Order → BusMessage R
  order_modified : (at : Datetime) → Order → BusMessage R
  order_filled : (at : Datetime) → Fill → BusMessage R
  order_cancelled : (at : Datetime) → (client_order_id reason : String) → BusMessage R
  position_closed : (at : Datetime) → Trade → BusMessage R
  stage_changed : StageChanged → BusMessage R
  halt_entered : (at : Datetime) → HaltState → (reason : String) → BusMessage R
  halt_cleared : (at : Datetime) → (previous : HaltState) → (actor : String) → BusMessage R
  config_changed : (at : Datetime) → (service name path config_hash : String) → BusMessage R
  model_version_activated :
      (at : Datetime) → (model_kind model_version meta : String) → BusMessage R
  heartbeat : (at : Datetime) → (service : String) → BusMessage R
  account_update : AccountUpdate → BusMessage R
  stage_snapshot : (at : Datetime) → List (String × String × Stage) → BusMessage R
  demotion_order :
      (at : Datetime)
      → (strategy_id strategy_version : String) → (close_positions : Bool) → (reason : String)
      → BusMessage R
  strategy_request : (at : Datetime) → StrategyRequest → BusMessage R
  alert_raised : (at : Datetime) → Alert → BusMessage R
  resume_requested :
      (at : Datetime) → (token : Dict String String) → (signature : String) → BusMessage R
