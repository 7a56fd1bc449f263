-- ===== src/Execution/Requests.antt =====
-- The values of a new entry, in packages/execution/src/autotrader/execution/order_manager.py: its price, its
-- expiry, its target, and the order that is tracked.
use kometa.Prelude.{
  nat_beq, ℕ, ◌*◌, ◌+◌, Bool, true, false, String, Option, none, some, ◌==◌, string_eq,
  if◌then◌else◌,
}
use kometa.Core.Time.{Datetime, minutes}
use kometa.Core.Broker.{PlaceRequest, Quote}
use kometa.Core.Models.{is_buy, is_market, Side, OrderIntent, Signal, Timeframe, tf_minutes}
use kometa.Decimal.{Decimal, dec_zero, eqb_ℚ}
use kometa.Execution.Journal.{TrackedOrder, sending}
use kometa.Execution.Orders.{round_price, half_even}

-- the requested price and the price of the order
abbrev pub market_price : Side → Quote → Decimal
market_price side q = if is_buy side then q.ask else q.bid

-- `expires_at` of `execute`
abbrev pub expiry : Signal → Timeframe → Option Datetime
expiry sig tf = if is_market sig.entry_type then none else elim sig.expiry_bars [
  | none ↦ none
  | some n ↦ if nat_beq n 0 then none else some (sig.created_at + minutes (n * tf_minutes tf))
]

abbrev pub is_zero_or_none : Option Decimal → Bool
is_zero_or_none none = true
is_zero_or_none (some x) = eqb_ℚ x dec_zero

abbrev pub rounded_target : ℕ → Option Decimal → Option Decimal
rounded_target digits none = none
rounded_target digits (some x) = some (round_price x digits half_even)

abbrev pub milliseconds : Datetime → Datetime → Decimal
milliseconds from to = record { up = to; down = from; below = 999 }

-- `ack.error or "rejected by broker"`
abbrev pub error_text : Option String → String
error_text none = "rejected by broker"
error_text (some e) = if e == "" then "rejected by broker" else e

abbrev pub tracked_of : OrderIntent → PlaceRequest → Option Decimal → Datetime → TrackedOrder
tracked_of intent req requested time = record {
  client_order_id = req.client_order_id;
  intent_id = some intent.intent_id;
  account_id = intent.account_id;
  tenant_id = intent.tenant_id;
  strategy_id = intent.signal.strategy_id;
  strategy_version = intent.signal.strategy_version;
  symbol = req.symbol;
  side = req.side;
  order_type = req.order_type;
  lots = req.lots;
  requested_price = requested;
  sl = req.sl;
  tp = req.tp;
  magic = req.magic;
  state = sending;
  broker_order_id = none;
  position_id = none;
  created_at = time;
  expires_at = req.expires_at;
  stop_confirmed = false;
  note = "";
  entry_price = none;
  initial_sl = none;
  opened_lots = none;
  filled_at = none;
  realized = dec_zero;
  costs = dec_zero;
  out_value = dec_zero;
  out_lots = dec_zero;
}
