-- ===== src/Execution/Views.antt =====
-- An order as the bus sees it, in packages/execution/src/autotrader/execution/order_manager.py: its status,
-- and what was last published of it.
use kometa.Prelude.{
  ℕ, Bool, true, false, ◌&&◌, String, Option, none, some, ◌==◌, string_eq, nat_beq,
}
use kometa.Core.Time.{Datetime}
use kometa.Core.Models.{Order, OrderStatus}
use kometa.Decimal.{eqb_ℚ}
use kometa.Execution.Journal.{
  TrackedOrder, OrderState, sending, pending_order, open_order, closed, cancelled, expired,
  rejected, failed,
}
use kometa.Execution.World.{Seen}

-- `STATUS`
abbrev pub status_of : OrderState → OrderStatus
status_of sending = OrderStatus.new
status_of pending_order = OrderStatus.placed
status_of open_order = OrderStatus.filled
status_of closed = OrderStatus.filled
status_of cancelled = OrderStatus.cancelled
status_of expired = OrderStatus.expired
status_of rejected = OrderStatus.rejected
status_of failed = OrderStatus.rejected

abbrev state_index : OrderState → ℕ
state_index sending = 0
state_index pending_order = 1
state_index open_order = 2
state_index closed = 3
state_index cancelled = 4
state_index expired = 5
state_index rejected = 6
state_index failed = 7

abbrev pub is_state : OrderState → TrackedOrder → Bool
is_state s t = nat_beq (state_index t.state) (state_index s)

-- `_seen`
abbrev pub seen_of : TrackedOrder → Seen
seen_of t = record {
  state = t.state;
  sl = t.sl;
  lots = t.lots;
  broker_order_id = t.broker_order_id;
}

abbrev pub same_id : Option String → Option String → Bool
same_id none none = true
same_id (some a) (some b) = a == b
same_id _ _ = false

abbrev pub same_seen : Seen → Option Seen → Bool
same_seen a none = false
same_seen a (some b) =
    nat_beq (state_index a.state) (state_index b.state)
    && eqb_ℚ a.sl b.sl
    && eqb_ℚ a.lots b.lots
    && same_id a.broker_order_id b.broker_order_id

abbrev pub order_view : TrackedOrder → Datetime → Order
order_view t time = record {
  client_order_id = t.client_order_id;
  broker_order_id = t.broker_order_id;
  account_id = t.account_id;
  tenant_id = t.tenant_id;
  strategy_id = t.strategy_id;
  strategy_version = t.strategy_version;
  symbol = t.symbol;
  side = t.side;
  entry_type = t.order_type;
  status = status_of t.state;
  lots = t.lots;
  price = t.requested_price;
  sl = t.sl;
  tp = t.tp;
  created_at = t.created_at;
  updated_at = time;
}
