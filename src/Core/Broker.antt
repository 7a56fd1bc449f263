-- ===== src/Core/Broker.antt =====
-- packages/core/src/autotrader/core/broker.py: what execution and a broker say to each other, and
-- the client order id. packages/core/src/autotrader/core/fx.py: rates from quotes.
use Prim.Native.String.{◌++◌, len, slice}
use kometa.Prelude.{
  ℕ, Bool, ◌&&◌, String, Option, none, some, Result, ok, err, ◌==◌, nat_eq, string_eq,
  if◌then◌else◌,
}
use kometa.Prelude.Dict.{Dict, lookup}
use text.Mathlib.Text.{starts_with}
use kometa.Core.Time.{Datetime}
use kometa.Core.Models.{Side, EntryType}
use kometa.Decimal.{Decimal, dec, ◌+ℚ◌, div_ℚ}

pub record Quote : Type 0 where
  pub symbol : String
  pub bid : Decimal
  pub ask : Decimal
  pub time : Datetime

pub data TradeMode : Type 0 where
  demo contest real : TradeMode

pub data MarginMode : Type 0 where
  hedging netting exchange : MarginMode

pub record AccountInfo : Type 0 where
  pub account_id : String
  pub currency : String
  pub balance : Decimal
  pub equity : Decimal
  pub margin : Decimal
  pub free_margin : Decimal
  pub server_time : Datetime
  pub trade_mode : TradeMode
  pub margin_mode : MarginMode

pub record SymbolInfo : Type 0 where
  pub symbol : String
  pub digits : ℕ
  pub point : Decimal
  pub contract_size : Decimal
  pub min_lot : Decimal
  pub lot_step : Decimal
  pub max_lot : Decimal
  pub margin_per_lot : Option Decimal
  pub trade_allowed : Bool

pub record PlaceRequest : Type 0 where
  pub client_order_id : String
  pub symbol : String
  pub side : Side
  pub order_type : EntryType
  pub lots : Decimal
  pub price : Option Decimal
  pub sl : Decimal
  pub tp : Option Decimal
  pub magic : ℕ
  pub expires_at : Option Datetime

pub record ModifyRequest : Type 0 where
  pub position_id : Option String
  pub broker_order_id : Option String
  pub sl : Option Decimal
  pub tp : Option Decimal

pub record BrokerAck : Type 0 where
  pub success : Bool
  pub broker_order_id : Option String
  pub position_id : Option String
  pub filled_price : Option Decimal
  pub filled_lots : Option Decimal
  pub error : Option String
  pub latency_ms : Decimal

pub record BrokerPosition : Type 0 where
  pub position_id : String
  pub symbol : String
  pub side : Side
  pub lots : Decimal
  pub price_open : Decimal
  pub sl : Option Decimal
  pub tp : Option Decimal
  pub magic : ℕ
  pub comment : String
  pub opened_at : Datetime
  pub profit : Decimal

pub record BrokerOrder : Type 0 where
  pub broker_order_id : String
  pub symbol : String
  pub side : Side
  pub order_type : EntryType
  pub lots : Decimal
  pub price : Decimal
  pub sl : Option Decimal
  pub tp : Option Decimal
  pub magic : ℕ
  pub comment : String
  pub created_at : Datetime
  pub expires_at : Option Datetime

pub data DealKind : Type 0 where
  trade balance : DealKind

pub data DealEntry : Type 0 where
  entry_in entry_out : DealEntry

pub record BrokerDeal : Type 0 where
  pub deal_id : String
  pub kind : DealKind
  pub position_id : String
  pub symbol : String
  pub side : Side
  pub entry : DealEntry
  pub lots : Decimal
  pub price : Decimal
  pub commission : Decimal
  pub swap : Decimal
  pub profit : Decimal
  pub time : Datetime
  pub magic : ℕ
  pub comment : String

pub record ExecutionQuality : Type 0 where
  pub client_order_id : String
  pub account_id : String
  pub tenant_id : String
  pub strategy_id : String
  pub strategy_version : String
  pub symbol : String
  pub side : Side
  pub order_type : EntryType
  pub lots : Decimal
  pub requested_price : Option Decimal
  pub filled_price : Decimal
  pub spread_at_fill : Option Decimal
  pub slippage : Option Decimal
  pub latency_ms : Decimal
  pub filled_at : Datetime

-- `CLIENT_ORDER_PREFIX`
abbrev pub client_order_prefix : String
client_order_prefix = "at"

-- `client_order_id`, from the hexadecimal digits of the intent's UUID
abbrev pub client_order_id : (hex : String → String) → String → String
client_order_id hex intent_id = client_order_prefix ++ slice (hex intent_id) 0 29

-- The texts are ASCII, so a text has as many characters as bytes.
abbrev pub is_system_comment : String → Bool
is_system_comment comment = len comment == 31 && starts_with comment client_order_prefix

-- What the code raises where a number cannot be computed: a missing key of a mapping, a division
-- by zero, or the decimal of a price that is None.
pub data DataError : Type 0 where
  key_error : String → DataError
  division_by_zero invalid_decimal : DataError

-- `rate_from_quotes`
unfoldable pub rate_from_quotes : Dict String Quote → String → String → Result DataError Decimal
rate_from_quotes quotes frm to =
    if frm == to then ok (dec 1) else elim (lookup (frm ++ to) quotes) [
      | some q ↦ div_ℚ division_by_zero (q.bid +ℚ q.ask) (dec 2)
      | none ↦ elim (lookup (to ++ frm) quotes) [
        | some q ↦ div_ℚ division_by_zero (dec 2) (q.bid +ℚ q.ask)
        | none ↦ err (key_error ("no quote to convert " ++ (frm ++ (" -> " ++ to))))
      ]
    ]
