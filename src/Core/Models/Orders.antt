-- ===== src/Core/Models/Orders.antt =====
-- Orders, fills and trades of models.py.
use kometa.Prelude.{Bool, String, Option}
use kometa.Core.Time.{Datetime}
use kometa.Core.Models.Enums.{Side, EntryType}
use kometa.Decimal.{Decimal}

pub data OrderStatus : Type 0 where
  new placed partially_filled filled cancelled rejected expired : OrderStatus

pub record Order : Type 0 where
  pub client_order_id : String
  pub broker_order_id : Option String
  pub account_id : String
  pub tenant_id : String
  pub strategy_id : String
  pub strategy_version : String
  pub symbol : String
  pub side : Side
  pub entry_type : EntryType
  pub status : OrderStatus
  pub lots : Decimal
  pub price : Option Decimal
  pub sl : Decimal
  pub tp : Option Decimal
  pub created_at : Datetime
  pub updated_at : Datetime

pub record Fill : Type 0 where
  pub client_order_id : String
  pub account_id : String
  pub tenant_id : String
  pub symbol : String
  pub side : Side
  pub price : Decimal
  pub lots : Decimal
  pub commission : Decimal
  pub spread_at_fill : Decimal
  pub requested_price : Option Decimal
  pub latency_ms : Decimal
  pub filled_at : Datetime

-- A closed round trip. `mae` and `mfe` are in R.
pub record Trade : Type 0 where
  pub trade_id : String
  pub account_id : String
  pub tenant_id : String
  pub strategy_id : String
  pub strategy_version : String
  pub symbol : String
  pub side : Side
  pub lots : Decimal
  pub entry_time : Datetime
  pub entry_price : Decimal
  pub stop_price : Decimal
  pub exit_time : Datetime
  pub exit_price : Decimal
  pub pnl_gross : Decimal
  pub costs : Decimal
  pub pnl_net : Decimal
  pub money_at_risk : Decimal
  pub r_multiple : Decimal
  pub mae : Decimal
  pub mfe : Decimal

pub record Position : Type 0 where
  pub position_id : String
  pub account_id : String
  pub tenant_id : String
  pub symbol : String
  pub side : Side
  pub lots : Decimal
  pub avg_price : Decimal
  pub sl : Option Decimal
  pub tp : Option Decimal
  pub opened_at : Datetime
  pub strategy_id : Option String
  pub strategy_version : Option String
  pub swap_accrued : Decimal
  pub external : Bool
