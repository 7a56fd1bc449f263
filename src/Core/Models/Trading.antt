-- ===== src/Core/Models/Trading.antt =====
-- Instruments, signals, intents, risk decisions and halt commands of models.py.
use kometa.Prelude.{ℕ, Bool, true, ◌&&◌, ◌||◌, not, String, Option, none, some, List}
use kometa.Prelude.Dict.{Dict}
use kometa.Core.Time.{Datetime}
use kometa.Core.Models.Enums.{HaltState, halt_closes_positions, Side, EntryType, is_market, Verdict}
use kometa.Decimal.{Decimal, dec_zero, leb_ℚ, ltb_ℚ}

pub data AssetClass : Type 0 where
  fx metal index crypto : AssetClass

pub data SwapMode : Type 0 where
  points money percent : SwapMode

-- `start` and `end` are the microsecond of the day.
pub record SessionWindow : Type 0 where
  pub name : String
  pub tz : String
  pub start : ℕ
  pub end : ℕ
  pub weekdays : List ℕ

pub record Instrument : Type 0 where
  pub symbol : String
  pub asset_class : AssetClass
  pub base : String
  pub quote : String
  pub contract_size : Decimal
  pub pip_size : Decimal
  pub tick_size : Decimal
  pub min_lot : Decimal
  pub lot_step : Decimal
  pub max_lot : Decimal
  pub commission_per_lot : Decimal
  pub swap_long : Decimal
  pub swap_short : Decimal
  pub swap_mode : SwapMode
  pub triple_swap_weekday : ℕ
  pub trading_sessions : List SessionWindow
  pub daily_close : String

-- `Instrument._check_lots`: an instrument that fails it cannot be built.
abbrev pub check_lots : Instrument → Bool
check_lots i =
    ltb_ℚ dec_zero i.min_lot
    && leb_ℚ i.min_lot i.max_lot
    && not
        (leb_ℚ i.lot_step dec_zero || leb_ℚ i.tick_size dec_zero || leb_ℚ i.contract_size dec_zero)

pub record Signal : Type 0 where
  pub signal_id : String
  pub strategy_id : String
  pub strategy_version : String
  pub symbol : String
  pub side : Side
  pub entry_type : EntryType
  pub entry_price : Option Decimal
  pub stop_price : Decimal
  pub target_price : Option Decimal
  pub expiry_bars : Option ℕ
  pub created_at : Datetime
  pub reason : String
  pub tags : Dict String String

-- `Signal._check`: the stop is on the right side of a stated entry price.
abbrev pub stop_on_right_side : Side → Decimal → Decimal → Bool
stop_on_right_side Side.buy entry st = ltb_ℚ st entry
stop_on_right_side Side.sell entry st = ltb_ℚ entry st

abbrev pub check_signal : Signal → Bool
check_signal s = elim s.entry_price [
  | none ↦ is_market s.entry_type
  | some p ↦ stop_on_right_side s.side p s.stop_price
]

pub record OrderIntent : Type 0 where
  pub intent_id : String
  pub signal : Signal
  pub proposed_lots : Decimal
  pub risk_fraction : Decimal
  pub account_id : String
  pub tenant_id : String

-- The reasons are texts of the caller's.
pub record RiskDecision (R : Type 0) : Type 0 where
  pub intent_id : String
  pub verdict : Verdict
  pub approved_lots : Decimal
  pub reasons : List R
  pub limits_snapshot_hash : String
  pub decided_at : Datetime
  pub expires_at : Datetime
  pub sequence : ℕ
  pub signature : Option String

pub record HaltCommand (R : Type 0) : Type 0 where
  pub state : HaltState
  pub reason : R
  pub at : Datetime
  pub cancel_pending_entries : Bool
  pub close_positions : Bool

-- `HaltCommand.for_state`
abbrev pub for_state : {R : Type 0} → HaltState → R → Datetime → HaltCommand R
for_state s why t = record {
  state = s;
  reason = why;
  at = t;
  cancel_pending_entries = true;
  close_positions = halt_closes_positions s;
}
