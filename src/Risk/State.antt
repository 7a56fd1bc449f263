-- ===== src/Risk/State.antt =====
-- packages/risk/src/autotrader/risk/state.py: the persistent risk state, its file, and `escalate`.
pub mod Store
mod Tests
use kometa.Prelude.{ℕ, Bool, true, false, String, Option, none, List, [], leb, if◌then◌else◌, some}
use kometa.Core.Time.{Datetime}
use kometa.Core.Models.{HaltState, normal, daily_halt, weekly_halt, recon_halt, full_halt}
use kometa.Decimal.{Decimal}

-- `SEVERITY`
abbrev pub severity : HaltState → ℕ
severity normal = 0
severity recon_halt = 1
severity daily_halt = 2
severity weekly_halt = 3
severity full_halt = 4

pub record RiskState : Type 0 where
  pub halt : HaltState
  pub halt_reason : String
  pub halt_since : Option Datetime
  pub day_ref_equity : Option Decimal
  pub week_ref_equity : Option Decimal
  pub peak_eod_equity : Option Decimal
  pub sequence : ℕ
  pub used_nonces : List String

-- `RiskState()`
abbrev pub initial_state : RiskState
initial_state = record {
  halt = normal;
  halt_reason = "";
  halt_since = none;
  day_ref_equity = none;
  week_ref_equity = none;
  peak_eod_equity = none;
  sequence = 0;
  used_nonces = [];
}

-- `escalate`: the state after, and whether it changed
unfoldable pub escalate : RiskState → HaltState → String → Datetime → RiskState × Bool
escalate s new reason now =
    if leb (severity new) (severity s.halt)
    then (s, false)
    else (record s { halt = new; halt_reason = reason; halt_since = some now }, true)
