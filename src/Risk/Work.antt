-- ===== src/Risk/Work.antt =====
-- `_Work` of packages/risk/src/autotrader/risk/gate.py: the size that the checks reduce. A reason
-- is a constructor for each text that the gate writes, with the values that the text shows.
pub mod Bounds
use kometa.Prelude.{
  ℕ, Bool, true, false, ◌||◌, String, Option, List, [], ◌∷◌, ◌++◌, Result, ok, err, ◌>>=◌,
  if◌then◌else◌,
}
use kometa.Core.Broker.{DataError}
use kometa.Core.Models.{Stage, HaltState}
use kometa.Decimal.{Decimal, dec_zero, leb_ℚ, ltb_ℚ, max_ℚ}
use kometa.Risk.Exposure.{Direction, floor_step}

-- What a cap is for.
pub data Why : Type 0 where
  independent_sizing per_trade_risk strategy_open_risk total_open_risk leverage : Why
  symbol_lot_cap broker_max_lot margin demo_minimum : Why

pub data Reason : Type 0 where
  unknown_instrument : String → Reason
  halted : HaltState → Reason
  wrong_side : Reason
  stop_too_close : Decimal → Reason
  no_equity : Reason
  below_min_lot : Reason
  no_room : Why → Reason
  resized : Why → Reason
  too_many : ℕ → Direction → String → Reason
  no_margin_data : Reason
  news_blackout : Reason
  weekly_cutoff : Reason
  stage_does_not_trade : Option Stage → Reason
  capped_to_stage_limit : Decimal → Reason
  missing_data : DataError → Reason
  stated : String → Reason

pub record Work : Type 0 where
  pub lots : Decimal
  pub reasons : List Reason
  pub rejected : Bool

-- `_Work.reject`
unfoldable pub reject : Reason → Work → Work
reject why w = record { lots = dec_zero; reasons = w.reasons ++ why ∷ []; rejected = true }

-- `self.reasons.append`
unfoldable pub add_reason : Reason → Work → Work
add_reason why w = record w { reasons = w.reasons ++ why ∷ [] }

-- the size that `_Work.cap` has computed, if it is no less than the smallest one
unfoldable pub capped_to : Decimal → Why → Decimal → Work → Work
unfolding reject
capped_to capped why min_lot w =
    if ltb_ℚ capped min_lot
    then reject (no_room why) w
    else record w { lots = capped; reasons = w.reasons ++ resized why ∷ [] }

-- `_Work.cap`
unfoldable pub cap : Decimal → Why → Decimal → Decimal → Work → Result DataError Work
unfolding capped_to
cap limit why step min_lot w =
    if w.rejected || leb_ℚ w.lots limit
    then ok w
    else (do capped ← floor_step (max_ℚ limit dec_zero) step; ok (capped_to capped why min_lot w))

-- `if not w.rejected:` around a check
unfoldable pub unless_rejected : (Work → Result DataError Work) → Work → Result DataError Work
unless_rejected check w = if w.rejected then ok w else check w
