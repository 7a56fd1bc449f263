-- ===== src/Execution/Startup.antt =====
-- What the start of packages/execution/src/autotrader/execution/service.py accepts.
use kometa.Prelude.{
  not, if◌then◌else◌, Result, ℕ, ◌+◌, ◌≤◌, ◌≡◌, arith, Bool, true, false, String, Option, ok, err,
  string_eq, ltb,
}
use kometa.Core.Time.{Datetime}
use kometa.Core.Broker.{AccountInfo, TradeMode, MarginMode}
use kometa.Execution.Service.{
  StartupRefusal, clock_skew, wrong_trade_mode, not_hedging, wrong_account, wrong_trade_mode,
  StartupRefusal, judge_account, wanted_mode, is_other, same_trade_mode, is_hedging, distance,
}

same_trade_mode_eq : (x y : TradeMode) → same_trade_mode x y ≡ true → x ≡ y
same_trade_mode_eq x y h = ground arith

is_hedging_eq : (x : MarginMode) → is_hedging x ≡ true → x ≡ MarginMode.hedging
is_hedging_eq x h = ground arith

near : (a b n : ℕ) → ltb n (distance a b) ≡ false → (a ≤ b + n) × (b ≤ a + n)
near a b n h = (ground arith, ground arith)

abbrev judged :
    (skewed right hedging other : Bool) → AccountInfo → Result StartupRefusal AccountInfo
judged skewed right hedging other acct =
    if skewed
    then err clock_skew
    else if not right
    then err wrong_trade_mode
    else if not hedging
    then err not_hedging
    else if other
    then err wrong_account
    else ok acct

judged_ok :
    (skewed right hedging other : Bool) (acct used : AccountInfo)
    → judged skewed right hedging other acct ≡ ok used
    → (used ≡ acct) × (skewed ≡ false) × (right ≡ true) × (hedging ≡ true) × (other ≡ false)
judged_ok skewed right hedging other acct used h = ground arith

-- An account with which the service starts is the one that the broker reported, its time is within the
-- longest skew of the clock, it is real exactly where the environment is live and a demo account
-- elsewhere, it is a hedging account, and it is the configured one where one is configured.
pub judge_account_accepts :
    (env : String) (expected : Option String) (max_skew : ℕ) (time : Datetime)
    (acct used : AccountInfo)
    → judge_account env expected max_skew time acct ≡ ok used
    → (used ≡ acct)
      × (acct.server_time ≤ time + max_skew)
      × (time ≤ acct.server_time + max_skew)
      × (acct.trade_mode ≡ wanted_mode env)
      × (acct.margin_mode ≡ MarginMode.hedging)
      × (is_other expected acct.account_id ≡ false)
unfolding judge_account
judge_account_accepts env expected max_skew time acct used h =
    let j =
      judged_ok (ltb max_skew (distance acct.server_time time))
        (same_trade_mode acct.trade_mode (wanted_mode env)) (is_hedging acct.margin_mode)
        (is_other expected acct.account_id) acct used h in
    let n = near acct.server_time time max_skew j.1 in
    (j.0, n.0, n.1, same_trade_mode_eq _ _ j.2, is_hedging_eq _ j.3, j.4)
