-- ===== src/Execution/Service.antt =====
-- The execution service of packages/execution/src/autotrader/execution/service.py: the checks of the
-- start, and one pass of the periodic jobs.
use Prim.{Unit, tt}
use kometa.Prelude.{
  ℕ, ◌+◌, ◌-◌, zero, suc, Bool, true, false, ◌&&◌, not, String, Option, none, some, List, [], ◌∷◌,
  Result, ok, err, ltb, leb, ◌==◌, string_eq, if◌then◌else◌,
}
use kometa.Core.Time.{Datetime}
use kometa.Core.Broker.{AccountInfo, TradeMode, MarginMode}
use kometa.Core.Events.{critical}
use kometa.Execution.Journal.{TrackedOrder, open_order, active}
use kometa.Execution.World.{
  Env, World, Method, Failure, ◌>>=◌, ◌>>◌, give, catching, gets, ask, now, current,
}
use kometa.Execution.Orders.{alert}
use kometa.Execution.Views.{is_state}
use kometa.Execution.Stops.{confirm_stop}
use kometa.Execution.Deals.{sync_deals}
use kometa.Execution.Ends.{expire_pending}
use kometa.Execution.Reconcile.Report.{ReconReport}
use kometa.Execution.Reconcile.Episode.{RiskControl, run_once}
use kometa.Execution.Watchdog as Watching
use kometa.Execution.Watchdog.{Watchdog}

-- `StartupRefusedError`, by what it is about
pub data StartupRefusal : Type 0 where
  clock_skew wrong_trade_mode not_hedging wrong_account : StartupRefusal

abbrev pub distance : Datetime → Datetime → ℕ
distance a b = (a - b) + (b - a)

abbrev pub same_trade_mode : TradeMode → TradeMode → Bool
same_trade_mode TradeMode.demo TradeMode.demo = true
same_trade_mode TradeMode.contest TradeMode.contest = true
same_trade_mode TradeMode.real TradeMode.real = true
same_trade_mode _ _ = false

abbrev pub is_hedging : MarginMode → Bool
is_hedging MarginMode.hedging = true
is_hedging _ = false

abbrev pub wanted_mode : String → TradeMode
wanted_mode env = if env == "live" then TradeMode.real else TradeMode.demo

abbrev pub is_other : Option String → String → Bool
is_other none id = false
is_other (some expected) id = not (id == expected)

-- what `startup_checks` decides of the account and the time, the longest skew in microseconds
unfoldable pub judge_account :
    String → Option String → ℕ → Datetime → AccountInfo → Result StartupRefusal AccountInfo
judge_account env expected max_skew time acct =
    if ltb max_skew (distance acct.server_time time)
    then err clock_skew
    else if not (same_trade_mode acct.trade_mode (wanted_mode env))
    then err wrong_trade_mode
    else if not (is_hedging acct.margin_mode)
    then err not_hedging
    else if is_other expected acct.account_id
    then err wrong_account
    else ok acct

-- `ExecutionService`; the order manager and the reconciler have their state in the world.
pub record Service : Type 0 where
  pub watchdog : Watchdog
  pub last_recon : Option Datetime

pub record CycleResult : Type 0 where
  pub recon : Option ReconReport
  pub lost_services : List String
  pub expired : ℕ

-- `due`
abbrev pub is_due : ℕ → Datetime → Option Datetime → Bool
is_due interval time none = true
is_due interval time (some last) = leb (last + interval) time

module _ {B : Type 0} where
  unfoldable pub startup_checks :
      Env B → String → Option String → ℕ → Method B (Result StartupRefusal AccountInfo)
  startup_checks k env expected max_skew = do
    acct ← ask k.adapter.account
    time ← now k
    give (judge_account env expected max_skew time acct)

  abbrev pub confirm_one : Env B → TrackedOrder → Method B (Unit {0})
  confirm_one k t = do
    u ← current t
    if is_state open_order u && not u.stop_confirmed then (confirm_stop k u >> give tt) else give tt

  unfoldable pub confirm_all : Env B → List TrackedOrder → Method B (Unit {0})
  confirm_all k [] = give tt
  confirm_all k (t ∷ ts) = confirm_one k t >> confirm_all k ts

  -- the jobs under the `try` of `cycle`: what had expired when they ended
  abbrev pub jobs : Env B → Method B ℕ
  jobs k = do
    sync_deals k
    n ← expire_pending k
    catching (do orders ← gets (λ w. active w.state); confirm_all k orders; give n) (λ e. give n)

  -- the part of `cycle` before reconciliation
  abbrev pub watch : Env B → Service → Method B (ℕ × Watchdog)
  watch k s = do n ← catching (jobs k) (λ e. give 0); d ← Watching.check k s.watchdog; give (n, d)

  abbrev pub reconciled :
      Datetime
      → ℕ
      → Watchdog
      → Service
      → Result Failure ReconReport × World B
      → Result Failure CycleResult × (Service × World B)
  reconciled time n d s (ok report, w) = (
    ok (record { recon = some report; lost_services = Watching.sort_texts d.tripped; expired = n }),
    (record { watchdog = d; last_recon = some time }, w),
  )
  reconciled time n d s (err e, w) = (err e, (record s { watchdog = d }, w))

  abbrev pub watched :
      Env B
      → RiskControl B
      → Datetime
      → Service
      → Result Failure (ℕ × Watchdog) × World B
      → Result Failure CycleResult × (Service × World B)
  watched k risk time s (err e, w) = (err e, (s, w))
  watched k risk time s (ok (n, d), w) =
      if is_due k.cfg.reconcile_interval time s.last_recon
      then reconciled time n d s (run_once k risk w)
      else (
        ok (record { recon = none; lost_services = Watching.sort_texts d.tripped; expired = n }),
        (record s { watchdog = d }, w),
      )

  abbrev pub cycle_at :
      Env B
      → RiskControl B
      → Service
      → Result Failure Datetime × World B
      → Result Failure CycleResult × (Service × World B)
  cycle_at k risk s (err e, w) = (err e, (s, w))
  cycle_at k risk s (ok time, w) = watched k risk time s (watch k s w)

  -- `cycle`: the service it leaves too, also when it raises
  unfoldable pub cycle :
      Env B → RiskControl B → Service → World B → Result Failure CycleResult × (Service × World B)
  cycle k risk s w = cycle_at k risk s (now k w)

  abbrev pub alert_failed : Result Failure CycleResult × (Service × World B) → Service × World B
  alert_failed (ok r, (s, w)) = (s, w)
  alert_failed (err e, (s, w)) = (s, (alert critical "execution_error" "cycle failed" w).1)

  -- the turns of the loop of `run`, until it is stopped
  unfoldable pub turns : Env B → RiskControl B → ℕ → Service → World B → Service × World B
  turns k risk zero s w = (s, w)
  turns k risk (suc n) s w = let (t, v) = alert_failed (cycle k risk s w) in turns k risk n t v
