-- ===== src/Execution/Reconcile/Check.antt =====
-- `Reconciler.check` of packages/execution/src/autotrader/execution/reconcile.py, and the alerts of what
-- stands at the broker and is not the system's.
use Prim.{Unit, tt}
use kometa.Prelude.{
  not, String, Option, none, some, List, [], ◌∷◌, ◌++◌, keep_if, contains, string_eq,
}
use kometa.Core.Time.{Datetime}
use kometa.Core.Events.{critical}
use kometa.Execution.World.{Env, Method, ◌>>=◌, ◌>>◌, give, catching, gets, ask, now, set_state}
use kometa.Execution.Orders.{alert, save}
use kometa.Execution.Deals.{sync_deals}
use kometa.Execution.Reconcile.Texts.{broker_unreachable}
use kometa.Execution.Reconcile.Report.{BrokerView, ReconReport, mismatch, mismatches, external}

abbrev pub unreachable_report : Datetime → ReconReport
unreachable_report time = record {
  at = time;
  mismatches = mismatch broker_unreachable "" ∷ [];
  external = [];
}

module _ {B : Type 0} where
  -- `_view`
  unfoldable pub view : Env B → Method B BrokerView
  view k = do
    acct ← ask k.adapter.account
    positions ← ask k.adapter.open_positions
    orders ← ask k.adapter.pending_orders
    give (record { positions = positions; orders = orders; balance = acct.balance })

  unfoldable pub flag_each : List String → Method B (Unit {0})
  flag_each [] = give tt
  flag_each (e ∷ es) = do
    alert critical "external_position" e
    set_state (λ s. record s { alerted_external = s.alerted_external ++ (e ∷ []) })
    flag_each es

  abbrev pub save_any : Env B → List String → Method B (Unit {0})
  save_any k [] = give tt
  save_any k (e ∷ es) = save k

  -- `_flag_external`
  unfoldable pub flag_external : Env B → List String → Method B (Unit {0})
  flag_external k external = do
    flagged ← gets (λ w. w.state.alerted_external)
    let new = keep_if (λ e. not (contains e flagged)) external
    flag_each new
    save_any k new

  -- the deals and the broker's view, or that it is not reached
  unfoldable pub see : Env B → Method B (Option BrokerView)
  see k = catching (do sync_deals k; v ← view k; give (some v)) (λ e. give none)

  abbrev pub report_of : Env B → Datetime → Option BrokerView → Method B ReconReport
  report_of k time none = give (unreachable_report time)
  report_of k time (some v) = do
    out ← gets (λ w. mismatches k.cfg time w.state v)
    flag_external k (external v)
    give (record { at = time; mismatches = out; external = external v })

  unfoldable pub check : Env B → Method B ReconReport
  check k = do time ← now k; seen ← see k; report_of k time seen
