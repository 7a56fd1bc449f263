-- ===== src/Lifecycle/Evaluator/Moves.antt =====
-- The evaluator on one version: which calls of the registry it makes.
use kometa.Prelude.{
  pair_eq, string_eq, ℕ, refl, Bool, true, false, String, Option, none, some, List, [], ◌∷◌, ◌==◌,
}
use Prim.{tt}
use kometa.Core.Models.{Stage, micro, stage_eq, Trade}
use kometa.Core.Broker.{ExecutionQuality}
use kometa.Decimal.{Decimal}
use kometa.Lifecycle.Evaluator.Base.{Env, DemotionActions, cancel_pending, close_positions}
use kometa.Lifecycle.Evaluator.Calls.{
  Via, give-Via, or_fail-Via, now-Via, act-Via, bind-Via, if_Via, ask-Via, gets-Via, alert-Via,
}
use kometa.Lifecycle.Evaluator.Metrics.{Metrics, Findings}
use kometa.Lifecycle.Evaluator.Money.{
  judge_money, judge_findings, judge_sharpe, micro_exit, judge_micro, promote_to_live, demote,
  demoted, act_on, act_with, close_after, report_failure, leaves_money,
}
use kometa.Lifecycle.Evaluator.Shadow.{
  compare_shadow, move, moved_to, judge_shadow, judge_profile, leave_shadow, compare_avg, Verdict,
}
use kometa.Lifecycle.Ladder.{VersionState, BacktestProfile, Key, key_of, evaluator}
use kometa.Lifecycle.Registry.Runs.{moving, perform}

move-Via :
    (k : Env) (key : Key) (to : Stage) (reason : String) (m : Metrics)
    → Via (move k key to reason m)
unfolding move perform
move-Via k (id, version) to reason m =
    bind-Via (now-Via k)
      (λ at. ask-Via _ (moving id version to reason evaluator m at) refl (λ g. refl))

moved_to-Via :
    (k : Env) (key : Key) (to : Stage) (reason : String) (m : Metrics)
    → Via (moved_to k key to reason m)
unfolding moved_to
moved_to-Via k key to reason m = bind-Via (move-Via k key to reason m) (λ ev. give-Via (some ev))

compare_avg-Via :
    (k : Env) (prof : BacktestProfile) (ts : List Trade) (b : Bool) (m : Metrics)
    → Via (compare_avg k prof ts b m)
unfolding compare_avg
compare_avg-Via k prof [] b m = give-Via (false, m)
compare_avg-Via k prof (t ∷ ts) b m = bind-Via (or_fail-Via _ _) (λ band. give-Via _)

leave_shadow-Via : (k : Env) (key : Key) (v : Verdict) → Via (leave_shadow k key v)
unfolding leave_shadow
leave_shadow-Via k key (true, m) = moved_to-Via k key _ _ m
leave_shadow-Via k key (false, m) = moved_to-Via k key _ _ m

compare_shadow-Via :
    (k : Env) (prof : BacktestProfile) (weeks : Decimal) (signals : ℕ) (ts : List Trade)
    → Via (compare_shadow k prof weeks signals ts)
unfolding compare_shadow
compare_shadow-Via k prof weeks signals ts =
    bind-Via (or_fail-Via _ _)
      (λ rate. bind-Via (or_fail-Via _ _) (λ band. compare_avg-Via k prof ts _ _))

judge_profile-Via :
    (k : Env) (v : VersionState) (o : Option BacktestProfile) (weeks : Decimal) (signals : ℕ)
    → Via (judge_profile k v o weeks signals)
unfolding judge_profile
judge_profile-Via k v none weeks signals = give-Via none
judge_profile-Via k v (some prof) weeks signals =
    bind-Via (compare_shadow-Via k prof weeks signals _) (leave_shadow-Via k (key_of v))

pub judge_shadow-Via : (k : Env) (v : VersionState) → Via (judge_shadow k v)
unfolding judge_shadow
judge_shadow-Via k v =
    bind-Via (now-Via k) (λ at. if_Via _ (give-Via none) (judge_profile-Via k v v.profile _ _))

report_failure-Via : (k : Env) (key : Key) (o : Option String) → Via (report_failure k key o)
unfolding report_failure
report_failure-Via k key none = give-Via tt
report_failure-Via k key (some e) = bind-Via (now-Via k) (λ at. alert-Via _)

close_after-Via :
    (d : DemotionActions) (key : Key) (to : Stage) (reason : String) (o : Option String)
    → Via (close_after d key to reason o)
unfolding close_after
close_after-Via d key to reason (some e) = give-Via (some e)
close_after-Via d key to reason none =
    if_Via (leaves_money to) (act-Via d (close_positions key reason)) (give-Via none)

act_with-Via :
    (k : Env) (o : Option DemotionActions) (key : Key) (to : Stage) (reason : String)
    → Via (act_with k o key to reason)
unfolding act_with
act_with-Via k none key to reason = give-Via tt
act_with-Via k (some d) key to reason =
    bind-Via (act-Via d (cancel_pending key reason))
      (λ failed. bind-Via (close_after-Via d key to reason failed) (report_failure-Via k key))

demote-Via :
    (k : Env) (v : VersionState) (reason : String) (m : Metrics) → Via (demote k v reason m)
unfolding demote act_on
demote-Via k v reason m = bind-Via (now-Via k) (λ at.
    bind-Via (move-Via k (key_of v) _ reason m)
      (λ ev. bind-Via (act_with-Via k k.actions (key_of v) _ reason) (λ u. give-Via ev)))

demoted-Via :
    (k : Env) (v : VersionState) (reason : String) (m : Metrics) → Via (demoted k v reason m)
unfolding demoted
demoted-Via k v reason m = bind-Via (demote-Via k v reason m) (λ ev. give-Via (some ev))

promote_to_live-Via : (k : Env) (v : VersionState) (m : Metrics) → Via (promote_to_live k v m)
unfolding promote_to_live
promote_to_live-Via k v m = bind-Via (now-Via k) (λ at.
    bind-Via (gets-Via _) (λ count. if_Via _ (give-Via none) (moved_to-Via k (key_of v) _ _ m)))

judge_micro-Via :
    (k : Env) (v : VersionState) (o : Option BacktestProfile) (ts : List Trade)
    (fills : List ExecutionQuality) (m : Metrics)
    → Via (judge_micro k v o ts fills m)
unfolding judge_micro
judge_micro-Via k v none ts fills m = give-Via none
judge_micro-Via k v (some prof) ts fills m =
    if_Via _ (give-Via none)
      (bind-Via (or_fail-Via _ _) (λ band. if_Via _ (give-Via none) (promote_to_live-Via k v _)))

judge_sharpe-Via :
    (k : Env) (v : VersionState) (ts : List Trade) (sharpe : Decimal) (m : Metrics)
    → Via (judge_sharpe k v ts sharpe m)
unfolding judge_sharpe
judge_sharpe-Via k v ts sharpe m =
    if_Via _ (moved_to-Via k (key_of v) _ _ m) (if_Via _ (demoted-Via k v _ m) (give-Via none))

judge_findings-Via :
    (k : Env) (v : VersionState) (ts : List Trade) (fills : List ExecutionQuality) (f : Findings)
    → Via (judge_findings k v ts fills f)
unfolding judge_findings micro_exit
judge_findings-Via k v ts fills (r ∷ rs, m) = demoted-Via k v _ m
judge_findings-Via k v ts fills ([], m) =
    if_Via (v.stage == micro) (judge_micro-Via k v v.profile _ fills m) (judge_sharpe-Via k v _ _ _)

pub judge_money-Via : (k : Env) (v : VersionState) → Via (judge_money k v)
unfolding judge_money
judge_money-Via k v = bind-Via (or_fail-Via _ _) (judge_findings-Via k v _ _)
