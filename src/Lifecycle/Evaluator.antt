-- ===== src/Lifecycle/Evaluator.antt =====
-- The `Evaluator` of packages/lifecycle/src/autotrader/lifecycle/evaluator.py: what a version's
-- numbers do to its stage.
use kometa.Prelude.{
  Bool, true, false, String, Option, none, some, List, [], ◌∷◌, ◌++◌, ok, if◌then◌else◌, ◌==◌,
}
use kometa.Core.Models.{Stage, shadow, stage_eq, Trade}
use kometa.Core.Events.{StageChanged}
use kometa.Lifecycle.Evaluator.Challengers.{maybe_rollback, review_challengers}
use kometa.Lifecycle.Evaluator.Money.{judge_money}
use kometa.Lifecycle.Evaluator.Shadow.{judge_shadow}
use kometa.Lifecycle.Evaluator.Base.{Env, World, Method, give, ◌>>=◌, ◌>>◌, ask, gets}
use kometa.Lifecycle.Ladder.{VersionState, Key, key_of, money_stage}
use kometa.Lifecycle.Registry as Reg
pub mod Moves
pub mod Windows
pub mod Base
pub mod Metrics
pub mod Shadow
pub mod Money
pub mod Challengers
pub mod Calls
pub mod Judging
pub mod Outcome
pub mod Demotions
pub mod Verdicts
pub mod Graduation
mod Tests

unfoldable pub rollback_after : Env → Option StageChanged → Method (Option StageChanged)
rollback_after k none = give none
rollback_after k (some ev) = maybe_rollback k ev >> give (some ev)

unfoldable pub judge_version : Env → VersionState → Method (Option StageChanged)
judge_version k v =
    if v.stage == shadow
    then judge_shadow k v
    else if money_stage v.stage
    then judge_money k v >>= rollback_after k
    else give none

unfoldable pub evaluate : Env → Key → Method (Option StageChanged)
evaluate k (strategy_id, version) = ask (Reg.get strategy_id version) >>= judge_version k

unfoldable pub on_trade_closed : Env → Trade → Method (Option StageChanged)
on_trade_closed k trade = evaluate k (trade.strategy_id, trade.strategy_version)

abbrev pub listed : Option StageChanged → List StageChanged
listed none = []
listed (some ev) = ev ∷ []

unfoldable pub evaluate_each : Env → List VersionState → Method (List StageChanged)
evaluate_each k [] = give []
evaluate_each k (v ∷ vs) = do
  ev ← evaluate k (key_of v)
  more ← evaluate_each k vs
  give (listed ev ++ more)

unfoldable pub evaluate_all : Env → Method (List StageChanged)
evaluate_all k = do
  all ← gets (Reg.versions none)
  changes ← evaluate_each k all
  more ← review_challengers k
  give (changes ++ more)
