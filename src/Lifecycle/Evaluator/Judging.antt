-- ===== src/Lifecycle/Evaluator/Judging.antt =====
-- The evaluator on all versions: which calls of the registry it makes.
use kometa.Lifecycle.Evaluator.Moves.{judge_shadow-Via, judge_money-Via}
use kometa.Core.Time.{Datetime}
use kometa.Lifecycle.Champion.{SwapVerdict}
use kometa.Lifecycle.Registry.{Registry}
use kometa.Prelude.{
  pair_eq, string_eq, ◌≡◌, refl, Bool, true, false, String, Option, none, some, List, [], ◌∷◌, ◌==◌,
}
use Prim.{tt}
use kometa.Prelude.Dict.{lookup}
use kometa.Core.Models.{shadow, stage_eq}
use kometa.Core.Events.{StageChanged}
use kometa.Lifecycle.Evaluator.{
  evaluate_all, evaluate_each, evaluate, judge_version, rollback_after,
}
use kometa.Lifecycle.Evaluator.Base.{World, Env, ask}
use kometa.Lifecycle.Evaluator.Calls.{
  Calls, Via, give-Via, now-Via, bind-Via, if_Via, ask-Via, gets-Via, ask-still,
}
use kometa.Lifecycle.Evaluator.Challengers.{
  review_challengers, review_each, review_against, test_pair, swap_if, maybe_rollback,
}
use kometa.Lifecycle.Ladder.{VersionState, Key, key_of, money_stage}
use kometa.Lifecycle.Registry as Reg
use kometa.Lifecycle.Registry.Runs.{testing, swapping, rolling_back, perform}

maybe_rollback-Via : (k : Env) (ev : StageChanged) → Via (maybe_rollback k ev)
unfolding maybe_rollback perform
maybe_rollback-Via k ev = bind-Via (gets-Via _) (λ last.
    if_Via _
      (bind-Via (now-Via k) (λ at.
        bind-Via (now-Via k)
          (λ later. ask-Via _ (rolling_back ev.strategy_id _ at later) tt (λ g. refl))))
      (give-Via []))

rollback_after-Via : (k : Env) (o : Option StageChanged) → Via (rollback_after k o)
unfolding rollback_after
rollback_after-Via k none = give-Via none
rollback_after-Via k (some ev) = bind-Via (maybe_rollback-Via k ev) (λ out. give-Via (some ev))

found_keeps : (o : Option VersionState) (g : Registry) → (Reg.found o g).1 ≡ g
found_keeps none g = refl
found_keeps (some v) g = refl

get-Via : (id version : String) → Via (ask (Reg.get id version))
unfolding Reg.get
get-Via id version = ask-still _ (λ g. found_keeps (lookup (id, version) g.book.versions) g)

evaluate-Via : (k : Env) (key : Key) → Via (evaluate k key)
unfolding evaluate judge_version
evaluate-Via k (id, version) = bind-Via (get-Via id version) (λ v.
    if_Via (v.stage == shadow) (judge_shadow-Via k v) (
      if_Via (money_stage v.stage) (bind-Via (judge_money-Via k v) (rollback_after-Via k))
        (give-Via none)))

swap_if-Via :
    (k : Env) (b : Bool) (sid champion challenger : String) (v : SwapVerdict)
    → Via (swap_if k b sid champion challenger v)
unfolding swap_if perform
swap_if-Via k false sid champion challenger v = give-Via []
swap_if-Via k true sid champion challenger v = bind-Via (now-Via k) (λ at.
    bind-Via (now-Via k) (λ later.
      bind-Via (ask-Via _ (swapping sid champion challenger _ _ at later) tt (λ g. refl))
        (λ both. give-Via _)))

test_pair-Via :
    (k : Env) (at : Datetime) (vs : List VersionState) (chal champ : VersionState) (parent : String)
    → Via (test_pair k at vs chal champ parent)
unfolding test_pair perform
test_pair-Via k at vs chal champ parent =
    bind-Via (gets-Via _)
      (λ last. bind-Via (ask-Via _ (testing _) tt (λ g. refl)) (λ u. swap_if-Via k _ _ parent _ _))

review_against-Via :
    (k : Env) (at : Datetime) (vs : List VersionState) (chal : VersionState)
    (parent : Option String)
    → Via (review_against k at vs chal parent)
unfolding review_against
review_against-Via k at vs chal none = give-Via []
review_against-Via k at vs chal (some parent) =
    bind-Via (get-Via chal.info.strategy_id parent) (λ champ.
      if_Via (money_stage champ.stage) (test_pair-Via k at vs chal champ parent) (give-Via []))

review_each-Via :
    (k : Env) (at : Datetime) (vs rest : List VersionState) → Via (review_each k at vs rest)
unfolding review_each
review_each-Via k at vs [] = give-Via []
review_each-Via k at vs (chal ∷ rest) =
    bind-Via (review_against-Via k at vs chal _)
      (λ changes. bind-Via (review_each-Via k at vs rest) (λ more. give-Via _))

review_challengers-Via : (k : Env) → Via (review_challengers k)
unfolding review_challengers
review_challengers-Via k =
    if_Via _ (give-Via [])
      (bind-Via (now-Via k) (λ at. bind-Via (gets-Via _) (λ all. review_each-Via k at _ _)))

evaluate_each-Via : (k : Env) (vs : List VersionState) → Via (evaluate_each k vs)
unfolding evaluate_each
evaluate_each-Via k [] = give-Via []
evaluate_each-Via k (v ∷ vs) =
    bind-Via (evaluate-Via k (key_of v))
      (λ ev. bind-Via (evaluate_each-Via k vs) (λ more. give-Via _))

-- All that an hourly run does to the registry, when it raises too, are some calls of four of its
-- methods: transitions in the evaluator's own name, swaps, rollbacks and records of swap tests.
pub evaluate_all-Calls : (k : Env) (w : World) → Calls w.registry (evaluate_all k w).1.registry
unfolding evaluate_all
evaluate_all-Calls k w = whole.calls w
  where
    whole : Via (evaluate_all k)
    whole = bind-Via (gets-Via _) (λ all.
        bind-Via (evaluate_each-Via k all)
          (λ changes. bind-Via (review_challengers-Via k) (λ more. give-Via _)))
