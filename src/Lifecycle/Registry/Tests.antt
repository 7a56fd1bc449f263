-- ===== src/Lifecycle/Registry/Tests.antt =====
-- A champion and its learned challenger: candidates, the ladder, a swap.
use kometa.Lifecycle.Registry.Swaps.{stage_at, transition_moves, swap_exchanges}
use Prim.{tt}
use kometa.Lifecycle.Registry.Histories.{OfStrategy, IsOld}
use kometa.Lifecycle.Registry.Rollback.{rollback-swap}
use kometa.Lifecycle.Registry.Runs.{
  Op, submitting, promoting, moving, papering, perform, perform_all, fresh, load-perform_all,
}
use kometa.Lifecycle.Registry.Paper.{perform_all-IsPaper}
use kometa.Lifecycle.Registry.PaperCalls.{HasPaper}
use kometa.Prelude.Dict.{lookup}
use kometa.Lifecycle.Registry.{
  rollback, moved, rolled_back, restored_over, Registry, stage_change, no_book, load, swap,
  may_swap, transition, stage_record, changed, submit_candidate, promote_candidate, record_change,
  write, apply, get,
}
use kometa.Prelude.{
  List, [], ◌∷◌, ◌++◌, if◌then◌else◌, ◌==◌, pair_eq, string_eq, ok, true, false, none, some, refl,
  ◌≡◌, String, Option,
}
use kometa.Core.Models.{Stage, shadow, micro, stage_eq}
use kometa.Lifecycle.Reasons.{swap_in_reason, swap_out_reason}
use kometa.Lifecycle.Ladder.{
  VersionInfo, VersionState, Origin, trader, learning_reopt, Key, evaluator, legal, allowed,
  money_stage,
}

abbrev info : String → Origin → Option String → VersionInfo
info version origin parent = record {
  strategy_id = "breakout";
  version = version;
  family = "trend";
  origin = origin;
  paper_only = false;
  code_hash = "c0de";
  params = "{}";
  parent_version = parent;
  created_by = "owner";
  tenant_id = "default";
}

abbrev state : VersionInfo → Stage → VersionState
state i stage = record { info = i; stage = stage; stage_since = 1; history = []; profile = none }

abbrev champ : VersionState
champ = state (info "1.0.0" trader none) micro

abbrev chal : VersionState
chal = state (info "1.1.0" learning_reopt (some "1.0.0")) shadow

abbrev registry : Registry
registry = record {
  ledger = [];
  book = record {
    versions = (("breakout", "1.0.0"), champ) ∷ (("breakout", "1.1.0"), chal) ∷ [];
    swap_tests = [];
  };
  alerts = [];
  events = [];
}

is_legal : legal champ shadow evaluator ≡ true
unfolding legal allowed
is_legal = refl

transition_moves_example :
    let done = transition "breakout" "1.0.0" shadow "decay" evaluator [] 9 registry in
    (done.0 ≡ ok (changed champ shadow "decay" 9))
    × (done.1.ledger ≡ [] ++ stage_change (stage_record champ shadow "decay" evaluator [] 9) ∷ [])
    × ((j : Key)
        → stage_at j done.1
          ≡ (if ("breakout", "1.0.0") == j then some shadow else stage_at j registry))
transition_moves_example =
    transition_moves "breakout" "1.0.0" champ shadow "decay" evaluator [] 9 registry refl refl
      is_legal

fits : may_swap "1.0.0" champ chal ≡ true
unfolding may_swap money_stage
fits = refl

swap_exchanges_example :
    let done = swap "breakout" "1.0.0" "1.1.0" "better" [] 9 10 registry in
    (done.0
      ≡ ok (
        changed chal micro (swap_in_reason "1.0.0" "better") 9,
        changed champ shadow (swap_out_reason "1.1.0") 10,
      ))
    × (done.1.ledger
        ≡ ([]
            ++ stage_change
                (stage_record chal micro (swap_in_reason "1.0.0" "better") evaluator [] 9)
              ∷ [])
          ++ stage_change (stage_record champ shadow (swap_out_reason "1.1.0") evaluator [] 10)
            ∷ [])
    × ((j : Key)
        → stage_at j done.1 ≡ (
            if ("breakout", "1.0.0") == j
            then some shadow
            else (if ("breakout", "1.1.0") == j then some micro else stage_at j registry)))
swap_exchanges_example =
    swap_exchanges "breakout" "1.0.0" "1.1.0" "better" [] 9 10 registry champ chal refl refl refl
      refl fits

earlier : OfStrategy "breakout" (IsOld 9) registry.book.versions
earlier = (λ e. tt, (λ e. tt, tt))

rollback-swap_example :
    let done =
      rollback "breakout" "decay" 20 21
        (swap "breakout" "1.0.0" "1.1.0" "better" [] 9 10 registry).1 in
    (done.0
      ≡ ok (
          changed
            (moved (stage_record chal micro (swap_in_reason "1.0.0" "better") evaluator [] 9) chal)
            shadow
            (rolled_back "1.0.0" "decay")
            20
          ∷ changed
              (moved (stage_record champ shadow (swap_out_reason "1.1.0") evaluator [] 10) champ)
              micro
              (restored_over "1.1.0" "decay")
              21
          ∷ []))
    × ((j : Key) → stage_at j done.1 ≡ stage_at j registry)
rollback-swap_example =
    rollback-swap "breakout" "1.0.0" "1.1.0" "better" "decay" [] 9 10 20 21 registry champ chal refl
      refl refl refl fits (refl, refl) earlier

abbrev calls : List Op
calls =
    submitting (info "1.0.0" trader none) none 1
    ∷ moving "breakout" "1.0.0" micro "too early" evaluator [] 2
    ∷ promoting "breakout" "1.0.0" false false 3
    ∷ []

load-perform_all_example :
    load (perform_all calls (fresh [] no_book)).ledger
    ≡ ok (
        fresh
          (perform_all calls (fresh [] no_book)).ledger
          (perform_all calls (fresh [] no_book)).book)
load-perform_all_example = load-perform_all calls

abbrev paper_info : VersionInfo
paper_info = record (info "2.0.0" trader none) { paper_only = true }

abbrev paper_calls : List Op
paper_calls = submitting paper_info none 1 ∷ promoting "breakout" "2.0.0" false true 2 ∷ []

paper_shadow :
    (v : VersionState) × (lookup
        ("breakout", "2.0.0")
        (perform_all paper_calls (fresh [] no_book)).book.versions
      ≡ some v)
    × (v.info.paper_only ≡ true)
    × (money_stage v.stage ≡ false)
unfolding perform_all perform submit_candidate promote_candidate transition record_change write
    apply get legal allowed money_stage
paper_shadow = (_, refl, refl, refl)

perform_all-IsPaper_example :
    HasPaper
      ("breakout", "2.0.0")
      (perform_all
        (papering "breakout" "2.0.0" true 3
          ∷ moving "breakout" "2.0.0" micro "good" evaluator [] 4
          ∷ [])
        (perform_all paper_calls (fresh [] no_book))).book.versions
perform_all-IsPaper_example =
    perform_all-IsPaper ("breakout", "2.0.0") paper_calls
      (papering "breakout" "2.0.0" true 3
        ∷ moving "breakout" "2.0.0" micro "good" evaluator [] 4
        ∷ [])
      paper_shadow.0 refl paper_shadow.1 paper_shadow.2 paper_shadow.3
