-- ===== src/Lifecycle/Registry/Runs.antt =====
-- Any sequence of calls of the registry, and what a restart from its ledger gives.
use kometa.Lifecycle.Registry.Growth.{
  transition-Grows, set_profile-Grows, submit-Grows, swap-Grows, undo-Grows, promote-Grows,
  paper-Grows,
}
use kometa.Prelude.{
  ◌≡◌, refl, ap, Bool, String, Option, List, [], ◌∷◌, string_eq, pair_eq, ok, ◌>>=◌,
}
use kometa.Prelude.Dict.{Dict}
use kometa.Core.Time.{Datetime}
use kometa.Core.Models.{Stage, stage_eq}
use kometa.Lifecycle.Ladder.{VersionInfo, BacktestProfile, Actor, Metric}
use kometa.Lifecycle.Registry.{
  Registry, Book, no_book, Entry, transition, replay, load, set_profile, submit_candidate, swap,
  rollback, last_swap, record_swap_test, promote_candidate, retire, paper_trade,
}
use kometa.Lifecycle.Registry.History.{IsSound, Grows, Grows-refl, Grows-trans, swap_test-Grows}

-- A call of a method that writes.
pub data Op : Type 0 where
  submitting : VersionInfo → Option BacktestProfile → Datetime → Op
  profiling : BacktestProfile → Op
  moving :
      (id version : String) → Stage → (reason : String) → Actor → Dict String Metric → Datetime → Op
  swapping :
      (id champion challenger reason : String) → Dict String Metric → (now later : Datetime) → Op
  rolling_back : (id reason : String) → (now later : Datetime) → Op
  testing : (payload : String) → Op
  promoting : (id version : String) → (passed synthetic : Bool) → Datetime → Op
  retiring : (id version reason : String) → Datetime → Op
  papering : (id version : String) → (on : Bool) → Datetime → Op

-- the registry after a call, whether it returned or raised
unfoldable pub perform : Op → Registry → Registry
perform (submitting info p now) g = (submit_candidate info p now g).1
perform (profiling p) g = (set_profile p g).1
perform (moving id version to reason actor metrics now) g =
    (transition id version to reason actor metrics now g).1
perform (swapping id champion challenger reason metrics now later) g =
    (swap id champion challenger reason metrics now later g).1
perform (rolling_back id reason now later) g = (rollback id reason now later g).1
perform (testing payload) g = (record_swap_test payload g).1
perform (promoting id version passed synthetic now) g =
    (promote_candidate id version passed synthetic now g).1
perform (retiring id version reason now) g = (retire id version reason now g).1
perform (papering id version on now) g = (paper_trade id version on now g).1

unfoldable pub perform_all : List Op → Registry → Registry
perform_all [] g = g
perform_all (op ∷ ops) g = perform_all ops (perform op g)

pub perform-Grows : (op : Op) (g : Registry) → IsSound g → Grows g (perform op g)
unfolding perform rollback retire
perform-Grows (submitting info p now) g s = submit-Grows info p now g s
perform-Grows (profiling p) g s = set_profile-Grows p g s
perform-Grows (moving id version to reason actor metrics now) g s =
    transition-Grows id version to reason actor metrics now g s
perform-Grows (swapping id champion challenger reason metrics now later) g s =
    swap-Grows id champion challenger reason metrics now later g s
perform-Grows (rolling_back id reason now later) g s =
    undo-Grows id reason now later (last_swap id g) g s
perform-Grows (testing payload) g s = swap_test-Grows payload g s
perform-Grows (promoting id version passed synthetic now) g s =
    promote-Grows id version passed synthetic now g s
perform-Grows (retiring id version reason now) g s = transition-Grows id version _ _ _ _ now g s
perform-Grows (papering id version on now) g s = paper-Grows id version on now g s

pub perform_all-Grows : (ops : List Op) (g : Registry) → IsSound g → Grows g (perform_all ops g)
unfolding perform_all
perform_all-Grows [] g s = Grows-refl g s
perform_all-Grows (op ∷ ops) g s =
    let first = perform-Grows op g s in
    Grows-trans g (perform op g) (perform_all ops (perform op g)) first
      (perform_all-Grows ops (perform op g) first.sound)

-- A registry as `Registry(ledger, ...)` builds it from a ledger that it can replay.
abbrev pub fresh : List Entry → Book → Registry
fresh ledger b = record { ledger = ledger; book = b; alerts = []; events = [] }

pub fresh-IsSound : IsSound (fresh [] no_book)
unfolding replay
fresh-IsSound = record { replayed = refl; keyed = λ k v h. cc }

-- After any calls on a registry that began with an empty ledger, calls that raise included, a restart
-- from its ledger succeeds and gives the same versions, stages and swap tests.
pub load-perform_all :
    (ops : List Op)
    → let g = perform_all ops (fresh [] no_book) in load g.ledger ≡ ok (fresh g.ledger g.book)
unfolding load
load-perform_all ops =
    ap (λ o. o >>= λ b. ok (fresh (perform_all ops (fresh [] no_book)).ledger b))
      (perform_all-Grows ops (fresh [] no_book) fresh-IsSound).sound.replayed
