-- ===== src/Lifecycle/Registry/Paper.antt =====
-- Versions that are `demo_only`, over any sequence of calls without a swap or a rollback.
use kometa.Lifecycle.Registry.PaperCalls.{
  HasPaper, get-HasPaper, if_HasPaper, transition-HasPaper, set_profile-HasPaper, submit-HasPaper,
}
use kometa.Prelude.{
  ◌≡◌, Bool, true, false, not, some, List, [], ◌∷◌, string_eq, pair_eq, arith, ◌&&◌,
}
use kometa.Prelude.Dict.{lookup}
use kometa.Core.Models.{shadow, retired, stage_eq}
use kometa.Lifecycle.Ladder.{VersionState, Key, money_stage}
use kometa.Lifecycle.Registry.{
  Registry, no_book, write, apply, record_swap_test, promote_candidate, retire, paper_trade,
}
use kometa.Lifecycle.Registry.History.{IsSound}
use kometa.Lifecycle.Registry.Runs.{
  Op, submitting, profiling, moving, swapping, rolling_back, testing, promoting, retiring, papering,
  perform, perform_all, perform-Grows, perform_all-Grows, fresh, fresh-IsSound,
}

abbrev is_swap : Op → Bool
is_swap (swapping id champion challenger reason metrics now later) = true
is_swap (rolling_back id reason now later) = true
is_swap _ = false

abbrev pub no_swaps : List Op → Bool
no_swaps [] = true
no_swaps (op ∷ ops) = not (is_swap op) && no_swaps ops

perform-HasPaper :
    (k : Key) (op : Op) (g : Registry)
    → IsSound g
    → is_swap op ≡ false
    → HasPaper k g.book.versions
    → HasPaper k (perform op g).book.versions
unfolding perform retire record_swap_test write apply promote_candidate paper_trade
perform-HasPaper k (submitting info p now) g s n h = submit-HasPaper k info p now g s h
perform-HasPaper k (profiling p) g s n h = set_profile-HasPaper k p g s h
perform-HasPaper k (moving id version to reason actor metrics now) g s n h =
    transition-HasPaper k id version to reason actor metrics now g s h
perform-HasPaper k (swapping id champion challenger reason metrics now later) g s n h = cc
perform-HasPaper k (rolling_back id reason now later) g s n h = cc
perform-HasPaper k (testing payload) g s n h = h
perform-HasPaper k (promoting id version passed synthetic now) g s n h =
    get-HasPaper k id version g _ s
      (λ v e key.
        if_HasPaper k v.info.paper_only _ _ g
          (transition-HasPaper k id version shadow _ _ _ now g s)
          (if_HasPaper k (passed && not synthetic) _ _ g
            (transition-HasPaper k id version shadow _ _ _ now g s)
            (transition-HasPaper k id version retired _ _ _ now g s)))
      h
perform-HasPaper k (retiring id version reason now) g s n h =
    transition-HasPaper k id version _ _ _ _ now g s h
perform-HasPaper k (papering id version true now) g s n h =
    transition-HasPaper k id version _ _ _ _ now g s h
perform-HasPaper k (papering id version false now) g s n h =
    transition-HasPaper k id version _ _ _ _ now g s h

split_no_swaps :
    (op : Op) (ops : List Op)
    → no_swaps (op ∷ ops) ≡ true
    → (is_swap op ≡ false) × (no_swaps ops ≡ true)
split_no_swaps op ops h = ground arith

perform_all-HasPaper :
    (k : Key) (ops : List Op) (g : Registry)
    → IsSound g
    → no_swaps ops ≡ true
    → HasPaper k g.book.versions
    → HasPaper k (perform_all ops g).book.versions
unfolding perform_all
perform_all-HasPaper k [] g s n h = h
perform_all-HasPaper k (op ∷ ops) g s n h =
    let (one, rest) = split_no_swaps op ops n in
    perform_all-HasPaper k ops (perform op g) (perform-Grows op g s).sound rest
      (perform-HasPaper k op g s one h)

-- On a registry that began with an empty ledger: a `demo_only` version that is outside the money stages
-- stays outside them, and stays `demo_only`, through any calls but swaps and rollbacks, whoever makes
-- them.
pub perform_all-IsPaper :
    (k : Key) (before ops : List Op) (v : VersionState)
    → no_swaps ops ≡ true
    → lookup k (perform_all before (fresh [] no_book)).book.versions ≡ some v
    → v.info.paper_only ≡ true
    → money_stage v.stage ≡ false
    → HasPaper k (perform_all ops (perform_all before (fresh [] no_book))).book.versions
perform_all-IsPaper k before ops v n h paper outside =
    perform_all-HasPaper k ops (perform_all before (fresh [] no_book))
      (perform_all-Grows before (fresh [] no_book) fresh-IsSound).sound n (v, h, (paper, outside))
