-- ===== src/Lifecycle/Evaluator/Challengers.antt =====
-- Champions and their challengers: `review_challengers`, `_maybe_rollback`, `champion_record`.
use Prim.Native.String.{compare, ◌++◌ as ◌+++◌}
use Prim.Native.Nat.{Ordering}
use kometa.Prelude.{
  Bool, true, false, ◌&&◌, ◌||◌, String, Option, none, some, List, [], ◌∷◌, ◌++◌, length, keep_if,
  sort_by, ltb, ◌==◌, string_eq, if◌then◌else◌,
}
use kometa.Core.Time.{Datetime}
use kometa.Core.Models.{shadow, retired, stage_eq, Trade}
use kometa.Core.Events.{StageChanged}
use kometa.Lifecycle.Champion.{Record, SwapVerdict, swap_test, rollback_due}
use kometa.Lifecycle.Evaluator.Metrics.{number_or_null, multiples}
use kometa.Lifecycle.Evaluator.Base.{gets, Env, Method, give, ◌>>=◌, ◌>>◌, now, ask}
use kometa.Lifecycle.Ladder.{VersionState, key_of, learned, money_stage, demotion}
use kometa.Lifecycle.Registry as Reg
use kometa.Lifecycle.Registry.{Swap}

abbrev by_exit : Trade → Trade → Bool
by_exit t u = ltb t.exit_time u.exit_time

unfoldable pub champion_record : List Trade → (since at : Datetime) → Record
champion_record trades since at = record {
  r = multiples (sort_by by_exit trades);
  first_at = since;
  last_at = at;
}

abbrev pub has_parent : VersionState → Bool
has_parent v = elim v.info.parent_version [ none ↦ false | some _ ↦ true ]

-- learned, with a parent
abbrev pub is_challenger : VersionState → Bool
is_challenger v = learned v.info.origin && has_parent v

abbrev is_below : Ordering → Bool
is_below Ordering.lt = true
is_below _ = false

abbrev pub key_before : VersionState → VersionState → Bool
key_before v w =
    is_below (compare v.info.strategy_id w.info.strategy_id)
    || (v.info.strategy_id == w.info.strategy_id
        && is_below (compare v.info.version w.info.version))

abbrev pub is_child : (strategy_id parent : String) → VersionState → Bool
is_child sid parent v =
    v.info.strategy_id == sid && elim v.info.parent_version [ none ↦ false | some p ↦ p == parent ]

abbrev pub swap_time : Option Swap → Option Datetime
swap_time none = none
swap_time (some s) = some s.at

-- the swap, when the test says so
unfoldable pub swap_if :
    Env → Bool → (sid champion challenger : String) → SwapVerdict → Method (List StageChanged)
swap_if k false sid champion challenger verdict = give []
swap_if k true sid champion challenger verdict = do
  at ← now k
  later ← now k
  both ← ask (
      Reg.swap sid champion challenger (k.texts.swap_reason verdict)
        (("diff", number_or_null verdict.diff) ∷ ("p_value", number_or_null verdict.p_value) ∷ [])
        at later)
  give (both.0 ∷ both.1 ∷ [])

-- one challenger against a champion that has money
unfoldable pub test_pair :
    Env
    → (at : Datetime) → List VersionState
    → (chal champ : VersionState) → (parent : String) → Method (List StageChanged)
test_pair k at challengers chal champ parent = do
  let sid = chal.info.strategy_id
  let a =
      champion_record (k.stage_data.trades (sid, parent) chal.stage_since false) chal.stage_since at
  let b =
      champion_record (k.stage_data.trades (sid, chal.info.version) chal.stage_since true)
        chal.stage_since at
  let n = length (keep_if (is_child sid parent) challengers)
  last ← gets (Reg.last_swap sid)
  let verdict = swap_test k.numbers a b at n (swap_time last) (k.texts.stable_seed (key_of chal))
  ask (
      Reg.record_swap_test (
        k.texts.swap_payload record {
          at = at;
          strategy_id = sid;
          champion = parent;
          challenger = chal.info.version;
          k = n;
          verdict = verdict;
          champion_signals = length a.r;
          challenger_signals = length b.r;
        }))
  swap_if k verdict.swap sid parent chal.info.version verdict

unfoldable pub review_against :
    Env
    → (at : Datetime) → List VersionState
    → VersionState
    → Option String
    → Method (List StageChanged)
review_against k at challengers chal none = give []
review_against k at challengers chal (some parent) =
    ask (Reg.get chal.info.strategy_id parent) >>= λ champ.
    if money_stage champ.stage then test_pair k at challengers chal champ parent else give []

unfoldable pub review_each :
    Env → (at : Datetime) → (challengers rest : List VersionState) → Method (List StageChanged)
review_each k at challengers [] = give []
review_each k at challengers (chal ∷ rest) = do
  changes ← review_against k at challengers chal chal.info.parent_version
  more ← review_each k at challengers rest
  give (changes ++ more)

abbrev pub is_paused : Option (String → Option String) → Bool
is_paused none = false
is_paused (some why) = elim (why "L2") [ none ↦ false | some _ ↦ true ]

unfoldable pub review_challengers : Env → Method (List StageChanged)
review_challengers k = if is_paused k.learning_paused then give [] else (do
  at ← now k
  all ← gets (Reg.versions (some shadow))
  let challengers = keep_if is_challenger all
  review_each k at challengers (sort_by key_before challengers))

-- the latest swap is one of this version, and the change is due to undo it
abbrev pub undoes : Option Swap → StageChanged → Bool
unfolding rollback_due
undoes none ev = false
undoes (some last) ev = last.new == ev.strategy_version && rollback_due last.at (some ev.at)

unfoldable pub is_demoted : StageChanged → Bool
is_demoted ev = demotion ev.from_stage ev.to_stage || ev.to_stage == retired

unfoldable pub maybe_rollback : Env → StageChanged → Method (List StageChanged)
maybe_rollback k ev = do
  last ← gets (Reg.last_swap ev.strategy_id)
  if is_demoted ev && undoes last ev
      then (do
        at ← now k
        later ← now k
        ask (
            Reg.rollback ev.strategy_id (ev.strategy_version +++ (" demoted: " +++ ev.reason)) at
              later))
      else give []
