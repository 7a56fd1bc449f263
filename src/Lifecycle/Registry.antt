-- ===== src/Lifecycle/Registry.antt =====
-- The `Registry` of packages/lifecycle/src/autotrader/lifecycle/registry.py: an append-only ledger,
-- and the state its replay gives. A method takes the registry and returns its outcome and the
-- registry it leaves, also when it raises. `now` is what the clock says at a call. `alerts` and
-- `events` hold what the alert sink and the callback were given, the newest last.
use Prim.Native.String.{◌++◌ as ◌+++◌}
use Prim.{Unit, tt}
use kometa.Prelude.{
  ℕ, zero, suc, Bool, true, false, ◌&&◌, ◌||◌, not, String, Option, none, some, List, [], ◌∷◌, ◌++◌,
  ltb, leb, ◌==◌, string_eq, pair_eq, if◌then◌else◌, Result, ok, err, ◌>>=◌,
}
use kometa.Prelude.Dict.{Dict, lookup, insert, has_key}
use kometa.Core.Time.{Datetime}
use kometa.Core.Models.{Stage, candidate, shadow, retired, demo_only, stage_eq}
use kometa.Lifecycle.Reasons.{old_champion, swap_in_reason, swap_out_reason, rollback_mark}
use kometa.Core.Events.{StageChanged, warning, information}
use kometa.Lifecycle.Ladder.{
  VersionInfo, StageRecord, BacktestProfile, VersionState, Key, key_of, Actor, evaluator,
  validation, owner, Metric, clean, legal, learned, money_stage, demotion, LadderAlert,
  illegal_transition, stage_alert,
}
pub mod Histories
pub mod PaperCalls
pub mod Growth
pub mod History
pub mod Moves
pub mod Swaps
pub mod Latest
pub mod Undo
pub mod Rollback
pub mod Runs
pub mod Paper
mod Tests

-- A record of the ledger: `kind` and `payload`.
pub data Entry : Type 0 where
  strategy_version : VersionInfo → Datetime → Entry
  profile_of : BacktestProfile → Entry
  stage_change : StageRecord → Entry
  swap_test : String → Entry

-- What the methods raise, those of the evaluator too.
pub data Failure : Type 0 where
  key_error value_error zero_division_error illegal_transition_error : Failure

-- What a replay builds: `_v` and `swap_tests`.
pub record Book : Type 0 where
  pub versions : Dict Key VersionState
  pub swap_tests : List String

abbrev pub no_book : Book
no_book = record { versions = []; swap_tests = [] }

pub record Registry : Type 0 where
  pub ledger : List Entry
  pub book : Book
  pub alerts : List LadderAlert
  pub events : List StageChanged

abbrev pub first_state : VersionInfo → Datetime → VersionState
first_state info at = record {
  info = info;
  stage = candidate;
  stage_since = at;
  history =
      record {
        strategy_id = info.strategy_id;
        version = info.version;
        from_stage = none;
        to_stage = candidate;
        reason = "submitted";
        actor = validation;
        metrics = [];
        at = at;
      }
      ∷ [];
  profile = none;
}

abbrev pub put : Key → VersionState → Book → Book
put k v b = record b { versions = insert k v b.versions }

-- `s.model_copy(update={"stage": ..., "stage_since": ..., "history": ...})`
abbrev pub moved : StageRecord → VersionState → VersionState
moved r s = record s { stage = r.to_stage; stage_since = r.at; history = s.history ++ r ∷ [] }

abbrev pub with_profile : BacktestProfile → VersionState → VersionState
with_profile p s = record s { profile = some p }

-- `self._v[key] = f(self._v[key])`
abbrev pub change :
    Key → (VersionState → VersionState) → Option VersionState → Book → Result Failure Book
change k f none b = err key_error
change k f (some s) b = ok (put k (f s) b)

-- `_apply`
unfoldable pub apply : Entry → Book → Result Failure Book
apply (strategy_version info at) b =
    ok (put (info.strategy_id, info.version) (first_state info at) b)
apply (profile_of p) b =
    change (p.strategy_id, p.strategy_version) (with_profile p)
      (lookup (p.strategy_id, p.strategy_version) b.versions) b
apply (swap_test payload) b = ok record b { swap_tests = b.swap_tests ++ payload ∷ [] }
apply (stage_change r) b =
    change (r.strategy_id, r.version) (moved r) (lookup (r.strategy_id, r.version) b.versions) b

unfoldable pub replay : List Entry → Book → Result Failure Book
replay [] b = ok b
replay (e ∷ es) b = apply e b >>= replay es

-- A registry over a new sink and callback; the constructor raises what the replay raises.
unfoldable pub load : List Entry → Result Failure Registry
load ledger =
    replay ledger no_book >>= λ b. ok record { ledger = ledger; book = b; alerts = []; events = [] }

-- A method: what it returns or raises, and the registry it leaves.
abbrev pub Method : Type 0 → Type 0
Method A = Registry → Result Failure A × Registry

abbrev pub return : {A : Type 0} → A → Method A
return a g = (ok a, g)

abbrev pub raise : {A : Type 0} → Failure → Method A
raise e g = (err e, g)

abbrev pub after :
    {A B : Type 0} → Result Failure A × Registry → (A → Method B) → Result Failure B × Registry
after (ok a, g) f = f a g
after (err e, g) f = (err e, g)

infixl 5 ◌then◌
abbrev pub ◌then◌ : {A B : Type 0} → Method A → (A → Method B) → Method B
(m then f) g = after (m g) f

abbrev pub found : Option VersionState → Method VersionState
found none = raise key_error
found (some v) = return v

unfoldable pub get : String → String → Method VersionState
get strategy_id version g = found (lookup (strategy_id, version) g.book.versions) g

abbrev select : Option Stage → VersionState → Bool
select none v = true
select (some s) v = v.stage == s

abbrev select_all : Option Stage → Dict Key VersionState → List VersionState
select_all stage [] = []
select_all stage ((k, v) ∷ d) =
    let rest = select_all stage d in if select stage v then v ∷ rest else rest

unfoldable pub versions : Option Stage → Registry → List VersionState
versions stage g = select_all stage g.book.versions

abbrev pub stages_in : Dict Key VersionState → Dict Key Stage
stages_in [] = []
stages_in ((k, v) ∷ d) = (k, v.stage) ∷ stages_in d

unfoldable pub stages : Registry → Dict Key Stage
stages g = stages_in g.book.versions

abbrev count_entries : Stage → Datetime → List StageRecord → ℕ
count_entries stage since [] = zero
count_entries stage since (h ∷ hs) =
    let rest = count_entries stage since hs in
    if h.to_stage == stage && leb since h.at then suc rest else rest

abbrev count_promotions : Stage → Datetime → Dict Key VersionState → ℕ
count_promotions stage since [] = zero
count_promotions stage since ((k, v) ∷ d) =
    Prim.Native.Nat.◌+◌ (count_entries stage since v.history) (count_promotions stage since d)

unfoldable pub promotions_to : Stage → Datetime → Registry → ℕ
promotions_to stage since g = count_promotions stage since g.book.versions

abbrev pub logged : Entry → Registry → Registry
logged e g = record g { ledger = g.ledger ++ e ∷ [] }

abbrev pub set_book : Result Failure Book → Method (Unit {0})
set_book (ok b) g = (ok tt, record g { book = b })
set_book (err e) g = (err e, g)

-- `self.ledger.append(kind, payload)`, then `self._apply(kind, payload)`
unfoldable pub write : Entry → Method (Unit {0})
write e g = set_book (apply e g.book) (logged e g)

unfoldable pub set_profile : BacktestProfile → Method (Unit {0})
set_profile p = get p.strategy_id p.strategy_version then λ v. write (profile_of p)

abbrev pub maybe_profile : Option BacktestProfile → Method (Unit {0})
maybe_profile none = return tt
maybe_profile (some p) = set_profile p

unfoldable pub submit_candidate :
    VersionInfo → Option BacktestProfile → Datetime → Method VersionState
submit_candidate info p now g =
    (if has_key (info.strategy_id, info.version) g.book.versions
        then raise value_error
        else write (strategy_version info now) then λ u.
            maybe_profile p then λ w. get info.strategy_id info.version)
      g

abbrev pub alarm : LadderAlert → Registry → Registry
alarm a g = record g { alerts = g.alerts ++ a ∷ [] }

-- `_illegal`
unfoldable pub illegal : {A : Type 0} → Datetime → Method A
illegal now g = (err illegal_transition_error, alarm (illegal_transition now) g)

abbrev pub stage_record :
    VersionState → Stage → String → Actor → Dict String Metric → Datetime → StageRecord
stage_record v to reason actor metrics now = record {
  strategy_id = v.info.strategy_id;
  version = v.info.version;
  from_stage = some v.stage;
  to_stage = to;
  reason = reason;
  actor = actor;
  metrics = clean metrics;
  at = now;
}

abbrev pub changed : VersionState → Stage → String → Datetime → StageChanged
changed v to reason now = record {
  at = now;
  strategy_id = v.info.strategy_id;
  strategy_version = v.info.version;
  from_stage = v.stage;
  to_stage = to;
  reason = reason;
}

abbrev pub change_alert : VersionState → Stage → String → Datetime → LadderAlert
change_alert v to reason now =
    let demoted = demotion v.stage to || to == retired in
    stage_alert (if demoted then warning else information) demoted (key_of v) v.stage to reason now

-- the alert, then the callback
abbrev pub announce : LadderAlert → StageChanged → Method StageChanged
announce a event g =
    (ok event, record g { alerts = g.alerts ++ a ∷ []; events = g.events ++ event ∷ [] })

-- `_record`
unfoldable pub record_change :
    VersionState → Stage → String → Actor → Dict String Metric → Datetime → Method StageChanged
record_change v to reason actor metrics now =
    write (stage_change (stage_record v to reason actor metrics now)) then λ u.
    announce (change_alert v to reason now) (changed v to reason now)

abbrev pub guarded : {A : Type 0} → Bool → Datetime → Method A → Method A
guarded true now m = m
guarded false now m = illegal now

unfoldable pub transition :
    String → String → Stage → String → Actor → Dict String Metric → Datetime → Method StageChanged
transition strategy_id version to reason actor metrics now = get strategy_id version then λ v.
    guarded (legal v to actor) now (record_change v to reason actor metrics now)

abbrev pub is_parent : String → Option String → Bool
is_parent champion none = false
is_parent champion (some p) = p == champion

unfoldable pub may_swap : String → VersionState → VersionState → Bool
may_swap champion champ chal =
    learned chal.info.origin
    && is_parent champion chal.info.parent_version
    && chal.stage == shadow
    && money_stage champ.stage

-- `swap`; `now` and `later` are the clock at its two records
unfoldable pub swap :
    String
    → String
    → String
    → String
    → Dict String Metric
    → Datetime
    → Datetime
    → Method (StageChanged × StageChanged)
swap strategy_id champion challenger reason metrics now later =
    get strategy_id champion then λ champ. get strategy_id challenger then λ chal.
    guarded (may_swap champion champ chal) now (
      record_change chal champ.stage (swap_in_reason champion reason) evaluator metrics now
      then λ a. record_change champ shadow (swap_out_reason challenger) evaluator [] later then λ b.
          return (a, b))

pub record Swap : Type 0 where
  pub at : Datetime
  pub new : String
  pub old : String
  pub stage : Stage

abbrev pub newer : Datetime → Option Swap → Bool
newer at none = true
newer at (some best) = ltb best.at at

abbrev pub swap_of : StageRecord → Option String → Option Swap → Option Swap
swap_of h none best = best
swap_of h (some old) best =
    if newer h.at best
    then some record { at = h.at; new = h.version; old = old; stage = h.to_stage }
    else best

abbrev pub swaps_in : List StageRecord → Option Swap → Option Swap
swaps_in [] best = best
swaps_in (h ∷ hs) best = swaps_in hs (swap_of h (old_champion h.reason) best)

abbrev pub latest_swap : String → Dict Key VersionState → Option Swap → Option Swap
latest_swap strategy_id [] best = best
latest_swap strategy_id ((k, v) ∷ d) best =
    latest_swap strategy_id d
      (if v.info.strategy_id == strategy_id then swaps_in v.history best else best)

unfoldable pub last_swap : String → Registry → Option Swap
last_swap strategy_id g = latest_swap strategy_id g.book.versions none

abbrev pub when : Bool → Method StageChanged → Method (List StageChanged)
when true m = m then λ a. return (a ∷ [])
when false m = return []

-- `f"{ROLLBACK} {old}: {reason}"`
abbrev pub rolled_back : String → String → String
rolled_back old reason = ((rollback_mark +++ " ") +++ old) +++ (": " +++ reason)

-- `f"{ROLLBACK} restored over {new}: {reason}"`
abbrev pub restored_over : String → String → String
restored_over new reason = ((rollback_mark +++ " restored over ") +++ new) +++ (": " +++ reason)

-- the body of `rollback` once a swap is found
abbrev pub undo : String → String → Datetime → Datetime → Option Swap → Method (List StageChanged)
undo strategy_id reason now later none = illegal now
undo strategy_id reason now later (some last) = get strategy_id last.old then λ old_v.
    get strategy_id last.new then λ new_v. guarded (old_v.stage == shadow) now (
      when (not (new_v.stage == shadow))
        (record_change new_v shadow (rolled_back last.old reason) evaluator [] now)
      then λ out.
          record_change old_v last.stage (restored_over last.new reason) evaluator [] later
          then λ b. return (out ++ b ∷ []))

unfoldable pub rollback : String → String → Datetime → Datetime → Method (List StageChanged)
rollback strategy_id reason now later g =
    undo strategy_id reason now later (last_swap strategy_id g) g

unfoldable pub record_swap_test : String → Method (Unit {0})
record_swap_test payload = write (swap_test payload)

abbrev pub no_metrics : Dict String Metric
no_metrics = []

unfoldable pub promote_candidate : String → String → Bool → Bool → Datetime → Method StageChanged
promote_candidate strategy_id version validation_passed synthetic now =
    get strategy_id version then λ v.
    if v.info.paper_only
    then transition strategy_id version shadow "demo_only: plumbing test" validation no_metrics now
    else if validation_passed && not synthetic
    then transition strategy_id version shadow "passed validation" validation no_metrics now
    else transition strategy_id version retired
        (if validation_passed then "validated on synthetic data only" else "failed validation")
        validation no_metrics now

unfoldable pub retire : String → String → String → Datetime → Method StageChanged
retire strategy_id version reason now =
    transition strategy_id version retired reason owner no_metrics now

unfoldable pub paper_trade : String → String → Bool → Datetime → Method StageChanged
paper_trade strategy_id version true now =
    transition strategy_id version demo_only "owner: paper trading" owner no_metrics now
paper_trade strategy_id version false now =
    transition strategy_id version shadow "owner: back to shadow" owner no_metrics now
