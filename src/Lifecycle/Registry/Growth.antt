-- ===== src/Lifecycle/Registry/Growth.antt =====
-- The methods of the registry, one at a time: what each appends to the ledger.
use kometa.Prelude.{
  ◌≡◌, refl, sym, ◌∙◌, ap, inl, inr, Bool, true, false, not, String, Option, none, some, [], ◌∷◌,
  ◌++◌, ◌==◌, string_eq, pair_eq, if◌then◌else◌, Result, ok, err, Option-cases, ◌&&◌,
}
use mathlib.Core.Path.{subst}
use kometa.Prelude.Dict.{Dict, lookup, has_key}
use kometa.Core.Time.{Datetime}
use kometa.Core.Models.{Stage, shadow, retired, stage_eq}
use kometa.Lifecycle.Reasons.{swap_in_reason, swap_out_reason}
use kometa.Core.Events.{StageChanged}
use kometa.Lifecycle.Ladder.{
  VersionState, VersionInfo, BacktestProfile, key_of, Actor, evaluator, Metric, legal,
  illegal_transition,
}
use kometa.Lifecycle.Registry.{
  Registry, Failure, value_error, strategy_version, profile_of, Method, get, found, transition,
  guarded, illegal, record_change, after, write, apply, change, first_state, with_profile,
  set_profile, submit_candidate, maybe_profile, swap, may_swap, undo, when, Swap, rolled_back,
  restored_over, return, promote_candidate, paper_trade, raise, ◌then◌,
}
use kometa.Lifecycle.Registry.Moves.{get-some, get-none}
use kometa.Lifecycle.Registry.History.{
  IsKnown, IsSound, Grows, Grows-refl, Grows-trans, write-put-Grows, record_change-Grows,
  alarm-Grows,
}

-- A method keeps the registry sound and its ledger append-only, started here.
abbrev Keeps : {A : Type 0} → Method A → Registry → Type 0
Keeps m g = IsSound g → Grows g (m g).1

after-Grows :
    {A B : Type 0} (g : Registry) (o : Result Failure A × Registry) (f : A → Method B)
    → Grows g o.1
    → ((a : A) → Keeps (f a) o.1)
    → Grows g (after o f).1
after-Grows g (ok a, x) f h k = Grows-trans g x (f a x).1 h (k a h.sound)
after-Grows g (err e, x) f h k = h

-- two records in a row, of which the second may use what the first leaves
then-Grows :
    {A B : Type 0} (m : Method A) (f : A → Method B) (g : Registry)
    → Keeps m g
    → ((a : A) (x : Registry) → Grows g x → Keeps (f a) x)
    → Keeps (m then f) g
then-Grows m f g k l s = let first = k s in after-Grows g (m g) f first (λ a. l a (m g).1 first)

give-Grows :
    {A B : Type 0} (m : Method A) (f : A → B) (g : Registry)
    → Keeps m g
    → Keeps (m then λ a. return (f a)) g
give-Grows m f g k = then-Grows m (λ a. return (f a)) g k (λ a x h. Grows-refl x)

get-Grows :
    {B : Type 0} (id version : String) (g : Registry) (f : VersionState → Method B)
    → ((v : VersionState)
        → lookup (id, version) g.book.versions ≡ some v
        → key_of v ≡ (id, version)
        → Keeps (f v) g)
    → IsSound g
    → Grows g (after (get id version g) f).1
get-Grows id version g f k s = elim (Option-cases (lookup (id, version) g.book.versions)) [
  | inl h ↦ subst (λ o. Grows g (after o f).1) (sym (get-none id version g h)) (Grows-refl g s)
  | inr (v, h) ↦
      subst (λ o. Grows g (after o f).1) (sym (get-some id version v g h))
        (k v h (s.keyed (id, version) v h) s)
]

guarded-Grows :
    {A : Type 0} (b : Bool) (now : Datetime) (m : Method A) (g : Registry)
    → Keeps m g
    → Keeps (guarded b now m) g
unfolding illegal
guarded-Grows true now m g k s = k s
guarded-Grows false now m g k s = alarm-Grows (illegal_transition now) g s

if_Grows :
    {A : Type 0} (b : Bool) (m n : Method A) (g : Registry)
    → Keeps m g
    → Keeps n g
    → Keeps (if b then m else n) g
if_Grows true m n g h k s = h s
if_Grows false m n g h k s = k s

IsKnown-key_of :
    (id version : String) (v : VersionState) (g : Registry)
    → lookup (id, version) g.book.versions ≡ some v
    → key_of v ≡ (id, version)
    → IsKnown (key_of v) g
IsKnown-key_of id version v g h key = (v, ap (λ k. lookup k g.book.versions) key ∙ h)

pub transition-Grows :
    (id version : String) (to : Stage) (reason : String) (actor : Actor)
    (metrics : Dict String Metric) (now : Datetime) (g : Registry)
    → Keeps (transition id version to reason actor metrics now) g
unfolding transition
transition-Grows id version to reason actor metrics now g s =
    get-Grows id version g _
      (λ v h key.
        guarded-Grows (legal v to actor) now (record_change v to reason actor metrics now) g (
          record_change-Grows v to reason actor metrics now g
            (IsKnown-key_of id version v g h key)))
      s

pub set_profile-Grows : (p : BacktestProfile) (g : Registry) → Keeps (set_profile p) g
unfolding set_profile apply
set_profile-Grows p g s =
    get-Grows p.strategy_id p.strategy_version g (λ v. write (profile_of p))
      (λ v h key.
        write-put-Grows (profile_of p) (p.strategy_id, p.strategy_version) (with_profile p v) g
          (ap (λ o. change (p.strategy_id, p.strategy_version) (with_profile p) o g.book) h) key)
      s

maybe_profile-Grows : (p : Option BacktestProfile) (g : Registry) → Keeps (maybe_profile p) g
maybe_profile-Grows none g s = Grows-refl g s
maybe_profile-Grows (some p) g s = set_profile-Grows p g s

found-Grows : (o : Option VersionState) (g : Registry) → Keeps (found o) g
found-Grows none g s = Grows-refl g s
found-Grows (some v) g s = Grows-refl g s

pub submit-Grows :
    (info : VersionInfo) (p : Option BacktestProfile) (now : Datetime) (g : Registry)
    → Keeps (submit_candidate info p now) g
unfolding submit_candidate apply get
submit-Grows info p now g s =
    if_Grows (has_key (info.strategy_id, info.version) g.book.versions) (raise value_error)
      (write (strategy_version info now) then λ u.
        maybe_profile p then λ w. get info.strategy_id info.version)
      g (λ s. Grows-refl g s)
      (λ s.
        after-Grows g (write (strategy_version info now) g)
          (λ u. maybe_profile p then λ w. get info.strategy_id info.version)
          (write-put-Grows (strategy_version info now) (info.strategy_id, info.version)
            (first_state info now) g refl refl s)
          (λ u s.
            after-Grows (write (strategy_version info now) g).1
              (maybe_profile p (write (strategy_version info now) g).1)
              (λ w. get info.strategy_id info.version)
              (maybe_profile-Grows p (write (strategy_version info now) g).1 s)
              (λ w s. found-Grows _ _ s)))
      s

pub swap-Grows :
    (id champion challenger reason : String) (metrics : Dict String Metric) (now later : Datetime)
    (g : Registry)
    → Keeps (swap id champion challenger reason metrics now later) g
unfolding swap
swap-Grows id champion challenger reason metrics now later g s =
    get-Grows id champion g _
      (λ champ h key. get-Grows id challenger g _ (λ chal h' key'.
        guarded-Grows (may_swap champion champ chal) now _ g (
          then-Grows
            (record_change chal champ.stage (swap_in_reason champion reason) evaluator metrics now)
            (λ a.
              record_change champ shadow (swap_out_reason challenger) evaluator [] later then λ b.
              return (a, b))
            g (record_change-Grows chal _ _ _ _ _ g (IsKnown-key_of id challenger chal g h' key'))
            (λ a x first.
              give-Grows
                (record_change champ shadow (swap_out_reason challenger) evaluator [] later)
                (λ b. (a, b)) x
                (record_change-Grows champ _ _ _ _ _ x
                  (first.known (key_of champ) (IsKnown-key_of id champion champ g h key)))))))
      s

when-Grows : (b : Bool) (m : Method StageChanged) (g : Registry) → Keeps m g → Keeps (when b m) g
when-Grows true m g k s = give-Grows m (λ a. a ∷ []) g k s
when-Grows false m g k s = Grows-refl g s

pub undo-Grows :
    (id reason : String) (now later : Datetime) (o : Option Swap) (g : Registry)
    → Keeps (undo id reason now later o) g
unfolding illegal
undo-Grows id reason now later none g s = alarm-Grows (illegal_transition now) g s
undo-Grows id reason now later (some last) g s =
    get-Grows id last.old g _
      (λ v h key. get-Grows id last.new g _ (λ w h' key'.
        guarded-Grows (v.stage == shadow) now _ g (
          then-Grows
            (when (not (w.stage == shadow))
              (record_change w shadow (rolled_back last.old reason) evaluator [] now))
            (λ out.
              record_change v last.stage (restored_over last.new reason) evaluator [] later
              then λ b. return (out ++ b ∷ []))
            g
            (when-Grows (not (w.stage == shadow))
              (record_change w shadow (rolled_back last.old reason) evaluator [] now) g
              (record_change-Grows w _ _ _ _ _ g (IsKnown-key_of id last.new w g h' key')))
            (λ out x first.
              give-Grows
                (record_change v last.stage (restored_over last.new reason) evaluator [] later)
                (λ b. out ++ b ∷ []) x
                (record_change-Grows v _ _ _ _ _ x
                  (first.known (key_of v) (IsKnown-key_of id last.old v g h key)))))))
      s

pub promote-Grows :
    (id version : String) (passed synthetic : Bool) (now : Datetime) (g : Registry)
    → Keeps (promote_candidate id version passed synthetic now) g
unfolding promote_candidate
promote-Grows id version passed synthetic now g s =
    get-Grows id version g _
      (λ v h key.
        if_Grows v.info.paper_only _ _ g (transition-Grows id version shadow _ _ _ now g) (
          if_Grows (passed && not synthetic) _ _ g (transition-Grows id version shadow _ _ _ now g)
            (transition-Grows id version retired _ _ _ now g)))
      s

pub paper-Grows :
    (id version : String) (on : Bool) (now : Datetime) (g : Registry)
    → Keeps (paper_trade id version on now) g
unfolding paper_trade
paper-Grows id version true now g s = transition-Grows id version _ _ _ _ now g s
paper-Grows id version false now g s = transition-Grows id version _ _ _ _ now g s
