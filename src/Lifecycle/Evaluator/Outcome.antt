-- ===== src/Lifecycle/Evaluator/Outcome.antt =====
-- What a method of the evaluator returns and leaves, from one world: a rule for each way to build it.
use kometa.Prelude.{
  suc, ◌≡◌, refl, sym, ◌∙◌, ap, Bool, true, false, String, Option, some, Result, ok, if◌then◌else◌,
  pair_eq, string_eq,
}
use mathlib.Core.Path.{subst}
use kometa.Prelude.Dict.{lookup}
use kometa.Core.Time.{Datetime}
use kometa.Core.Models.{Stage}
use kometa.Core.Events.{StageChanged}
use kometa.Lifecycle.Evaluator.Base.{
  Env, World, Method, give, after, ◌>>=◌, now, ask, or_fail, gets, with_registry,
}
use kometa.Lifecycle.Evaluator.Metrics.{Metrics}
use kometa.Lifecycle.Evaluator.Shadow.{move}
use kometa.Lifecycle.Ladder.{VersionState, key_of, legal, evaluator}
use kometa.Lifecycle.Registry.{Registry, Failure, changed, change_alert, stage_record}
use kometa.Lifecycle.Registry.Moves.{recorded, transition-legal}

-- It returns, and the value and the world that it leaves satisfy R.
pub record Ensures {A : Type 0} (m : Method A) (w : World) (R : A → World → Type 0) : Type 0 where
  pub value : A
  pub is_ok : (m w).0 ≡ ok value
  pub holds : R value (m w).1

pub give-Ensures :
    {A : Type 0} {R : A → World → Type 0} (a : A) (w : World) → R a w → Ensures (give a) w R
unfolding give
give-Ensures a w h = record { value = a; is_ok = refl; holds = h }

pub weaken :
    {A : Type 0} {m : Method A} {w : World} {Q R : A → World → Type 0}
    → Ensures m w Q
    → ((a : A) (u : World) → Q a u → R a u)
    → Ensures m w R
weaken {m} {w} h k = record { value = h.value; is_ok = h.is_ok; holds = k h.value (m w).1 h.holds }

after-Ensures :
    {A B : Type 0} (o : Result Failure A × World) (f : A → Method B) (R : B → World → Type 0)
    (a : A)
    → o.0 ≡ ok a
    → Ensures (f a) o.1 R
    → (b : B) × ((after o f).0 ≡ ok b) × R b (after o f).1
after-Ensures (r, w) f R a e h =
    subst (λ r. (b : _) × ((after (r, w) f).0 ≡ ok b) × R b (after (r, w) f).1) (sym e)
      (h.value, h.is_ok, h.holds)

pub bind-Ensures :
    {A B : Type 0} {m : Method A} {f : A → Method B} {w : World} {Q : A → World → Type 0}
    {R : B → World → Type 0}
    → Ensures m w Q
    → ((a : A) (u : World) → Q a u → Ensures (f a) u R)
    → Ensures (m >>= f) w R
unfolding ◌>>=◌
bind-Ensures {m} {f} {w} {R} h k =
    let (b, p, q) = after-Ensures (m w) f R h.value h.is_ok (k h.value (m w).1 h.holds) in
    record { value = b; is_ok = p; holds = q }

-- the world after a reading of the clock
abbrev pub tick : World → World
tick w = record w { readings = suc w.readings }

pub now-Ensures :
    {B : Type 0} {R : B → World → Type 0} (k : Env) (f : Datetime → Method B) {w : World}
    → Ensures (f (k.clock w.readings)) (tick w) R
    → Ensures (now k >>= f) w R
unfolding now ◌>>=◌
now-Ensures k f h = record { value = h.value; is_ok = h.is_ok; holds = h.holds }

pub gets-Ensures :
    {A B : Type 0} {R : B → World → Type 0} (g : Registry → A) (f : A → Method B) {w : World}
    → Ensures (f (g w.registry)) w R
    → Ensures (gets g >>= f) w R
unfolding gets ◌>>=◌
gets-Ensures g f h = record { value = h.value; is_ok = h.is_ok; holds = h.holds }

pub or_fail-Ensures :
    {A B : Type 0} {R : B → World → Type 0} (e : Failure) (o : Option A) (f : A → Method B)
    {w : World} (a : A)
    → o ≡ some a
    → Ensures (f a) w R
    → Ensures (or_fail e o >>= f) w R
unfolding or_fail give ◌>>=◌
or_fail-Ensures {R} e o f {w} a p h =
    subst (λ o. Ensures (or_fail e o >>= f) w R) (sym p)
      (record { value = h.value; is_ok = h.is_ok; holds = h.holds })

pub if_Ensures :
    {A : Type 0} {R : A → World → Type 0} {m n : Method A} {w : World} (b : Bool)
    → (b ≡ true → Ensures m w R)
    → (b ≡ false → Ensures n w R)
    → Ensures (if b then m else n) w R
if_Ensures true h k = h refl
if_Ensures false h k = k refl

-- The version is in the registry, as v.
abbrev pub IsAt : VersionState → Registry → Type 0
IsAt v g = lookup (key_of v) g.book.versions ≡ some v

-- One legal change of v is recorded in g, in the evaluator's name, and h is what that leaves.
pub record Moved (v : VersionState) (g : Registry) (ev : StageChanged) (h : Registry) : Type 0 where
  pub to : Stage
  pub reason : String
  pub metrics : Metrics
  pub at : Datetime
  pub is_legal : legal v to evaluator ≡ true
  pub event : ev ≡ changed v to reason at
  pub result :
      h
      ≡ recorded v
          (stage_record v to reason evaluator metrics at)
          v
          (change_alert v to reason at)
          (changed v to reason at)
          g

abbrev pub recorded_by : VersionState → Stage → String → Metrics → Datetime → Registry → Registry
recorded_by v to reason m at g =
    recorded v (stage_record v to reason evaluator m at) v (change_alert v to reason at)
      (changed v to reason at) g

-- the world after the move
abbrev pub after_move : Env → VersionState → Stage → String → Metrics → World → World
after_move k v to reason m w = record (tick w) {
  registry = recorded_by v to reason m (k.clock w.readings) w.registry;
}

move_lem :
    (k : Env) (v : VersionState) (to : Stage) (reason : String) (m : Metrics) (w : World)
    → IsAt v w.registry
    → legal v to evaluator ≡ true
    → move k (key_of v) to reason m w
      ≡ (ok (changed v to reason (k.clock w.readings)), after_move k v to reason m w)
unfolding move now ask ◌>>=◌
move_lem k v to reason m w here l = ap (with_registry (tick w)) (
    transition-legal v.info.strategy_id v.info.version v to reason evaluator m (k.clock w.readings)
      w.registry here refl l)

-- a move, and what follows it
pub move-Ensures :
    {B : Type 0} {R : B → World → Type 0} (k : Env) (v : VersionState) (to : Stage)
    (reason : String) (m : Metrics) (f : StageChanged → Method B) (w : World)
    → IsAt v w.registry
    → legal v to evaluator ≡ true
    → Ensures (f (changed v to reason (k.clock w.readings))) (after_move k v to reason m w) R
    → Ensures (move k (key_of v) to reason m >>= f) w R
unfolding ◌>>=◌
move-Ensures {R} k v to reason m f w here l h =
    let e = move_lem k v to reason m w here l in
    record {
      value = h.value;
      is_ok = ap (λ o. (after o f).0) e ∙ h.is_ok;
      holds = subst (λ o. R h.value (after o f).1) (sym e) h.holds;
    }

pub moved_by :
    (k : Env) (v : VersionState) (to : Stage) (reason : String) (m : Metrics) (w : World)
    → legal v to evaluator ≡ true
    → Moved v w.registry
        (changed v to reason (k.clock w.readings))
        (recorded_by v to reason m (k.clock w.readings) w.registry)
moved_by k v to reason m w l = record {
  to = to;
  reason = reason;
  metrics = m;
  at = k.clock w.readings;
  is_legal = l;
  event = refl;
  result = refl;
}
