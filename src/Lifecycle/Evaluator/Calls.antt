-- ===== src/Lifecycle/Evaluator/Calls.antt =====
-- The evaluator as a client of the registry: the calls that it makes of it.
use kometa.Prelude.{
  ◌≡◌, refl, sym, ◌∙◌, ap, Bool, true, false, Option, none, some, List, [], ◌∷◌, ◌++◌, Result, ok,
  err, if◌then◌else◌,
}
use Prim.{Unit, tt}
use mathlib.Core.Path.{subst}
use kometa.Core.Models.{stage_eq}
use kometa.Lifecycle.Evaluator.Base.{
  ActionAlert, alert, gets, fail, Env, World, Method, give, after, ◌>>=◌, now, ask, or_fail, act,
  Action, DemotionActions,
}
use kometa.Lifecycle.Ladder.{evaluator}
use kometa.Lifecycle.Registry as Reg
use kometa.Lifecycle.Registry.{Registry, Failure}
use kometa.Lifecycle.Registry.Runs.{
  Op, submitting, profiling, moving, swapping, rolling_back, testing, promoting, retiring, papering,
  perform, perform_all,
}

-- What the evaluator may ask of the registry: a transition in its own name, a swap, a rollback, and
-- the record of a swap test.
abbrev pub IsAllowed : Op → Type 0
IsAllowed (submitting info p at) = ⊥
IsAllowed (profiling p) = ⊥
IsAllowed (moving id version to reason actor m at) = actor ≡ evaluator
IsAllowed (swapping id champion challenger reason m at later) = Unit
IsAllowed (rolling_back id reason at later) = Unit
IsAllowed (testing payload) = Unit
IsAllowed (promoting id version passed synthetic at) = ⊥
IsAllowed (retiring id version reason at) = ⊥
IsAllowed (papering id version on at) = ⊥

abbrev pub AllAllowed : List Op → Type 0
AllAllowed [] = Unit
AllAllowed (op ∷ ops) = IsAllowed op × AllAllowed ops

-- The registry of the second is that of the first after some allowed calls.
pub record Calls (g h : Registry) : Type 0 where
  pub ops : List Op
  pub are_allowed : AllAllowed ops
  pub result : h ≡ perform_all ops g

AllAllowed-append : (xs ys : List Op) → AllAllowed xs → AllAllowed ys → AllAllowed (xs ++ ys)
AllAllowed-append [] ys h k = k
AllAllowed-append (x ∷ xs) ys (p, h) k = (p, AllAllowed-append xs ys h k)

pub perform_all-append :
    (xs ys : List Op) (g : Registry) → perform_all (xs ++ ys) g ≡ perform_all ys (perform_all xs g)
unfolding perform_all
perform_all-append [] ys g = refl
perform_all-append (x ∷ xs) ys g = perform_all-append xs ys (perform x g)

pub Calls-refl : (g : Registry) → Calls g g
unfolding perform_all
Calls-refl g = record { ops = []; are_allowed = tt; result = refl }

pub Calls-trans : (f g h : Registry) → Calls f g → Calls g h → Calls f h
Calls-trans f g h a b = record {
  ops = a.ops ++ b.ops;
  are_allowed = AllAllowed-append a.ops b.ops a.are_allowed b.are_allowed;
  result = b.result ∙ ap (perform_all b.ops) a.result ∙ sym (perform_all-append a.ops b.ops f);
}

Calls-one : (op : Op) (g : Registry) → IsAllowed op → Calls g (perform op g)
unfolding perform_all
Calls-one op g h = record { ops = op ∷ []; are_allowed = (h, tt); result = refl }

-- A method whose whole effect on the registry are allowed calls.
pub record Via {A : Type 0} (m : Method A) : Type 0 where
  pub calls : (w : World) → Calls w.registry (m w).1.registry

-- a method that leaves the registry alone
Via-still : {A : Type 0} (m : Method A) → ((w : World) → (m w).1.registry ≡ w.registry) → Via m
Via-still m h = record {
  calls = λ w. subst (λ g. Calls w.registry g) (sym (h w)) (Calls-refl w.registry);
}

pub give-Via : {A : Type 0} (a : A) → Via (give a)
unfolding give
give-Via a = Via-still (give a) (λ w. refl)

or_fail_still :
    {A : Type 0} (e : Failure) (o : Option A) (w : World) → (or_fail e o w).1.registry ≡ w.registry
unfolding or_fail fail give
or_fail_still e none w = refl
or_fail_still e (some a) w = refl

pub or_fail-Via : {A : Type 0} (e : Failure) (o : Option A) → Via (or_fail e o)
or_fail-Via e o = Via-still (or_fail e o) (or_fail_still e o)

pub gets-Via : {A : Type 0} (f : Registry → A) → Via (gets f)
unfolding gets
gets-Via f = Via-still (gets f) (λ w. refl)

pub now-Via : (k : Env) → Via (now k)
unfolding now
now-Via k = Via-still (now k) (λ w. refl)

pub act-Via : (d : DemotionActions) (a : Action) → Via (act d a)
unfolding act
act-Via d a = Via-still (act d a) (λ w. refl)

pub alert-Via : (a : ActionAlert) → Via (alert a)
unfolding alert
alert-Via a = Via-still (alert a) (λ w. refl)

after-Calls :
    {A B : Type 0} (g : Registry) (o : Result Failure A × World) (f : A → Method B)
    → Calls g o.1.registry
    → ((a : A) → Via (f a))
    → Calls g (after o f).1.registry
after-Calls g (ok a, w) f h k = Calls-trans g w.registry (f a w).1.registry h ((k a).calls w)
after-Calls g (err e, w) f h k = h

pub bind-Via :
    {A B : Type 0} {m : Method A} {f : A → Method B} → Via m → ((a : A) → Via (f a)) → Via (m >>= f)
unfolding ◌>>=◌
bind-Via {m} {f} h k = record { calls = λ w. after-Calls w.registry (m w) f (h.calls w) k }

pub if_Via : {A : Type 0} (b : Bool) {m n : Method A} → Via m → Via n → Via (if b then m else n)
if_Via true h k = h
if_Via false h k = k

-- a look at the registry that may raise
pub ask-still : {A : Type 0} (m : Reg.Method A) → ((g : Registry) → (m g).1 ≡ g) → Via (ask m)
unfolding ask
ask-still m h = Via-still (ask m) (λ w. h w.registry)

-- a call of the registry that is one of the four
pub ask-Via :
    {A : Type 0} (m : Reg.Method A) (op : Op)
    → IsAllowed op
    → ((g : Registry) → (m g).1 ≡ perform op g)
    → Via (ask m)
unfolding ask
ask-Via m op h e = record {
  calls = λ w. subst (λ g. Calls w.registry g) (sym (e w.registry)) (Calls-one op w.registry h);
}
