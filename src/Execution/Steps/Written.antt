-- ===== src/Execution/Steps/Written.antt =====
-- The write-ahead of packages/execution/src/autotrader/execution/order_manager.py: what is done after the
-- journal was written with an order in it.
use Prim.{Unit, tt}
use mathlib.Core.Path.{subst}
use kometa.Prelude.{refl, ◌≡◌, ◌⊎◌, inl, inr, sym, String, some, List, [], ◌∷◌, ◌++◌, string_eq}
use kometa.Prelude.Dict.{lookup}
use kometa.Execution.Journal.{TrackedOrder, prune}
use kometa.Execution.World.{
  Effect, Env, World, Method, saved, ◌>>=◌, catching, gets, set_state, now, emit,
}
use kometa.Execution.Orders.{save}
use kometa.Execution.Steps.{Kept-refl, Step, Steps, Logged, bind_at, caught-Step}
use kometa.Execution.Steps.Journal.{report_orders-Steps}

pub HasOrder : String → Effect → Type 0
HasOrder coid (saved s) = (t : TrackedOrder) × (lookup coid s.orders ≡ some t)
HasOrder coid _ = ⊥

-- Among what was done is a journal write with the order.
pub Written : String → List Effect → Type 0
Written coid [] = ⊥
Written coid (e ∷ es) = HasOrder coid e ⊎ Written coid es

Written-append :
    (coid : String) (new past : List Effect) → Written coid past → Written coid (new ++ past)
unfolding Written
Written-append coid [] past h = h
Written-append coid (e ∷ es) past h = inr (Written-append coid es past h)

log-Written :
    {B : Type 0} (Q : List Effect → Effect → Type 0) (coid : String) (w v : World B)
    → (new : List Effect) × ((v.effects ≡ new ++ w.effects) × Logged Q new w.effects)
    → Written coid w.effects
    → Written coid v.effects
log-Written Q coid w v (new, (e, l)) h =
    subst (Written coid) (sym e) (Written-append coid new w.effects h)

module _ {B : Type 0} {Q : List Effect → Effect → Type 0} where
  pub Step-Written :
      (coid : String) (w v : World B) → Step Q w v → Written coid w.effects → Written coid v.effects
  Step-Written coid w v s h = log-Written Q coid w v s.log h

-- What a method leaves when it begins after the journal was written with the order.
pub record After {B A : Type 0} (coid : String) (Q : List Effect → Effect → Type 0) (m : Method B A)
    : Type 0 where
  pub from : (w : World B) → Written coid w.effects → Step Q w (m w).1

module _ {B : Type 0} {Q : List Effect → Effect → Type 0} {coid : String} where
  pub anyway : {A : Type 0} {m : Method B A} → Steps Q m → After coid Q m
  anyway h = record { from = λ w g. h.from w }

  pub then-After :
      {A C : Type 0} {m : Method B A} {f : A → Method B C}
      → After coid Q m
      → ((a : A) → After coid Q (f a))
      → After coid Q (m >>= f)
  then-After {m} {f} h k = record {
    from = λ w g.
        bind_at w m f (h.from w g)
          (λ a. (k a).from (m w).1 (Step-Written coid w (m w).1 (h.from w g) g));
  }

  pub catch-After :
      {A : Type 0} {m : Method B A} {f : String → Method B A}
      → After coid Q m
      → ((e : String) → Steps Q (f e))
      → After coid Q (catching m f)
  unfolding catching
  catch-After {m} {f} h k = record { from = λ w g. caught-Step w (m w) f (h.from w g) k }

pub emit-After :
    {B : Type 0} {Q : List Effect → Effect → Type 0} {coid : String} (e : Effect)
    → ((past : List Effect) → Written coid past → Q past e)
    → After coid Q (emit {B = B} e)
unfolding emit Logged
emit-After e q = record {
  from = λ w g. record {
    orders = Kept-refl w.state.orders;
    log = (e ∷ [], (refl, (q w.effects g, tt)));
  };
}

pub save-Written :
    {B : Type 0} (k : Env B) (coid : String) (t : TrackedOrder) (w : World B)
    → lookup coid w.state.orders ≡ some t
    → Written coid (save k w).1.effects
unfolding Written HasOrder save prune ◌>>=◌ gets set_state now emit
save-Written k coid t w h =
    Step-Written {Q = λ past e. Unit {0}} coid _ _ ((report_orders-Steps (λ past e g. tt) k).from _)
      (inl (t, h))
