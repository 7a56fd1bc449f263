-- ===== src/Execution/Steps.antt =====
-- What a method of the order manager (packages/execution/src/autotrader/execution/order_manager.py) leaves:
-- no tracked order is lost, none changes what it is, and no stop gets looser; `Q` holds of what it did outside.
pub mod Journal
pub mod Stops
pub mod Deals
pub mod Ends
pub mod Reconcile
pub mod Service
pub mod Still
pub mod Written
pub mod Sending
pub mod Entries
use Prim.{Unit, tt}
use mathlib.Core.Path.{subst}
use kometa.Prelude.{
  ◌≡◌, refl, sym, ap, ◌∙◌, ◌⊎◌, inl, inr, Bool, true, false, String, Option, some, none, List, [],
  ◌∷◌, ◌++◌, Result, ok, err, Bool-cases, Option-cases, if◌then◌else◌, string_eq,
}
use kometa.Prelude.Dict.{Dict, lookup, insert}
use kometa.Decimal.{Decimal, ltb_ℚ, ◌≤ℚ◌}
use kometa.Decimal.Order.{≤ℚ_refl, ≤ℚ_trans, <ℚ_≤ℚ, ltb→<ℚ}
use kometa.Core.Models.{Side, buy, sell}
use kometa.Execution.Journal.{TrackedOrder, ExecState}
use kometa.Execution.World.{
  World, Method, Effect, Failure, unavailable, key_error, runtime_error, division_by_zero,
  resume_with, ◌>>=◌, ◌>>◌, give, caught, catching, raise, gets, ask, answered, Answer, now, Env,
  emit, set_state, amend, adjust,
}
use kometa.Execution.Kept.{Kept, Kept-refl, Kept-trans}

unfoldable pub All : {A : Type 0} → (A → Type 0) → List A → Type 0
All Q [] = Unit {0}
All Q (x ∷ xs) = Q x × All Q xs

-- What was done, the newest first, after what was done before: each effect with its past.
unfoldable pub Logged : (List Effect → Effect → Type 0) → (new past : List Effect) → Type 0
Logged Q [] past = Unit {0}
Logged Q (e ∷ es) past = Q (es ++ past) e × Logged Q es past

pub record Step {B : Type 0} (Q : List Effect → Effect → Type 0) (w v : World B) : Type 0 where
  pub orders : Kept w.state.orders v.state.orders
  pub log : (new : List Effect) × ((v.effects ≡ new ++ w.effects) × Logged Q new w.effects)

pub record Steps {B A : Type 0} (Q : List Effect → Effect → Type 0) (m : Method B A) : Type 0 where
  pub from : (w : World B) → Step Q w (m w).1

append_assoc : {A : Type 0} (xs ys zs : List A) → (xs ++ ys) ++ zs ≡ xs ++ (ys ++ zs)
append_assoc [] ys zs = refl
append_assoc (x ∷ xs) ys zs = ap (λ r. x ∷ r) (append_assoc xs ys zs)

Logged-append :
    (Q : List Effect → Effect → Type 0) (xs ys past : List Effect)
    → Logged Q xs (ys ++ past)
    → Logged Q ys past
    → Logged Q (xs ++ ys) past
unfolding Logged
Logged-append Q [] ys past h k = k
Logged-append Q (x ∷ xs) ys past h k =
    (subst (λ p. Q p x) (sym (append_assoc xs ys past)) h.0, Logged-append Q xs ys past h.1 k)

Logged-weaken :
    (Q R : List Effect → Effect → Type 0) (es past : List Effect)
    → ((p : List Effect) (e : Effect) → Q p e → R p e)
    → Logged Q es past
    → Logged R es past
unfolding Logged
Logged-weaken Q R [] past f h = tt
Logged-weaken Q R (e ∷ es) past f h = (f (es ++ past) e h.0, Logged-weaken Q R es past f h.1)

weaker_log :
    {B : Type 0} (Q R : List Effect → Effect → Type 0) (w v : World B)
    → ((p : List Effect) (e : Effect) → Q p e → R p e)
    → (new : List Effect) × ((v.effects ≡ new ++ w.effects) × Logged Q new w.effects)
    → (new : List Effect) × ((v.effects ≡ new ++ w.effects) × Logged R new w.effects)
weaker_log Q R w v f (n, (e, h)) = (n, (e, Logged-weaken Q R n w.effects f h))

pub Step-weaken :
    {B : Type 0} (Q R : List Effect → Effect → Type 0) (w v : World B)
    → ((p : List Effect) (e : Effect) → Q p e → R p e)
    → Step Q w v
    → Step R w v
Step-weaken Q R w v f h = record { orders = h.orders; log = weaker_log Q R w v f h.log }

longer :
    {B : Type 0} (Q : List Effect → Effect → Type 0) (w v x : World B)
    → (new : List Effect) × ((v.effects ≡ new ++ w.effects) × Logged Q new w.effects)
    → (new : List Effect) × ((x.effects ≡ new ++ v.effects) × Logged Q new v.effects)
    → (new : List Effect) × ((x.effects ≡ new ++ w.effects) × Logged Q new w.effects)
longer Q w v x (n, (e, h)) (m, (f, k)) = (
  m ++ n,
  (
    f ∙ (ap (λ r. m ++ r) e ∙ sym (append_assoc m n w.effects)),
    Logged-append Q m n w.effects (subst (λ p. Logged Q m p) e k) h,
  ),
)

module _ {B : Type 0} {Q : List Effect → Effect → Type 0} where
  pub Step-refl : (w : World B) → Step Q w w
  unfolding Logged
  Step-refl w = record { orders = Kept-refl w.state.orders; log = ([], (refl, tt)) }

  pub Step-trans : (w v x : World B) → Step Q w v → Step Q v x → Step Q w x
  Step-trans w v x h k = record {
    orders = Kept-trans w.state.orders v.state.orders x.state.orders h.orders k.orders;
    log = longer Q w v x h.log k.log;
  }

  resume_with-Step :
      {A C : Type 0} (w : World B) (o : Result Failure A × World B) (f : A → Method B C)
      → Step Q w o.1
      → ((a : A) → Step Q o.1 (f a o.1).1)
      → Step Q w (resume_with o f).1
  resume_with-Step w (ok a, v) f h k = Step-trans w v (f a v).1 h (k a)
  resume_with-Step w (err e, v) f h k = h

  -- a method and what follows it, begun in one world
  pub bind_at :
      {A C : Type 0} (w : World B) (m : Method B A) (f : A → Method B C)
      → Step Q w (m w).1
      → ((a : A) → Step Q (m w).1 (f a (m w).1).1)
      → Step Q w ((m >>= f) w).1
  unfolding ◌>>=◌
  bind_at w m f h k = resume_with-Step w (m w) f h k

  resume_with-known :
      {A C : Type 0} (w : World B) (o : Result Failure A × World B) (f : A → Method B C)
      → Step Q w o.1
      → ((a : A) → o.0 ≡ ok a → Step Q o.1 (f a o.1).1)
      → Step Q w (resume_with o f).1
  resume_with-known w (ok a, v) f h k = Step-trans w v (f a v).1 h (k a refl)
  resume_with-known w (err e, v) f h k = h

  -- the same, where what follows knows what the method returned
  pub bind_with :
      {A C : Type 0} (w : World B) (m : Method B A) (f : A → Method B C)
      → Step Q w (m w).1
      → ((a : A) → (m w).0 ≡ ok a → Step Q (m w).1 (f a (m w).1).1)
      → Step Q w ((m >>= f) w).1
  unfolding ◌>>=◌
  bind_with w m f h k = resume_with-known w (m w) f h k

  pub if_at :
      {A : Type 0} (w : World B) (b : Bool) (m n : Method B A)
      → (b ≡ true → Step Q w (m w).1)
      → (b ≡ false → Step Q w (n w).1)
      → Step Q w ((if b then m else n) w).1
  if_at w true m n h k = h refl
  if_at w false m n h k = k refl

  pub bind :
      {A C : Type 0} {m : Method B A} {f : A → Method B C}
      → Steps Q m
      → ((a : A) → Steps Q (f a))
      → Steps Q (m >>= f)
  bind {m} {f} h k = record { from = λ w. bind_at w m f (h.from w) (λ a. (k a).from (m w).1) }

  pub seq :
      {A C : Type 0} {m : Method B A} {n : Method B C} → Steps Q m → Steps Q n → Steps Q (m >> n)
  seq {m} {n} h k = bind h (λ a. k)

  give_from : {A : Type 0} (a : A) (w : World B) → Step Q w (give a w).1
  unfolding give
  give_from a w = Step-refl w

  pub give-Steps : {A : Type 0} (a : A) → Steps Q (give {B = B} a)
  give-Steps a = record { from = give_from a }

  raise_from : (A : Type 0) (e : Failure) (w : World B) → Step Q w (raise {A = A} e w).1
  unfolding raise
  raise_from A e w = Step-refl w

  pub raise-Steps : {A : Type 0} (e : Failure) → Steps Q (raise {B = B} {A = A} e)
  raise-Steps {A} e = record { from = raise_from A e }

  gets_from : {A : Type 0} (f : World B → A) (w : World B) → Step Q w (gets f w).1
  unfolding gets
  gets_from f w = Step-refl w

  pub gets-Steps : {A : Type 0} (f : World B → A) → Steps Q (gets f)
  gets-Steps f = record { from = gets_from f }

  pub if_Steps :
      {A : Type 0} (b : Bool) {m n : Method B A}
      → Steps Q m
      → Steps Q n
      → Steps Q (if b then m else n)
  if_Steps b {m} {n} h k = elim b as (λ c. Steps Q (if c then m else n)) [ true ↦ h | false ↦ k ]

  pub caught-Step :
      {A : Type 0} (w : World B) (o : Result Failure A × World B) (f : String → Method B A)
      → Step Q w o.1
      → ((e : String) → Steps Q (f e))
      → Step Q w (caught o f).1
  caught-Step w (ok a, v) f h k = h
  caught-Step w (err (unavailable e), v) f h k = Step-trans w v (f e v).1 h ((k e).from v)
  caught-Step w (err (key_error e), v) f h k = h
  caught-Step w (err (runtime_error e), v) f h k = h
  caught-Step w (err division_by_zero, v) f h k = h

  pub catch :
      {A : Type 0} {m : Method B A} {f : String → Method B A}
      → Steps Q m
      → ((e : String) → Steps Q (f e))
      → Steps Q (catching m f)
  unfolding catching
  catch {m} {f} h k = record { from = λ w. caught-Step w (m w) f (h.from w) k }

  -- worlds with the same orders and the same log
  pub alike : (w v : World B) → v.state.orders ≡ w.state.orders → v.effects ≡ w.effects → Step Q w v
  unfolding Logged
  alike w v e f = record {
    orders = subst (λ d. Kept w.state.orders d) (sym e) (Kept-refl w.state.orders);
    log = ([], (f, tt));
  }

  answered-Step : {A : Type 0} (w : World B) (o : Result String A × B) → Step Q w (answered o w).1
  answered-Step w (ok a, b) = alike w (record w { broker = b }) refl refl
  answered-Step w (err e, b) = alike w (record w { broker = b }) refl refl

  pub ask-Steps : {A : Type 0} (q : Answer B A) → Steps Q (ask q)
  unfolding ask
  ask-Steps q = record { from = λ w. answered-Step w (q w.broker) }

  pub now-Steps : (k : Env B) → Steps Q (now k)
  unfolding now
  now-Steps k = record {
    from = λ w. alike w (record w { broker = (k.adapter.clock w.broker).1 }) refl refl;
  }

  pub emit-Steps : (e : Effect) → ((past : List Effect) → Q past e) → Steps Q (emit {B = B} e)
  unfolding emit Logged
  emit-Steps e q = record {
    from = λ w. record {
      orders = Kept-refl w.state.orders;
      log = (e ∷ [], (refl, (q w.effects, tt)));
    };
  }

  -- a change of the state that leaves the orders
  pub set_state-Steps :
      (f : ExecState → ExecState)
      → ((s : ExecState) → (f s).orders ≡ s.orders)
      → Steps Q (set_state {B = B} f)
  unfolding set_state
  set_state-Steps f e = record {
    from = λ w. alike w (record w { state = f w.state }) (e w.state) refl;
  }
