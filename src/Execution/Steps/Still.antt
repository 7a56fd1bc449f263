-- ===== src/Execution/Steps/Still.antt =====
-- The methods of packages/execution/src/autotrader/execution/order_manager.py that leave the tracked orders
-- as they are: the journal write among them.
use kometa.Prelude.{
  ◌≡◌, ◌∙◌, refl, Bool, true, false, String, [], ◌∷◌, Result, ok, err, if◌then◌else◌,
}
use kometa.Prelude.Dict.{Dict}
use kometa.Core.Time.{Datetime}
use kometa.Execution.Journal.{TrackedOrder, ExecState, prune}
use kometa.Execution.World.{
  Env, World, Method, Effect, Failure, resume_with, ◌>>=◌, give, raise, or_raise, gets, now, emit,
  set_state, Seen,
}
use kometa.Execution.Orders.{report_one, report_all, report_orders, save, mark_reported}

pub record Still {B A : Type 0} (m : Method B A) : Type 0 where
  pub same : (w : World B) → (m w).1.state.orders ≡ w.state.orders

module _ {B : Type 0} where
  resume-Still :
      {A C : Type 0} (d : Dict String TrackedOrder) (o : Result Failure A × World B)
      (f : A → Method B C)
      → o.1.state.orders ≡ d
      → ((a : A) → Still (f a))
      → (resume_with o f).1.state.orders ≡ d
  resume-Still d (ok a, v) f h k = (k a).same v ∙ h
  resume-Still d (err e, v) f h k = h

  pub bind_Still :
      {A C : Type 0} (m : Method B A) (f : A → Method B C)
      → Still m
      → ((a : A) → Still (f a))
      → Still (m >>= f)
  unfolding ◌>>=◌
  bind_Still m f h k = record { same = λ w. resume-Still w.state.orders (m w) f (h.same w) k }

  pub if_Still :
      {A : Type 0} (b : Bool) (m n : Method B A) → Still m → Still n → Still (if b then m else n)
  if_Still true m n h k = h
  if_Still false m n h k = k

  pub give-Still : {A : Type 0} (a : A) → Still (give {B = B} a)
  unfolding give
  give-Still a = record { same = λ w. refl }

  pub or_raise-Still : {A : Type 0} (r : Result Failure A) → Still (or_raise {B = B} r)
  unfolding give raise
  or_raise-Still (ok a) = record { same = λ w. refl }
  or_raise-Still (err e) = record { same = λ w. refl }

  gets-Still : {A : Type 0} (f : World B → A) → Still (gets f)
  unfolding gets
  gets-Still f = record { same = λ w. refl }

  now-Still : (k : Env B) → Still (now k)
  unfolding now
  now-Still k = record { same = λ w. refl }

  emit-Still : (e : Effect) → Still (emit {B = B} e)
  unfolding emit
  emit-Still e = record { same = λ w. refl }

  set_state-Still :
      (f : ExecState → ExecState)
      → ((s : ExecState) → (f s).orders ≡ s.orders)
      → Still (set_state {B = B} f)
  unfolding set_state
  set_state-Still f h = record { same = λ w. h w.state }

  mark_reported-Still : (coid : String) (s : Seen) → Still (mark_reported {B = B} coid s)
  unfolding mark_reported
  mark_reported-Still coid s = record { same = λ w. refl }

  report_one-Still :
      (time : Datetime) (coid : String) (t : TrackedOrder) → Still (report_one {B = B} time coid t)
  unfolding report_one
  report_one-Still time coid t = bind_Still _ _ (gets-Still _) (λ before.
      if_Still _ _ _ (give-Still _)
        (bind_Still _ _ (mark_reported-Still coid _) (λ u. emit-Still _)))

  report_all-Still :
      (time : Datetime) (d : Dict String TrackedOrder) → Still (report_all {B = B} time d)
  unfolding report_all
  report_all-Still time [] = give-Still _
  report_all-Still time ((coid, t) ∷ rest) =
      bind_Still _ _ (report_one-Still time coid t) (λ u. report_all-Still time rest)

  pub save-Still : (k : Env B) → Still (save k)
  unfolding save report_orders prune
  save-Still k = bind_Still _ _ (gets-Still _) (λ sequence.
      bind_Still _ _ (set_state-Still _ (λ s. refl)) (λ a. bind_Still _ _ (now-Still k) (λ time.
        bind_Still _ _ (set_state-Still _ (λ s. refl)) (λ b. bind_Still _ _ (gets-Still _) (λ state.
          bind_Still _ _ (emit-Still _) (λ c.
            bind_Still _ _ (now-Still k)
              (λ at. bind_Still _ _ (gets-Still _) (λ orders. report_all-Still at orders))))))))
