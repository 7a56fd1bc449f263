-- ===== src/Execution/Steps/Journal.antt =====
-- What the journal write, the order events and a change of a tracked order leave, in
-- packages/execution/src/autotrader/execution/order_manager.py.
use kometa.Prelude.{
  List, Result, ok, err, ◌≡◌, refl, Bool, true, false, String, Option, some, none, [], ◌∷◌,
  string_eq,
}
use kometa.Prelude.Dict.{lookup, Dict, insert}
use kometa.Core.Time.{Datetime}
use kometa.Core.Events.{Severity}
use kometa.Decimal.{div_ℚ, Decimal}
use kometa.Execution.Journal.{TrackedOrder, ExecState, prune}
use kometa.Execution.World.{
  or_raise, division_by_zero, traded, none_or_raise, Failure, World, Effect, placing, saved,
  alerted, ordered, rated, filled, Env, emit, set_state, amend, adjust, Seen,
}
use kometa.Execution.Orders.{
  closed_trade, closed_with, report_trade, quotient, alert, report_one, report_all, report_orders,
  mark_reported, save, record_fill,
}
use kometa.Execution.Views.{seen_of}
use kometa.Execution.Kept.{Kept, adjust-Kept}
use kometa.Execution.Later.{Later}
use kometa.Execution.Steps.{
  raise-Steps, Step, Steps, bind, seq, give-Steps, gets-Steps, if_Steps, emit-Steps, now-Steps,
  set_state-Steps, alike,
}

abbrev pub is_placing : Effect → Bool
is_placing (placing req) = true
is_placing _ = false

module _ {B : Type 0} {Q : List Effect → Effect → Type 0} where
  pub Kept-Step :
      (w : World B) (s : ExecState)
      → Kept w.state.orders s.orders
      → Step Q w (record w { state = s })
  Kept-Step w s h = record {
    orders = h;
    log = (alike w (record w { state = record s { orders = w.state.orders } }) refl refl).log;
  }

  mark_reported-Steps : (coid : String) (s : Seen) → Steps Q (mark_reported {B = B} coid s)
  unfolding mark_reported
  mark_reported-Steps coid s = record {
    from = λ w. alike w (record w { reported = insert coid s w.reported }) refl refl;
  }

  pub amend-Step :
      (coid : String) (f : TrackedOrder → TrackedOrder) (w : World B)
      → ((t : TrackedOrder) → lookup coid w.state.orders ≡ some t → Later t (f t))
      → Step Q w (amend coid f w).1
  unfolding amend set_state
  amend-Step coid f w l =
      Kept-Step w (record w.state { orders = adjust coid f w.state.orders })
        (adjust-Kept coid f w.state.orders l)

  pub amend-Steps :
      (coid : String) (f : TrackedOrder → TrackedOrder)
      → ((t : TrackedOrder) → Later t (f t))
      → Steps Q (amend {B = B} coid f)
  amend-Steps coid f l = record { from = λ w. amend-Step coid f w (λ t h. l t) }

pub or_raise-Steps :
    {B A : Type 0} {Q : List Effect → Effect → Type 0} (r : Result Failure A)
    → Steps Q (or_raise {B = B} r)
or_raise-Steps (ok a) = give-Steps a
or_raise-Steps (err e) = raise-Steps e

pub none_or_raise-Steps :
    {B A : Type 0} {Q : List Effect → Effect → Type 0} (e : Failure) (o : Option A)
    → Steps Q (none_or_raise {B = B} e o)
none_or_raise-Steps e none = raise-Steps e
none_or_raise-Steps e (some a) = give-Steps a

module _ {B : Type 0} {Q : List Effect → Effect → Type 0}
    (quiet : (past : List Effect) (e : Effect) → is_placing e ≡ false → Q past e) where
  pub quietly : (e : Effect) → is_placing e ≡ false → Steps Q (emit {B = B} e)
  quietly e h = emit-Steps e (λ past. quiet past e h)

  report_one-Steps :
      (time : Datetime) (coid : String) (t : TrackedOrder)
      → Steps Q (report_one {B = B} time coid t)
  unfolding report_one
  report_one-Steps time coid t = bind (gets-Steps _) (λ before.
      if_Steps _ (give-Steps _)
        (seq (mark_reported-Steps coid (seen_of t)) (quietly (ordered _) refl)))

  report_all-Steps :
      (time : Datetime) (d : Dict String TrackedOrder) → Steps Q (report_all {B = B} time d)
  unfolding report_all
  report_all-Steps time [] = (give-Steps _)
  report_all-Steps time ((coid, t) ∷ rest) =
      seq (report_one-Steps time coid t) (report_all-Steps time rest)

  pub report_orders-Steps : (k : Env B) → Steps Q (report_orders k)
  unfolding report_orders
  report_orders-Steps k =
      bind (now-Steps k) (λ time. bind (gets-Steps _) (λ orders. report_all-Steps time orders))

  pub save-Steps : (k : Env B) → Steps Q (save k)
  unfolding save prune
  save-Steps k = bind (gets-Steps _) (λ sequence. seq (set_state-Steps _ (λ s. refl)) (
      bind (now-Steps k) (λ time.
        seq (set_state-Steps _ (λ s. refl)) (
          bind (gets-Steps _)
            (λ state. seq (quietly (saved state) refl) (report_orders-Steps k))))))

  pub alert-Steps :
      (severity : Severity) (kind about : String) → Steps Q (alert {B = B} severity kind about)
  alert-Steps severity kind about = quietly (alerted severity kind about) refl

  quotient-Steps : (x y : Decimal) → Steps Q (quotient {B = B} x y)
  quotient-Steps x y = or_raise-Steps (div_ℚ division_by_zero x y)

  report_trade-Steps :
      (t : TrackedOrder) (at : Datetime) (entry stop lots mar : Decimal)
      → Steps Q (report_trade {B = B} t at entry stop lots mar)
  report_trade-Steps t at entry stop lots mar =
      bind (quotient-Steps _ _) (λ r. bind (quotient-Steps _ _) (λ x. quietly (traded _) refl))

  closed_with-Steps :
      (k : Env B) (t : TrackedOrder) (at : Datetime) (entry : Option Decimal)
      → Steps Q (closed_with k t at entry)
  closed_with-Steps k t at none = give-Steps _
  closed_with-Steps k t at (some entry) = if_Steps _ (give-Steps _) (
      bind (none_or_raise-Steps _ _) (λ info.
        bind (none_or_raise-Steps _ _)
          (λ rate. if_Steps _ (alert-Steps _ _ _) (report_trade-Steps t at entry _ _ _))))

  pub closed_trade-Steps :
      (k : Env B) (t : TrackedOrder) (at : Datetime) → Steps Q (closed_trade k t at)
  unfolding closed_trade
  closed_trade-Steps k t at = closed_with-Steps k t at t.entry_price

  pub record_fill-Steps :
      (k : Env B) (t : TrackedOrder) (price lots latency_ms commission : Decimal)
      → Steps Q (record_fill k t price lots latency_ms commission)
  unfolding record_fill
  record_fill-Steps k t price lots latency_ms commission =
      bind (gets-Steps _)
        (λ q. bind (now-Steps k) (λ time. seq (quietly (rated _) refl) (quietly (filled _) refl)))
