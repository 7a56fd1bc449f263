-- ===== src/Execution/Reconcile/Agreement.antt =====
-- What a clean report of packages/execution/src/autotrader/execution/reconcile.py says of the broker and
-- the journal.
use Prim.{tt}
use kometa.Prelude.{
  ◌+◌, ◌≡◌, refl, Bool, true, false, not, Option, none, some, List, [], ◌∷◌, ◌++◌, ltb, arith,
  string_eq,
}
use kometa.Core.Time.{Datetime}
use kometa.Core.Broker.{BrokerPosition, BrokerOrder}
use kometa.Decimal.{eqb_ℚ}
use kometa.Execution.Journal.{
  TrackedOrder, ExecState, OrderState, active, by_position, by_broker_order,
}
use kometa.Execution.World.{ExecutionConfig}
use kometa.Execution.Orders.{stop_protects}
use kometa.Execution.Steps.{All}
use kometa.Execution.Reconcile.Texts.{
  Mismatch, lots, missing_stop, untracked_position, untracked_order, MismatchKind,
}
use kometa.Execution.Reconcile.Report.{
  BrokerView, mismatch, mismatches, only, is_none, lookup?, by_id, order_by_id, compare_position,
  compare_in, compare_order, compare_orders, untracked_positions, untracked_orders, is_untracked,
  balance_off,
}

-- The broker has the position, with the lots of the order and a stop that protects as much.
pub record Held (v : BrokerView) (t : TrackedOrder) : Type 0 where
  pub at_broker : BrokerPosition
  pub there : lookup? t.position_id (by_id v.positions) ≡ some at_broker
  pub same_lots : eqb_ℚ at_broker.lots t.lots ≡ true
  pub safe : stop_protects t.side at_broker.sl t.sl ≡ true

-- What an active order in a state has at the broker.
unfoldable pub AgreesIn :
    OrderState → ExecutionConfig → Datetime → BrokerView → TrackedOrder → Type 0
AgreesIn OrderState.sending cfg time v t = ltb (t.created_at + cfg.send_grace) time ≡ false
AgreesIn OrderState.pending_order cfg time v t =
    (o : BrokerOrder) × (lookup? t.broker_order_id (order_by_id v.orders) ≡ some o)
AgreesIn _ cfg time v t = Held v t

pub record Agreement (cfg : ExecutionConfig) (time : Datetime) (s : ExecState) (v : BrokerView)
    : Type 0 where
  pub orders : All (λ t. AgreesIn t.state cfg time v t) (active s)
  pub no_position_left :
      All (λ p. is_untracked p.comment (by_position p.position_id s) ≡ false) v.positions
  pub no_order_left :
      All (λ o. is_untracked o.comment (by_broker_order o.broker_order_id s) ≡ false) v.orders
  pub cash : balance_off cfg s.expected_balance v.balance ≡ false

nil_cons : {A : Type 0} (x : A) (xs : List A) → x ∷ xs ≡ [] → ⊥
nil_cons x xs h = ground arith

left_nil : {A : Type 0} (xs ys : List A) → xs ++ ys ≡ [] → xs ≡ []
left_nil [] ys h = refl
left_nil (x ∷ xs) ys h = elim (nil_cons x (xs ++ ys) h) [ ]

right_nil : {A : Type 0} (xs ys : List A) → xs ++ ys ≡ [] → ys ≡ []
right_nil [] ys h = h
right_nil (x ∷ xs) ys h = elim (nil_cons x (xs ++ ys) h) [ ]

only_nil : (b : Bool) (m : Mismatch) → only b m ≡ [] → b ≡ false
only_nil true m h = elim (nil_cons m [] h) [ ]
only_nil false m h = refl

not-false : (b : Bool) → not b ≡ false → b ≡ true
not-false b h = ground arith

found_one : {A : Type 0} (o : Option A) → is_none o ≡ false → (x : A) × (o ≡ some x)
found_one none h = elim (apart h) [ ]
  where
    apart : true ≡ false → ⊥
    apart h = ground arith
found_one (some x) h = (x, refl)

position-Held :
    (v : BrokerView) (t : TrackedOrder) (p : Option BrokerPosition)
    → lookup? t.position_id (by_id v.positions) ≡ p
    → compare_position t p ≡ []
    → Held v t
position-Held v t none e h = elim (nil_cons _ [] h) [ ]
position-Held v t (some p) e h = record {
  at_broker = p;
  there = e;
  same_lots = not-false _ (only_nil _ (mismatch lots t.client_order_id) (left_nil _ _ h));
  safe = not-false _ (only_nil _ (mismatch missing_stop t.client_order_id) (right_nil _ _ h));
}

order_agrees :
    (s : OrderState) (cfg : ExecutionConfig) (time : Datetime) (v : BrokerView) (t : TrackedOrder)
    → compare_in s cfg time v t ≡ []
    → AgreesIn s cfg time v t
unfolding AgreesIn
order_agrees OrderState.sending cfg time v t h = only_nil _ _ h
order_agrees OrderState.pending_order cfg time v t h = found_one _ (only_nil _ _ h)
order_agrees _ cfg time v t h = position-Held v t _ refl h

orders_agree :
    (cfg : ExecutionConfig) (time : Datetime) (v : BrokerView) (ts : List TrackedOrder)
    → compare_orders cfg time v ts ≡ []
    → All (λ t. AgreesIn t.state cfg time v t) ts
unfolding All compare_orders compare_order
orders_agree cfg time v [] h = tt
orders_agree cfg time v (t ∷ ts) h = (
  order_agrees t.state cfg time v t (left_nil _ _ h),
  orders_agree cfg time v ts (right_nil (compare_order cfg time v t) _ h),
)

positions_tracked :
    (s : ExecState) (ps : List BrokerPosition)
    → untracked_positions s ps ≡ []
    → All (λ p. is_untracked p.comment (by_position p.position_id s) ≡ false) ps
unfolding All untracked_positions
positions_tracked s [] h = tt
positions_tracked s (p ∷ ps) h = (
  only_nil _ (mismatch untracked_position p.comment) (left_nil _ _ h),
  positions_tracked s ps (right_nil _ _ h),
)

orders_tracked :
    (s : ExecState) (os : List BrokerOrder)
    → untracked_orders s os ≡ []
    → All (λ o. is_untracked o.comment (by_broker_order o.broker_order_id s) ≡ false) os
unfolding All untracked_orders
orders_tracked s [] h = tt
orders_tracked s (o ∷ os) h = (
  only_nil _ (mismatch untracked_order o.comment) (left_nil _ _ h),
  orders_tracked s os (right_nil _ _ h),
)

-- A report without mismatch means that broker and journal agree: an order being sent is within its grace,
-- a pending order is pending at the broker, an open one is a position there with as many lots and a stop
-- at least as tight, every position and order there that carries a name of the system is tracked, and the
-- balance is within its tolerance of the expected one.
pub mismatches_none :
    (cfg : ExecutionConfig) (time : Datetime) (s : ExecState) (v : BrokerView)
    → mismatches cfg time s v ≡ []
    → Agreement cfg time s v
unfolding mismatches
mismatches_none cfg time s v h =
    let h1 = right_nil (compare_orders cfg time v (active s)) _ h in
    let h2 = right_nil (untracked_positions s v.positions) _ h1 in
    record {
      orders = orders_agree cfg time v (active s) (left_nil _ _ h);
      no_position_left = positions_tracked s v.positions (left_nil _ _ h1);
      no_order_left = orders_tracked s v.orders (left_nil _ _ h2);
      cash =
          only_nil _ (mismatch MismatchKind.balance "")
            (right_nil (untracked_orders s v.orders) _ h2);
    }
