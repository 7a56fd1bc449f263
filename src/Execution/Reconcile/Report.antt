-- ===== src/Execution/Reconcile/Report.antt =====
-- The comparison of the broker with the journal, in packages/execution/src/autotrader/execution/reconcile.py:
-- what `Reconciler.check` reports of a view of the broker. A mismatch is without its text `detail`.
use kometa.Prelude.{
  ◌+◌, Bool, true, false, not, String, Option, none, some, List, [], ◌∷◌, ◌++◌, all, keep_if, ltb,
  string_eq, if◌then◌else◌,
}
use kometa.Prelude.Dict.{Dict, lookup, insert}
use kometa.Core.Time.{Datetime}
use kometa.Core.Broker.{BrokerPosition, BrokerOrder, is_system_comment}
use kometa.Decimal.{Decimal, ◌-ℚ◌, ltb_ℚ, eqb_ℚ, abs_ℚ}
use kometa.Execution.Journal.{
  TrackedOrder, ExecState, OrderState, active, by_position, by_broker_order,
}
use kometa.Execution.World.{ExecutionConfig}
use kometa.Execution.Reconcile.Texts.{
  MismatchKind, broker_unreachable, unconfirmed_send, missing_position, missing_order,
  untracked_position, untracked_order, lots, missing_stop, balance, Mismatch, position_label,
  order_label,
}
use kometa.Execution.Orders.{stop_protects}

abbrev pub mismatch : MismatchKind → String → Mismatch
mismatch kind ref = record { kind = kind; ref = ref }

pub record ReconReport : Type 0 where
  pub at : Datetime
  pub mismatches : List Mismatch
  pub external : List String

abbrev pub is_ok : ReconReport → Bool
is_ok report = elim report.mismatches [ [] ↦ true | _ ∷ _ ↦ false ]

-- `_BrokerView`
pub record BrokerView : Type 0 where
  pub positions : List BrokerPosition
  pub orders : List BrokerOrder
  pub balance : Decimal

-- `{p.position_id: p for p in positions}`, and the same of orders
abbrev pub index_by : {A : Type 0} → (A → String) → Dict String A → List A → Dict String A
index_by key d [] = d
index_by key d (x ∷ xs) = index_by key (insert (key x) x d) xs

abbrev pub by_id : List BrokerPosition → Dict String BrokerPosition
by_id ps = index_by (λ p. p.position_id) [] ps

abbrev pub order_by_id : List BrokerOrder → Dict String BrokerOrder
order_by_id os = index_by (λ o. o.broker_order_id) [] os

abbrev pub system_positions : List BrokerPosition → Dict String BrokerPosition
system_positions ps = index_by (λ p. p.comment) [] (keep_if (λ p. is_system_comment p.comment) ps)

abbrev pub system_orders : List BrokerOrder → Dict String BrokerOrder
system_orders os = index_by (λ o. o.comment) [] (keep_if (λ o. is_system_comment o.comment) os)

-- `d.get(k)`, where None is no key of `d`
abbrev pub lookup? : {A : Type 0} → Option String → Dict String A → Option A
lookup? none d = none
lookup? (some k) d = lookup k d

abbrev pub is_none : {A : Type 0} → Option A → Bool
is_none none = true
is_none (some _) = false

abbrev pub only : Bool → Mismatch → List Mismatch
only b m = if b then m ∷ [] else []

abbrev pub compare_position : TrackedOrder → Option BrokerPosition → List Mismatch
compare_position t none = mismatch missing_position t.client_order_id ∷ []
compare_position t (some p) =
    only (not (eqb_ℚ p.lots t.lots)) (mismatch lots t.client_order_id)
    ++ only (not (stop_protects t.side p.sl t.sl)) (mismatch missing_stop t.client_order_id)

-- the turn of the loop for an active order in a state
abbrev pub compare_in :
    OrderState → ExecutionConfig → Datetime → BrokerView → TrackedOrder → List Mismatch
compare_in OrderState.sending cfg time v t =
    only (ltb (t.created_at + cfg.send_grace) time) (mismatch unconfirmed_send t.client_order_id)
compare_in OrderState.pending_order cfg time v t =
    only (is_none (lookup? t.broker_order_id (order_by_id v.orders)))
      (mismatch missing_order t.client_order_id)
compare_in _ cfg time v t = compare_position t (lookup? t.position_id (by_id v.positions))

unfoldable pub compare_order :
    ExecutionConfig → Datetime → BrokerView → TrackedOrder → List Mismatch
compare_order cfg time v t = compare_in t.state cfg time v t

unfoldable pub compare_orders :
    ExecutionConfig → Datetime → BrokerView → List TrackedOrder → List Mismatch
compare_orders cfg time v [] = []
compare_orders cfg time v (t ∷ ts) = compare_order cfg time v t ++ compare_orders cfg time v ts

abbrev pub is_untracked : String → Option TrackedOrder → Bool
is_untracked comment t = if is_system_comment comment then is_none t else false

unfoldable pub untracked_positions : ExecState → List BrokerPosition → List Mismatch
untracked_positions s [] = []
untracked_positions s (p ∷ ps) =
    only (is_untracked p.comment (by_position p.position_id s))
      (mismatch untracked_position p.comment)
    ++ untracked_positions s ps

unfoldable pub untracked_orders : ExecState → List BrokerOrder → List Mismatch
untracked_orders s [] = []
untracked_orders s (o ∷ os) =
    only (is_untracked o.comment (by_broker_order o.broker_order_id s))
      (mismatch untracked_order o.comment)
    ++ untracked_orders s os

unfoldable pub balance_off : ExecutionConfig → Option Decimal → Decimal → Bool
balance_off cfg none now_there = false
balance_off cfg (some expected) now_there =
    ltb_ℚ cfg.balance_tolerance (abs_ℚ (now_there -ℚ expected))

unfoldable pub mismatches : ExecutionConfig → Datetime → ExecState → BrokerView → List Mismatch
mismatches cfg time s v =
    compare_orders cfg time v (active s)
    ++ (untracked_positions s v.positions
        ++ (untracked_orders s v.orders
            ++ only (balance_off cfg s.expected_balance v.balance) (mismatch balance "")))

abbrev pub external_positions : List BrokerPosition → List String
external_positions [] = []
external_positions (p ∷ ps) =
    let rest = external_positions ps in
    if is_system_comment p.comment then rest else position_label p.position_id ∷ rest

abbrev external_orders : List BrokerOrder → List String
external_orders [] = []
external_orders (o ∷ os) =
    let rest = external_orders os in
    if is_system_comment o.comment then rest else order_label o.broker_order_id ∷ rest

abbrev pub external : BrokerView → List String
external v = external_positions v.positions ++ external_orders v.orders

abbrev is_unreachable : Mismatch → Bool
is_unreachable m = elim m.kind [ broker_unreachable ↦ true | _ ↦ false ]

abbrev pub all_unreachable : ReconReport → Bool
all_unreachable report = all is_unreachable report.mismatches
