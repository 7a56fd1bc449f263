-- ===== src/Execution/Steps/Ends.antt =====
-- What the expiry and the cancelling of orders, halts and demotions of
-- packages/execution/src/autotrader/execution/order_manager.py leave.
use kometa.Prelude.{◌≡◌, refl, ℕ, false, String, Option, some, none, List, [], ◌∷◌}
use kometa.Core.Broker.{BrokerOrder, BrokerPosition, BrokerAck}
use kometa.Core.Models.{HaltCommand}
use kometa.Core.Time.{Datetime}
use kometa.Execution.Journal.{TrackedOrder}
use kometa.Execution.World.{Effect, Env}
use kometa.Execution.Ends.{
  cancel_at_broker, gone_from_broker, expire_at, expire_all, expire_pending, note_cancel,
  cancel_all, cancel_pending_entries, close_all, alert_left, apply_halt, cancel_each, raise_any,
  cancel_pending_of, close_each, close_positions_of,
}
use kometa.Execution.Kept.{moved}
use kometa.Execution.Steps.{
  Steps, bind, seq, catch, give-Steps, raise-Steps, gets-Steps, if_Steps, ask-Steps, now-Steps,
}
use kometa.Execution.Steps.Journal.{is_placing, amend-Steps, save-Steps, alert-Steps, quietly}
use kometa.Execution.Steps.Stops.{close_at_broker-Steps, close-Steps}

module _ {B : Type 0} {Q : List Effect → Effect → Type 0}
    (quiet : (past : List Effect) (e : Effect) → is_placing e ≡ false → Q past e) where
  cancel_at_broker-Steps : (k : Env B) (id : String) → Steps Q (cancel_at_broker k id)
  cancel_at_broker-Steps k id = seq (quietly quiet _ refl) (ask-Steps _)

  gone_from_broker-Steps :
      (k : Env B) (id : String) (ack : BrokerAck) → Steps Q (gone_from_broker k id ack)
  gone_from_broker-Steps k id ack =
      if_Steps _ (give-Steps _) (bind (ask-Steps _) (λ orders. give-Steps _))

  expire_at-Steps :
      (k : Env B) (t : TrackedOrder) (id : Option String) (n : ℕ) → Steps Q (expire_at k t id n)
  expire_at-Steps k t none n = give-Steps _
  expire_at-Steps k t (some id) n = bind (cancel_at_broker-Steps k id) (λ ack.
      bind (gone_from_broker-Steps k id ack) (λ gone.
        if_Steps _
          (seq (amend-Steps _ _ (λ u. moved u _ refl refl refl refl refl refl)) (give-Steps _))
          (give-Steps _)))

  expire_all-Steps :
      (k : Env B) (time : Datetime) (ts : List TrackedOrder) (n : ℕ)
      → Steps Q (expire_all k time ts n)
  unfolding expire_all
  expire_all-Steps k time [] n = give-Steps _
  expire_all-Steps k time (t ∷ ts) n =
      bind (if_Steps _ (expire_at-Steps k t _ n) (give-Steps _)) (λ m. expire_all-Steps k time ts m)

  pub expire_pending-Steps : (k : Env B) → Steps Q (expire_pending k)
  unfolding expire_pending
  expire_pending-Steps k = bind (now-Steps k) (λ time. bind (gets-Steps _) (λ orders.
      bind (expire_all-Steps k time orders 0)
        (λ n. bind (if_Steps _ (save-Steps quiet k) (give-Steps _)) (λ a. give-Steps _))))

  note_cancel-Steps :
      (reason : String) (t : Option TrackedOrder) → Steps Q (note_cancel {B = B} reason t)
  note_cancel-Steps reason none = give-Steps _
  note_cancel-Steps reason (some t) =
      if_Steps _ (amend-Steps _ _ (λ u. moved u _ refl refl refl refl refl refl)) (give-Steps _)

  cancel_all-Steps :
      (k : Env B) (reason : String) (os : List BrokerOrder) → Steps Q (cancel_all k reason os)
  unfolding cancel_all
  cancel_all-Steps k reason [] = give-Steps _
  cancel_all-Steps k reason (o ∷ os) = if_Steps _ (cancel_all-Steps k reason os) (
      bind (cancel_at_broker-Steps k _) (λ ack. bind (gets-Steps _) (λ t.
        bind (if_Steps _ (note_cancel-Steps reason t) (give-Steps _))
          (λ a. bind (cancel_all-Steps k reason os) (λ rest. give-Steps _)))))

  pub cancel_pending_entries-Steps :
      (k : Env B) (reason : String) → Steps Q (cancel_pending_entries k reason)
  unfolding cancel_pending_entries
  cancel_pending_entries-Steps k reason = bind (ask-Steps _) (λ orders.
      bind (cancel_all-Steps k reason orders)
        (λ done. bind (save-Steps quiet k) (λ a. give-Steps _)))

  close_all-Steps : (k : Env B) (ps : List BrokerPosition) → Steps Q (close_all k ps)
  unfolding close_all
  close_all-Steps k [] = give-Steps _
  close_all-Steps k (p ∷ ps) = if_Steps _ (seq (alert-Steps quiet _ _ _) (close_all-Steps k ps)) (
      bind
        (catch (bind (close_at_broker-Steps quiet k _) (λ ack. give-Steps _)) (λ e. give-Steps _))
        (λ closed_it. bind (close_all-Steps k ps) (λ rest. give-Steps _)))

  alert_left-Steps : (ps : List String) → Steps Q (alert_left {B = B} ps)
  alert_left-Steps [] = give-Steps _
  alert_left-Steps (p ∷ ps) = alert-Steps quiet _ _ _

  pub apply_halt-Steps : {R : Type 0} (k : Env B) (cmd : HaltCommand R) → Steps Q (apply_halt k cmd)
  unfolding apply_halt
  apply_halt-Steps k cmd =
      bind (if_Steps _ (seq (cancel_pending_entries-Steps k _) (give-Steps _)) (give-Steps _)) (λ a.
        bind (if_Steps _ (bind (ask-Steps _) (close_all-Steps k)) (give-Steps _))
          (λ left. bind (alert_left-Steps left) (λ b. save-Steps quiet k)))

  cancel_each-Steps :
      (k : Env B) (reason : String) (ts : List TrackedOrder) → Steps Q (cancel_each k reason ts)
  unfolding cancel_each
  cancel_each-Steps k reason [] = give-Steps _
  cancel_each-Steps k reason (t ∷ ts) = bind (cancel_at_broker-Steps k _) (λ ack.
      bind
        (if_Steps _ (amend-Steps _ _ (λ u. moved u _ refl refl refl refl refl refl)) (give-Steps _))
        (λ a. bind (cancel_each-Steps k reason ts) (λ rest. give-Steps _)))

  raise_any-Steps : (left : List String) → Steps Q (raise_any {B = B} left)
  raise_any-Steps [] = give-Steps _
  raise_any-Steps (c ∷ cs) = raise-Steps _

  pub cancel_pending_of-Steps :
      (k : Env B) (strategy_id version reason : String)
      → Steps Q (cancel_pending_of k strategy_id version reason)
  unfolding cancel_pending_of
  cancel_pending_of-Steps k strategy_id version reason = bind (gets-Steps _) (λ orders.
      bind (cancel_each-Steps k reason orders)
        (λ left. bind (save-Steps quiet k) (λ a. raise_any-Steps left)))

  close_each-Steps :
      (k : Env B) (reason : String) (ts : List TrackedOrder) → Steps Q (close_each k reason ts)
  unfolding close_each
  close_each-Steps k reason [] = give-Steps _
  close_each-Steps k reason (t ∷ ts) =
      bind (close-Steps quiet k _ _)
        (λ done. bind (close_each-Steps k reason ts) (λ rest. give-Steps _))

  pub close_positions_of-Steps :
      (k : Env B) (strategy_id version reason : String)
      → Steps Q (close_positions_of k strategy_id version reason)
  unfolding close_positions_of
  close_positions_of-Steps k strategy_id version reason =
      bind (gets-Steps _)
        (λ orders. bind (close_each-Steps k reason orders) (λ left. raise_any-Steps left))
