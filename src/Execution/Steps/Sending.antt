-- ===== src/Execution/Steps/Sending.antt =====
-- What `_send` and `_adopt` of packages/execution/src/autotrader/execution/order_manager.py leave, where a
-- request is placed only after the journal was written with its order.
use kometa.Prelude.{
  beq_refl, List, ◌≡◌, ◌∙◌, refl, ap, zero, suc, ℕ, false, String, Option, some, none, string_eq,
  if◌then◌else◌,
}
use kometa.Prelude.Dict.{lookup-insert, lookup, insert}
use kometa.Core.Broker.{BrokerPosition, BrokerAck, PlaceRequest}
use kometa.Core.Time.{Datetime}
use kometa.Decimal.{Decimal}
use kometa.Execution.Journal.{TrackedOrder}
use kometa.Execution.World.{◌>>◌, Method, give, Effect, Env, World, placing, set_state}
use kometa.Execution.Orders.{save}
use kometa.Execution.Entries.{
  Attempt, found_there, answer, adopt, adopted, place_or_adopt, attempt, attempts, placed_market,
  handle_ack, after_attempts, send, track_and_send, find_at_broker, order_at_broker,
}
use kometa.Execution.Kept.{moved, insert-Kept}
use kometa.Execution.Later.{Later-refl}
use kometa.Execution.Steps.{
  Step, Steps, bind, bind_at, seq, give-Steps, gets-Steps, if_Steps, ask-Steps, now-Steps,
}
use kometa.Execution.Steps.Journal.{
  is_placing, amend-Steps, save-Steps, alert-Steps, record_fill-Steps, Kept-Step,
}
use kometa.Execution.Steps.Written.{
  Written, After, anyway, then-After, catch-After, emit-After, save-Written,
}
use kometa.Execution.Steps.Deals.{first_opened-Later}
use kometa.Execution.Steps.Stops.{confirm_stop-Steps}

module _ {B : Type 0} {Q : List Effect → Effect → Type 0}
    (quiet : (past : List Effect) (e : Effect) → is_placing e ≡ false → Q past e) where
  adopt-Steps :
      (k : Env B) (t : TrackedOrder) (p : Option BrokerPosition) (o : Option String)
      → Steps Q (adopt k t p o)
  unfolding adopt
  adopt-Steps k t (some p) o =
      bind
        (amend-Steps _ _ (λ u.
          first_opened-Later u.entry_price p.price_open p.lots u _
            (moved u _ refl refl refl refl refl refl)))
        (λ a. bind (save-Steps quiet k) (λ b. bind (gets-Steps _) (λ u.
          bind (record_fill-Steps quiet k u _ _ _ _)
            (λ c. bind (confirm_stop-Steps quiet k u) (λ d. give-Steps _)))))
  adopt-Steps k t none (some o) =
      seq (amend-Steps _ _ (λ u. moved u _ refl refl refl refl refl refl)) (save-Steps quiet k)
  adopt-Steps k t none none = give-Steps _

  adopted-Steps :
      (k : Env B) (t : TrackedOrder) (p : Option BrokerPosition) (o : Option String)
      → Steps Q (adopted k t p o)
  adopted-Steps k t p o = bind (adopt-Steps k t p o) (λ a. bind (gets-Steps _) (λ u. give-Steps _))

  placed_market-Steps :
      (k : Env B) (t : TrackedOrder) (ack : BrokerAck) (latency : Decimal)
      → Steps Q (placed_market k t ack latency)
  placed_market-Steps k t ack latency =
      bind (amend-Steps _ _ (λ u. moved u _ refl refl refl refl refl refl)) (λ a.
        bind (gets-Steps _) (λ u.
          bind (amend-Steps _ _ (λ v. first_opened-Later v.entry_price _ u.lots v v (Later-refl v)))
            (λ b. bind (save-Steps quiet k) (λ c. bind (gets-Steps _) (λ v.
              bind (record_fill-Steps quiet k v _ _ _ _)
                (λ d. bind (confirm_stop-Steps quiet k v) (λ e. give-Steps _)))))))

  handle_ack-Steps :
      (k : Env B) (t : TrackedOrder) (ack : BrokerAck) (latency : Decimal)
      → Steps Q (handle_ack k t ack latency)
  handle_ack-Steps k t ack latency =
      if_Steps _
        (bind (amend-Steps _ _ (λ u. moved u _ refl refl refl refl refl refl))
          (λ a. bind (save-Steps quiet k) (λ b. give-Steps _)))
        (bind
          (if_Steps _ (placed_market-Steps k t ack latency) (
            seq (amend-Steps _ _ (λ u. moved u _ refl refl refl refl refl refl))
              (save-Steps quiet k)))
          (λ a. bind (gets-Steps _) (λ u. give-Steps _)))

  after_attempts-Steps :
      (k : Env B) (t : TrackedOrder) (at : Datetime) (o : Option Attempt)
      → Steps Q (after_attempts k t at o)
  after_attempts-Steps k t at none = bind (alert-Steps quiet _ _ _) (λ a. give-Steps _)
  after_attempts-Steps k t at (some (found_there r)) = give-Steps _
  after_attempts-Steps k t at (some (answer ack)) =
      bind (now-Steps k) (λ time. handle_ack-Steps k t ack _)

  order_at_broker-Steps :
      (k : Env B) (coid : String) (p : Option BrokerPosition) → Steps Q (order_at_broker k coid p)
  order_at_broker-Steps k coid (some p) = give-Steps _
  order_at_broker-Steps k coid none = bind (ask-Steps _) (λ orders. give-Steps _)

  find_at_broker-Steps : (k : Env B) (coid : String) → Steps Q (find_at_broker k coid)
  unfolding find_at_broker
  find_at_broker-Steps k coid = bind (ask-Steps _) (λ ps. order_at_broker-Steps k coid _)

  insert-Step :
      (t : TrackedOrder) (w : World B)
      → lookup t.client_order_id w.state.orders ≡ none
      → Step Q w (set_state (λ s. record s { orders = insert t.client_order_id t s.orders }) w).1
  unfolding set_state
  insert-Step t w h =
      Kept-Step w (record w.state { orders = insert t.client_order_id t w.state.orders })
        (insert-Kept t.client_order_id t w.state.orders h refl)

  -- sending a request that may be placed once the journal was written with its order
  module _ (k : Env B) (t : TrackedOrder) (req : PlaceRequest)
      (allowed : (past : List Effect) → Written t.client_order_id past → Q past (placing req)) where
    place_or_adopt-After :
        (at : Option BrokerPosition × Option String)
        → After t.client_order_id Q (place_or_adopt k t req at)
    place_or_adopt-After (some p, o) = anyway (adopted-Steps k t (some p) o)
    place_or_adopt-After (none, some o) = anyway (adopted-Steps k t none (some o))
    place_or_adopt-After (none, none) =
        then-After (then-After (emit-After (placing req) allowed) (λ a. anyway (ask-Steps _)))
          (λ ack. anyway (give-Steps _))

    attempt-After : After t.client_order_id Q (attempt k t req)
    unfolding attempt
    attempt-After =
        then-After (anyway (find_at_broker-Steps k _))
          (λ at. then-After (place_or_adopt-After at) (λ done. anyway (give-Steps _)))

    attempts-After : (n : ℕ) → After t.client_order_id Q (attempts k t req n)
    unfolding attempts
    attempts-After zero = anyway (give-Steps _)
    attempts-After (suc n) =
        then-After (catch-After attempt-After (λ e. give-Steps _))
          (λ done. again (attempts-After n) done)
      where
        again :
            After t.client_order_id Q (attempts k t req n)
            → (o : Option Attempt)
            → After t.client_order_id Q (elim o as (λ x. Method B (Option Attempt)) [
              | none ↦ attempts k t req n
              | some a ↦ give (some a)
            ])
        again h none = h
        again h (some a) = anyway (give-Steps _)

    send-After : After t.client_order_id Q (send k t req)
    unfolding send
    send-After =
        then-After (anyway (now-Steps k))
          (λ at. then-After (attempts-After 2) (λ o. anyway (after_attempts-Steps k t at o)))

    save_and_send-Step :
        (w : World B)
        → lookup t.client_order_id w.state.orders ≡ some t
        → Step Q w ((save k >> send k t req) w).1
    save_and_send-Step w h =
        bind_at w (save k) (λ a. send k t req) ((save-Steps quiet k).from w)
          (λ a. send-After.from (save k w).1 (save-Written k t.client_order_id t w h))

    inserted :
        (w : World B)
        → lookup t.client_order_id
            (set_state
              (λ s. record s { orders = insert t.client_order_id t s.orders })
              w).1.state.orders
          ≡ some t
    unfolding set_state
    inserted w =
        lookup-insert t.client_order_id t.client_order_id t w.state.orders
        ∙ ap (λ b. if b then some t else lookup t.client_order_id w.state.orders)
            (beq_refl t.client_order_id)

    pub track_and_send-Step :
        (w : World B)
        → lookup t.client_order_id w.state.orders ≡ none
        → Step Q w (track_and_send k t req w).1
    track_and_send-Step w h =
        let add = set_state (λ s. record s { orders = insert t.client_order_id t s.orders }) in
        bind_at w add _ (insert-Step t w h) (λ u. save_and_send-Step (add w).1 (inserted w))
