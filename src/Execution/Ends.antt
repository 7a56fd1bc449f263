-- ===== src/Execution/Ends.antt =====
-- The ends of orders, in packages/execution/src/autotrader/execution/order_manager.py:
-- the expiry and the cancelling of pending entries, halts and demotions.
use Prim.{Unit, tt}
use Prim.Native.String.{◌++◌}
use kometa.Prelude.{
  ℕ, suc, Bool, true, false, ◌&&◌, not, String, Option, none, some, List, [], ◌∷◌, ◌==◌, ltb, leb,
  string_eq, if◌then◌else◌, keep_if, any, nat_eq,
}
use kometa.Prelude.Dict.{lookup}
use kometa.Core.Time.{Datetime}
use kometa.Core.Broker.{BrokerAck, BrokerOrder, BrokerPosition, is_system_comment}
use kometa.Core.Events.{critical}
use kometa.Core.Models.{HaltCommand, HaltState}
use kometa.Execution.Journal.{
  TrackedOrder, OrderState, pending_order, open_order, cancelled, expired, active,
}
use kometa.Execution.World.{
  Env, Method, runtime_error, cancelling, emit, ◌>>=◌, ◌>>◌, give, raise, catching, gets, ask, now,
  amend,
}
use kometa.Execution.Orders.{alert, save, joined}
use kometa.Execution.Views.{is_state}
use kometa.Execution.Stops.{close, close_at_broker}

abbrev halt_value : HaltState → String
halt_value HaltState.normal = "NORMAL"
halt_value HaltState.daily_halt = "DAILY_HALT"
halt_value HaltState.weekly_halt = "WEEKLY_HALT"
halt_value HaltState.recon_halt = "RECON_HALT"
halt_value HaltState.full_halt = "FULL_HALT"

-- `t.expires_at is not None and t.expires_at <= now`
abbrev pub is_past : Option Datetime → Datetime → Bool
is_past none time = false
is_past (some at) time = leb at time

abbrev pub is_version : String → String → TrackedOrder → Bool
is_version strategy_id version t = t.strategy_id == strategy_id && t.strategy_version == version

abbrev text_of : Option String → String
text_of none = ""
text_of (some s) = s

abbrev with_id : Option String → Option String
with_id none = none
with_id (some s) = if s == "" then none else some s

module _ {B : Type 0} where
  abbrev pub cancel_at_broker : Env B → String → Method B BrokerAck
  cancel_at_broker k order_id = emit (cancelling order_id) >> ask (k.adapter.cancel order_id)

  abbrev pub gone_from_broker : Env B → String → BrokerAck → Method B Bool
  gone_from_broker k order_id ack = if ack.success then give true else (do
    orders ← ask k.adapter.pending_orders
    give (not (any (λ o. o.broker_order_id == order_id) orders)))

  abbrev pub expire_at : Env B → TrackedOrder → Option String → ℕ → Method B ℕ
  expire_at k t none n = give n
  expire_at k t (some order_id) n = do
    ack ← cancel_at_broker k order_id
    gone ← gone_from_broker k order_id ack
    if gone
        then (amend t.client_order_id (λ u. record u { state = expired }) >> give (suc n))
        else give n

  unfoldable pub expire_all : Env B → Datetime → List TrackedOrder → ℕ → Method B ℕ
  expire_all k time [] n = give n
  expire_all k time (t ∷ ts) n = do
    m ←
        if is_state pending_order t && is_past t.expires_at time
        then expire_at k t (with_id t.broker_order_id) n
        else give n
    expire_all k time ts m

  unfoldable pub expire_pending : Env B → Method B ℕ
  expire_pending k = do
    time ← now k
    orders ← gets (λ w. active w.state)
    n ← expire_all k time orders 0
    if ltb 0 n then save k else give tt
    give n

  abbrev pub note_cancel : String → Option TrackedOrder → Method B (Unit {0})
  note_cancel reason none = give tt
  note_cancel reason (some t) =
      if is_state pending_order t
      then amend t.client_order_id (λ u. record u { state = cancelled; note = reason })
      else give tt

  unfoldable pub cancel_all : Env B → String → List BrokerOrder → Method B (List String)
  cancel_all k reason [] = give []
  cancel_all k reason (o ∷ os) =
      if not (is_system_comment o.comment) then cancel_all k reason os else (do
        ack ← cancel_at_broker k o.broker_order_id
        t ← gets (λ w. lookup o.comment w.state.orders)
        if ack.success then note_cancel reason t else give tt
        rest ← cancel_all k reason os
        give (if ack.success then o.broker_order_id ∷ rest else rest))

  unfoldable pub cancel_pending_entries : Env B → String → Method B (List String)
  cancel_pending_entries k reason = do
    orders ← ask k.adapter.pending_orders
    done ← cancel_all k reason orders
    save k
    give done

  unfoldable pub close_all : Env B → List BrokerPosition → Method B (List String)
  close_all k [] = give []
  close_all k (p ∷ ps) =
      if not (is_system_comment p.comment)
      then alert critical "external_position_open_in_halt" p.position_id >> close_all k ps
      else (do
        closed_it ←
            catching (do ack ← close_at_broker k p.position_id; give ack.success) (λ e. give false)
        rest ← close_all k ps
        give (if closed_it then rest else p.position_id ∷ rest))

  abbrev pub close_for_halt : Env B → Method B (List String)
  close_for_halt k = ask k.adapter.open_positions >>= close_all k

  -- the alert of the positions left
  abbrev pub alert_left : List String → Method B (Unit {0})
  alert_left [] = give tt
  alert_left (p ∷ ps) = alert critical "halt_close_failed" (joined (p ∷ ps))

  unfoldable pub apply_halt : {R : Type 0} → Env B → HaltCommand R → Method B (Unit {0})
  apply_halt k cmd = do
    if cmd.cancel_pending_entries
        then (cancel_pending_entries k ("halt " ++ halt_value cmd.state) >> give tt)
        else give tt
    left ← if cmd.close_positions then close_for_halt k else give []
    alert_left left
    save k

  -- `_of`
  abbrev orders_of : String → String → OrderState → Method B (List TrackedOrder)
  orders_of strategy_id version s =
      gets (λ w. keep_if (λ t. is_state s t && is_version strategy_id version t) (active w.state))

  unfoldable pub cancel_each : Env B → String → List TrackedOrder → Method B (List String)
  cancel_each k reason [] = give []
  cancel_each k reason (t ∷ ts) = do
    ack ← cancel_at_broker k (text_of t.broker_order_id)
    if ack.success
        then amend t.client_order_id
            (λ u. record u { state = cancelled; note = "demotion: " ++ reason })
        else give tt
    rest ← cancel_each k reason ts
    give (if ack.success then rest else t.client_order_id ∷ rest)

  abbrev pub raise_any : List String → Method B (Unit {0})
  raise_any [] = give tt
  raise_any (c ∷ cs) = raise (runtime_error (c ∷ cs))

  unfoldable pub cancel_pending_of :
      Env B → (strategy_id version reason : String) → Method B (Unit {0})
  cancel_pending_of k strategy_id version reason = do
    orders ← orders_of strategy_id version pending_order
    left ← cancel_each k reason orders
    save k
    raise_any left

  unfoldable pub close_each : Env B → String → List TrackedOrder → Method B (List String)
  close_each k reason [] = give []
  close_each k reason (t ∷ ts) = do
    done ← close k (text_of t.position_id) ("demotion: " ++ reason)
    rest ← close_each k reason ts
    give (if done then rest else t.client_order_id ∷ rest)

  unfoldable pub close_positions_of :
      Env B → (strategy_id version reason : String) → Method B (Unit {0})
  close_positions_of k strategy_id version reason = do
    orders ← orders_of strategy_id version open_order
    left ← close_each k reason orders
    raise_any left

  unfoldable pub open_positions_of : String → Method B (List TrackedOrder)
  open_positions_of strategy_id =
      gets (λ w.
        keep_if (λ t. is_state open_order t && (t.strategy_id == strategy_id)) (active w.state))
