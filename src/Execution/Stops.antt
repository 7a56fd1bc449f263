-- ===== src/Execution/Stops.antt =====
-- The stops of the order manager (packages/execution/src/autotrader/execution/order_manager.py): confirming
-- one after a fill, tightening one, and closing a position.
use Prim.{Unit, tt}
use kometa.Prelude.{
  ℕ, zero, suc, Bool, true, false, not, String, Option, none, some, find, ◌==◌, string_eq,
  if◌then◌else◌,
}
use kometa.Prelude.Dict.{lookup}
use kometa.Core.Broker.{BrokerAck, BrokerPosition, ModifyRequest}
use kometa.Core.Events.{critical, information}
use kometa.Core.Models.{is_buy, Side}
use kometa.Decimal.{Decimal, ltb_ℚ}
use kometa.Execution.Journal.{TrackedOrder, open_order, by_position}
use kometa.Execution.World.{
  Env, Method, key_error, closing, modifying, ◌>>=◌, ◌>>◌, give, catching, none_or_raise, gets, ask,
  emit, amend, current,
}
use kometa.Execution.Orders.{alert, save, round_price, stop_rounding, stop_protects}
use kometa.Execution.Views.{is_state}

abbrev pub stop_request : TrackedOrder → String → Decimal → ModifyRequest
stop_request t position_id sl = record {
  position_id = some position_id;
  broker_order_id = none;
  sl = some sl;
  tp = t.tp;
}

abbrev gone_or_safe : TrackedOrder → Option BrokerPosition → Bool
gone_or_safe t none = true
gone_or_safe t (some p) = stop_protects t.side p.sl t.sl

-- what the `try` of `confirm_stop` ends with: its result, or the answer to the close
pub data StopTry : Type 0 where
  settled : Bool → StopTry
  close_answer : BrokerAck → StopTry

-- a new stop is nearer the price
abbrev pub tighter : Side → Decimal → Decimal → Bool
tighter side new old = if is_buy side then ltb_ℚ old new else ltb_ℚ new old

module _ {B : Type 0} where
  abbrev pub modify_stop : Env B → ModifyRequest → Method B BrokerAck
  modify_stop k req = emit (modifying req) >> ask (k.adapter.modify req)

  abbrev pub close_at_broker : Env B → String → Method B BrokerAck
  close_at_broker k position_id =
      emit (closing position_id) >> ask (k.adapter.close_position position_id)

  -- `_position`
  unfoldable pub position : Env B → String → Method B (Option BrokerPosition)
  position k position_id = do
    open_now ← ask k.adapter.open_positions
    give (find (λ p. p.position_id == position_id) open_now)

  abbrev pub mark_confirmed : Env B → TrackedOrder → Method B (Unit {0})
  mark_confirmed k t = amend t.client_order_id (λ u. record u { stop_confirmed = true }) >> save k

  -- the attempts to set the stop again: whether one worked
  unfoldable pub repair : Env B → TrackedOrder → String → ℕ → Method B Bool
  repair k t position_id zero = give false
  repair k t position_id (suc n) = do
    catching (modify_stop k (stop_request t position_id t.sl) >> give tt) (λ e. give tt)
    pos ← position k position_id
    if gone_or_safe t pos
        then (mark_confirmed k t >> alert information "stop_repaired" position_id >> give true)
        else repair k t position_id n

  abbrev pub restore : Env B → TrackedOrder → String → Method B StopTry
  restore k t position_id = do
    alert critical "missing_stop" position_id
    repaired ← repair k t position_id k.cfg.stop_confirm_attempts
    if repaired
        then give (settled true)
        else (do ack ← close_at_broker k position_id; give (close_answer ack))

  abbrev pub check_stop_at :
      Env B → TrackedOrder → String → Option BrokerPosition → Method B StopTry
  check_stop_at k t position_id none = give (settled true)
  check_stop_at k t position_id (some p) =
      if stop_protects t.side p.sl t.sl
      then (mark_confirmed k t >> give (settled true))
      else restore k t position_id

  abbrev pub after_try : Env B → TrackedOrder → String → StopTry → Method B Bool
  after_try k t position_id (settled b) = give b
  after_try k t position_id (close_answer ack) = do
    if ack.success
        then (amend t.client_order_id (λ u. record u { note = "closed: stop could not be set" })
            >> alert critical "missing_stop" position_id)
        else alert critical "missing_stop" position_id
    save k
    give false

  abbrev pub confirm_at : Env B → TrackedOrder → Option String → Method B Bool
  confirm_at k t none = give true
  confirm_at k t (some position_id) = do
    end ←
        catching (position k position_id >>= check_stop_at k t position_id)
          (λ e. alert critical "missing_stop" position_id >> give (settled false))
    after_try k t position_id end

  unfoldable pub confirm_stop : Env B → TrackedOrder → Method B Bool
  confirm_stop k t0 = do
    t ← current t0
    if not (is_state open_order t) then give true else confirm_at k t t.position_id

  abbrev pub tighten : Env B → String → Decimal → Option TrackedOrder → Method B Bool
  tighten k position_id new_stop none = give false
  tighten k position_id new_stop (some t) = if not (is_state open_order t) then give false else (do
    info ← none_or_raise (key_error t.symbol) (lookup t.symbol k.symbols)
    let sl = round_price new_stop info.digits (stop_rounding t.side)
    if not (tighter t.side sl t.sl) then give false else (do
      ack ← modify_stop k (stop_request t position_id sl)
      if ack.success
          then (amend t.client_order_id (λ u. record u { sl = sl }) >> save k >> give true)
          else give false))

  unfoldable pub tighten_stop : Env B → String → Decimal → Method B Bool
  tighten_stop k position_id new_stop = do
    t ← gets (λ w. by_position position_id w.state)
    tighten k position_id new_stop t

  abbrev pub note_close : Env B → String → Option TrackedOrder → Method B (Unit {0})
  note_close k reason none = give tt
  note_close k reason (some t) = amend t.client_order_id (λ u. record u { note = reason }) >> save k

  -- `close`
  unfoldable pub close : Env B → String → String → Method B Bool
  close k position_id reason = do
    ack ← close_at_broker k position_id
    t ← gets (λ w. by_position position_id w.state)
    if ack.success then note_close k reason t else give tt
    give ack.success
