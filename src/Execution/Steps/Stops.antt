-- ===== src/Execution/Steps/Stops.antt =====
-- What confirming a stop, tightening one and closing a position leave, in
-- packages/execution/src/autotrader/execution/order_manager.py.
use kometa.Execution.Orders.{stop_rounding, round_price, save}
use kometa.Execution.Views.{is_state}
use kometa.Prelude.{
  List, string_eq, ap, inr, err, inl, if◌then◌else◌, ◌∷◌, ok, arith, not, Option-cases, Result,
  Bool, ◌∙◌, sym, some_inj, true, ◌≡◌, refl, zero, suc, ℕ, false, String, Option, some, none,
}
use kometa.Core.Broker.{SymbolInfo, BrokerPosition, ModifyRequest}
use kometa.Execution.Journal.{open_order, has_id, by_position, TrackedOrder}
use kometa.Execution.World.{
  Method, modifying, ◌>>=◌, ◌>>◌, answered, ask, emit, give, raise, gets, amend, key_error, gets,
  World, amend, Effect, Env, Failure, none_or_raise,
}
use kometa.Execution.Stops.{
  stop_request, tighten_stop, tighten, tighter, StopTry, settled, close_answer, modify_stop,
  close_at_broker, position, mark_confirmed, repair, restore, check_stop_at, after_try, confirm_at,
  confirm_stop, note_close, close,
}
use kometa.Execution.Kept.{lookup-first_order, Keyed, moved}
use kometa.Execution.Later.{Later, tighter-AsTight, AsTight}
use kometa.Execution.Steps.{
  if_at, bind_at, lookup, subst, Step, Decimal, Steps, bind, seq, catch, give-Steps, gets-Steps,
  if_Steps, ask-Steps,
}
use kometa.Execution.Steps.Journal.{
  amend-Step, is_placing, amend-Steps, none_or_raise-Steps, quietly, save-Steps, alert-Steps,
}

not-false : (b : Bool) → not b ≡ false → b ≡ true
not-false b h = ground arith

none_or_raise-state :
    {B A : Type 0} (e : Failure) (o : Option A) (w : World B)
    → (none_or_raise e o w).1.state ≡ w.state
unfolding give raise
none_or_raise-state e none w = refl
none_or_raise-state e (some a) w = refl

answered-state :
    {B A : Type 0} (o : Result String A × B) (w : World B) → (answered o w).1.state ≡ w.state
answered-state (ok a, b) w = refl
answered-state (err e, b) w = refl

modify_stop-state :
    {B : Type 0} (k : Env B) (req : ModifyRequest) (w : World B)
    → (modify_stop k req w).1.state ≡ w.state
unfolding ◌>>=◌ ask emit
modify_stop-state k req w =
    answered-state (k.adapter.modify req w.broker)
      (record w { effects = modifying req ∷ w.effects })

module _ {B : Type 0} {Q : List Effect → Effect → Type 0}
    (quiet : (past : List Effect) (e : Effect) → is_placing e ≡ false → Q past e) where
  modify_stop-Steps : (k : Env B) (req : ModifyRequest) → Steps Q (modify_stop k req)
  modify_stop-Steps k req = seq (quietly quiet _ refl) (ask-Steps _)

  pub close_at_broker-Steps : (k : Env B) (id : String) → Steps Q (close_at_broker k id)
  close_at_broker-Steps k id = seq (quietly quiet _ refl) (ask-Steps _)

  position-Steps : (k : Env B) (id : String) → Steps Q (position k id)
  unfolding position
  position-Steps k id = bind (ask-Steps _) (λ open_now. give-Steps _)

  mark_confirmed-Steps : (k : Env B) (t : TrackedOrder) → Steps Q (mark_confirmed k t)
  mark_confirmed-Steps k t =
      seq (amend-Steps t.client_order_id _ (λ u. moved u _ refl refl refl refl refl refl))
        (save-Steps quiet k)

  repair-Steps : (k : Env B) (t : TrackedOrder) (id : String) (n : ℕ) → Steps Q (repair k t id n)
  unfolding repair
  repair-Steps k t id zero = give-Steps _
  repair-Steps k t id (suc n) =
      bind (catch (seq (modify_stop-Steps k _) (give-Steps _)) (λ e. give-Steps _)) (λ u.
        bind (position-Steps k id) (λ pos.
          if_Steps _ (seq (seq (mark_confirmed-Steps k t) (alert-Steps quiet _ _ _)) (give-Steps _))
            (repair-Steps k t id n)))

  restore-Steps : (k : Env B) (t : TrackedOrder) (id : String) → Steps Q (restore k t id)
  restore-Steps k t id = bind (alert-Steps quiet _ _ _) (λ u.
      bind (repair-Steps k t id _) (λ repaired.
        if_Steps _ (give-Steps _) (bind (close_at_broker-Steps k id) (λ ack. give-Steps _))))

  check_stop_at-Steps :
      (k : Env B) (t : TrackedOrder) (id : String) (p : Option BrokerPosition)
      → Steps Q (check_stop_at k t id p)
  check_stop_at-Steps k t id none = give-Steps _
  check_stop_at-Steps k t id (some p) =
      if_Steps _ (seq (mark_confirmed-Steps k t) (give-Steps _)) (restore-Steps k t id)

  after_try-Steps :
      (k : Env B) (t : TrackedOrder) (id : String) (r : StopTry) → Steps Q (after_try k t id r)
  after_try-Steps k t id (settled b) = give-Steps _
  after_try-Steps k t id (close_answer ack) =
      bind
        (if_Steps _
          (seq (amend-Steps _ _ (λ u. moved u _ refl refl refl refl refl refl))
            (alert-Steps quiet _ _ _))
          (alert-Steps quiet _ _ _))
        (λ u. bind (save-Steps quiet k) (λ v. give-Steps _))

  confirm_at-Steps :
      (k : Env B) (t : TrackedOrder) (id : Option String) → Steps Q (confirm_at k t id)
  confirm_at-Steps k t none = give-Steps _
  confirm_at-Steps k t (some id) =
      bind
        (catch (bind (position-Steps k id) (check_stop_at-Steps k t id))
          (λ e. seq (alert-Steps quiet _ _ _) (give-Steps _)))
        (after_try-Steps k t id)

  pub confirm_stop-Steps : (k : Env B) (t : TrackedOrder) → Steps Q (confirm_stop k t)
  unfolding confirm_stop
  confirm_stop-Steps k t =
      bind (gets-Steps _) (λ u. if_Steps _ (give-Steps _) (confirm_at-Steps k u u.position_id))

  note_close-Steps :
      (k : Env B) (reason : String) (t : Option TrackedOrder) → Steps Q (note_close k reason t)
  note_close-Steps k reason none = give-Steps _
  note_close-Steps k reason (some t) =
      seq (amend-Steps _ _ (λ u. moved u _ refl refl refl refl refl refl)) (save-Steps quiet k)

  pub close-Steps : (k : Env B) (id reason : String) → Steps Q (close k id reason)
  unfolding close
  close-Steps k id reason = bind (close_at_broker-Steps k id) (λ ack.
      bind (gets-Steps _)
        (λ t. bind (if_Steps _ (note_close-Steps k reason t) (give-Steps _)) (λ u. give-Steps _)))

  set_stop-Step :
      (id : String) (sl : Decimal) (t : TrackedOrder) (w : World B)
      → Keyed w.state.orders
      → by_position id w.state ≡ some t
      → tighter t.side sl t.sl ≡ true
      → Step Q w (amend t.client_order_id (λ u. record u { sl = sl }) w).1
  unfolding by_position
  set_stop-Step id sl t w keyed found tight =
      amend-Step t.client_order_id (λ u. record u { sl = sl }) w
        (λ u h. moved_stop u (
          tight_of u (
            some_inj (
              sym (lookup-first_order (λ o. has_id id o.position_id) w.state.orders t keyed found)
              ∙ h))))
    where
      tight_of : (u : TrackedOrder) → t ≡ u → AsTight u.side u.sl sl
      tight_of u e = subst (λ x. AsTight x.side x.sl sl) e (tighter-AsTight t.side sl t.sl tight)

      moved_stop : (u : TrackedOrder) → AsTight u.side u.sl sl → Later u (record u { sl = sl })
      moved_stop u h = record {
        same_key = refl;
        same_intent = refl;
        same_side = refl;
        same_symbol = refl;
        same_magic = refl;
        stop = h;
      }

  confirmed-Step :
      (k : Env B) (id : String) (sl : Decimal) (t : TrackedOrder) (w v : World B)
      → v.state ≡ w.state
      → Keyed w.state.orders
      → by_position id w.state ≡ some t
      → tighter t.side sl t.sl ≡ true
      → Step Q v ((amend t.client_order_id (λ u. record u { sl = sl }) >> save k >> give true) v).1
  confirmed-Step k id sl t w v e keyed found tight =
      let set = amend t.client_order_id (λ u. record u { sl = sl }) in
      bind_at v (set >> save k) (λ u. give true)
        (bind_at v set (λ u. save k)
          (set_stop-Step id sl t v (subst (λ s. Keyed s.orders) (sym e) keyed)
            (ap (λ s. by_position id s) e ∙ found) tight)
          (λ u. (save-Steps quiet k).from (set v).1))
        (λ u. (give-Steps true).from ((set >> save k) v).1)

  modified-Step :
      (k : Env B) (id : String) (sl : Decimal) (t : TrackedOrder) (w v : World B)
      → v.state ≡ w.state
      → Keyed w.state.orders
      → by_position id w.state ≡ some t
      → tighter t.side sl t.sl ≡ true
      → Step Q v
          ((modify_stop k (stop_request t id sl) >>= λ ack.
              if ack.success
              then amend t.client_order_id (λ u. record u { sl = sl }) >> save k >> give true
              else give false)
            v).1
  modified-Step k id sl t w v e keyed found tight =
      let ask_it = modify_stop k (stop_request t id sl) in
      let x = (ask_it v).1 in
      bind_at v ask_it _ ((modify_stop-Steps k (stop_request t id sl)).from v) (λ ack.
        if_at x ack.success _ _
          (λ h.
            confirmed-Step k id sl t w x (modify_stop-state k (stop_request t id sl) v ∙ e) keyed
              found tight)
          (λ h. (give-Steps false).from x))

  tighten_with-Step :
      (k : Env B) (id : String) (new_stop : Decimal) (t : TrackedOrder) (w : World B)
      → Keyed w.state.orders
      → by_position id w.state ≡ some t
      → Step Q w (tighten k id new_stop (some t) w).1
  tighten_with-Step k id new_stop t w keyed found =
      if_at w (not (is_state open_order t)) _ _ (λ h. (give-Steps false).from w)
        (λ h. bind_at w of_symbol _ ((none_or_raise-Steps _ _).from w) (λ info.
          if_at v (not (tighter t.side (rounded info) t.sl)) _ _ (λ g. (give-Steps false).from v)
            (λ g.
              modified-Step k id (rounded info) t w v
                (none_or_raise-state (key_error t.symbol) (lookup t.symbol k.symbols) w) keyed found
                (not-false (tighter t.side (rounded info) t.sl) g))))
    where
      of_symbol : Method B SymbolInfo
      of_symbol = none_or_raise (key_error t.symbol) (lookup t.symbol k.symbols)

      rounded : SymbolInfo → Decimal
      rounded info = round_price new_stop info.digits (stop_rounding t.side)

      v : World B
      v = (of_symbol w).1

  pub tighten_stop-Step :
      (k : Env B) (id : String) (new_stop : Decimal) (w : World B)
      → Keyed w.state.orders
      → Step Q w (tighten_stop k id new_stop w).1
  unfolding tighten_stop ◌>>=◌ gets
  tighten_stop-Step k id new_stop w keyed = elim (Option-cases (by_position id w.state)) [
    | inl e ↦
        subst (λ o. Step Q w (tighten k id new_stop o w).1) (sym e) ((give-Steps false).from w)
    | inr (t, e) ↦
        subst (λ o. Step Q w (tighten k id new_stop o w).1) (sym e)
          (tighten_with-Step k id new_stop t w keyed e)
  ]
