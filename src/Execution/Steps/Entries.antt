-- ===== src/Execution/Steps/Entries.antt =====
-- What `execute` of packages/execution/src/autotrader/execution/order_manager.py leaves: the new order is
-- tracked beside the others, and a request is placed only for a decision that was verified.
use kometa.Execution.Verifier.{Refusal, verify, Verifier}
use kometa.Prelude.{
  List, arith, ◌≡◌, ◌∙◌, refl, ap, Bool, true, false, String, Option, some, none, string_eq, ok,
  if◌then◌else◌, not, ◌&&◌,
}
use kometa.Prelude.Dict.{lookup}
use kometa.Core.Broker.{client_order_id, SymbolInfo, Quote}
use kometa.Core.Time.{Datetime}
use kometa.Core.Models.{is_market, OrderIntent, RiskDecision, Timeframe}
use kometa.Decimal.{Decimal, dec_zero, ltb_ℚ, leb_ℚ}
use kometa.Execution.Journal.{TrackedOrder}
use kometa.Execution.World.{Method, give, Effect, Env, World, placing, ◌>>=◌, gets, now}
use kometa.Execution.Orders.{save}
use kometa.Execution.Entries.{
  request_of, bad_lots, send_market, send_entry, check_lots_and_send, verified, verify_decision,
  execute_new, execute,
}
use kometa.Execution.Steps.{
  Step, Steps, Step-trans, bind, bind_at, bind_with, if_at, give-Steps, if_Steps, now-Steps, alike,
}
use kometa.Execution.Steps.Journal.{or_raise-Steps, is_placing, save-Steps, alert-Steps}
use kometa.Execution.Steps.Written.{Written}
use kometa.Execution.Steps.Still.{
  Still, give-Still, or_raise-Still, bind_Still, if_Still, save-Still,
}
use kometa.Execution.Steps.Sending.{track_and_send-Step}

module _ {B : Type 0} where
  fits_of :
      (c : Bool) (m : Method B Bool) (w : World B)
      → ((if not c then give true else m) w).0 ≡ ok false
      → c ≡ true
  unfolding give
  fits_of true m w h = refl
  fits_of false m w h = ground arith

  bad_lots-fits :
      (intent : OrderIntent) (info : SymbolInfo) (lots : Decimal) (w : World B)
      → (bad_lots intent info lots w).0 ≡ ok false
      → (ltb_ℚ dec_zero lots && leb_ℚ lots intent.proposed_lots) ≡ true
  unfolding bad_lots
  bad_lots-fits intent info lots w h =
      fits_of (ltb_ℚ dec_zero lots && leb_ℚ lots intent.proposed_lots) _ w h

  bad_lots-Still :
      (intent : OrderIntent) (info : SymbolInfo) (lots : Decimal)
      → Still (bad_lots {B = B} intent info lots)
  unfolding bad_lots
  bad_lots-Still intent info lots =
      if_Still _ _ _ (give-Still _) (
        bind_Still _ _ (bind_Still _ _ (or_raise-Still _) (λ q. give-Still _))
          (λ off. give-Still _))

module _ {B : Type 0} {Q : List Effect → Effect → Type 0}
    (quiet : (past : List Effect) (e : Effect) → is_placing e ≡ false → Q past e) where
  bad_lots-Steps :
      (intent : OrderIntent) (info : SymbolInfo) (lots : Decimal)
      → Steps Q (bad_lots {B = B} intent info lots)
  unfolding bad_lots
  bad_lots-Steps intent info lots =
      if_Steps _ (give-Steps _)
        (bind (bind (or_raise-Steps _) (λ q. give-Steps _)) (λ off. give-Steps _))

  -- the sending of an intent, where its request may be placed if its size fits
  module _ (k : Env B) (intent : OrderIntent) (coid : String) (lots : Decimal) (tf : Timeframe)
      (time : Datetime)
      (allow : (ltb_ℚ dec_zero lots && leb_ℚ lots intent.proposed_lots) ≡ true
        → (info : SymbolInfo) (price : Option Decimal) → (past : List Effect) → Written coid past
        → Q past (placing (request_of k intent info coid lots price tf))) where
    send_market-Step :
        (info : SymbolInfo) (q : Option Quote) (w : World B)
        → (ltb_ℚ dec_zero lots && leb_ℚ lots intent.proposed_lots) ≡ true
        → lookup coid w.state.orders ≡ none
        → Step Q w (send_market k intent info coid lots tf time q w).1
    send_market-Step info none w fits h =
        (bind (alert-Steps quiet _ _ _) (λ a. give-Steps _)).from w
    send_market-Step info (some q) w fits h =
        track_and_send-Step quiet k _ _ (allow fits info none) w h

    send_entry-Step :
        (info : SymbolInfo) (w : World B)
        → (ltb_ℚ dec_zero lots && leb_ℚ lots intent.proposed_lots) ≡ true
        → lookup coid w.state.orders ≡ none
        → Step Q w (send_entry k intent info coid lots tf time w).1
    unfolding ◌>>=◌ gets
    send_entry-Step info w fits h =
        if_at w (is_market intent.signal.entry_type) _ _ (λ e. send_market-Step info _ w fits h)
          (λ e. track_and_send-Step quiet k _ _ (allow fits info _) w h)

    check_lots_and_send-Step :
        (info : Option SymbolInfo) (w : World B)
        → lookup coid w.state.orders ≡ none
        → Step Q w (check_lots_and_send k intent coid lots tf time info w).1
    check_lots_and_send-Step none w h = (give-Steps _).from w
    check_lots_and_send-Step (some info) w h =
        bind_with w (bad_lots intent info lots) _ ((bad_lots-Steps intent info lots).from w)
          (λ bad e.
            if_at _ bad _ _ (λ g. (give-Steps _).from _)
              (λ g.
                send_entry-Step info (bad_lots intent info lots w).1
                  (bad_lots-fits intent info lots w (e ∙ ap (λ b. ok b) g))
                  (ap (λ d. lookup coid d) ((bad_lots-Still intent info lots).same w) ∙ h)))

  -- a decision, and the requests that may be placed for it
  module _ (k : Env B) (intent : OrderIntent) (d : RiskDecision String) (coid : String)
      (tf : Timeframe) (time : Datetime) (x : Verifier)
      (allow : (verify k.genuine d intent.intent_id time x).0 ≡ none
        → (ltb_ℚ dec_zero d.approved_lots && leb_ℚ d.approved_lots intent.proposed_lots) ≡ true
        → (info : SymbolInfo) (price : Option Decimal) → (past : List Effect) → Written coid past
        → Q past (placing (request_of k intent info coid d.approved_lots price tf))) where
    verified-Step :
        (r : Option Refusal) (w : World B)
        → (verify k.genuine d intent.intent_id time x).0 ≡ r
        → lookup coid w.state.orders ≡ none
        → Step Q w (verified k intent d coid tf time r w).1
    verified-Step (some r) w e h =
        (bind (if_Steps _ (alert-Steps quiet _ _ _) (give-Steps _)) (λ a. give-Steps _)).from w
    verified-Step none w e h = bind_at w (save k) _ ((save-Steps quiet k).from w) (λ a.
        check_lots_and_send-Step k intent coid d.approved_lots tf time (allow e) _ (save k w).1
          (ap (λ o. lookup coid o) ((save-Still k).same w) ∙ h))

  module _ (k : Env B) (intent : OrderIntent) (d : RiskDecision String) (tf : Timeframe)
      (allow : (time : Datetime) (x : Verifier)
        → (verify k.genuine d intent.intent_id time x).0 ≡ none
        → (ltb_ℚ dec_zero d.approved_lots && leb_ℚ d.approved_lots intent.proposed_lots) ≡ true
        → (info : SymbolInfo) (price : Option Decimal) → (past : List Effect)
        → Written (client_order_id k.hex intent.intent_id) past
        → Q past (
            placing (
              request_of k intent info
                (client_order_id k.hex intent.intent_id)
                d.approved_lots
                price
                tf))) where
    execute_new-Step :
        (time : Datetime) (t : Option TrackedOrder) (w : World B)
        → lookup (client_order_id k.hex intent.intent_id) w.state.orders ≡ t
        → Step Q w (execute_new k intent d tf time (client_order_id k.hex intent.intent_id) t w).1
    unfolding verify_decision ◌>>=◌
    execute_new-Step time (some t) w h = (give-Steps _).from w
    execute_new-Step time none w h =
        let v = record w { verifier = (verify k.genuine d intent.intent_id time w.verifier).1 } in
        let r = (verify k.genuine d intent.intent_id time w.verifier).0 in
        Step-trans w v (verified k intent d (client_order_id k.hex intent.intent_id) tf time r v).1
          (alike w v refl refl)
          (verified-Step k intent d (client_order_id k.hex intent.intent_id) tf time w.verifier
            (allow time w.verifier) r v refl h)

    known_now :
        (time : Datetime) (w : World B)
        → Step Q w
            ((gets (λ x. lookup (client_order_id k.hex intent.intent_id) x.state.orders)
                >>= execute_new k intent d tf time (client_order_id k.hex intent.intent_id))
              w).1
    unfolding ◌>>=◌ gets
    known_now time w = execute_new-Step time _ w refl

    pub execute-Step : (w : World B) → Step Q w (execute k intent d tf w).1
    unfolding execute
    execute-Step w = bind_at w (now k) _ ((now-Steps k).from w) (λ time. known_now time (now k w).1)
