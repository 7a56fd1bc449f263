-- ===== src/Execution/BusService/Covered.antt =====
-- Execution on the bus as a whole: from the messages that came to the orders that are placed
-- (packages/execution/src/autotrader/execution/bus_service.py).
use kometa.Execution.BusService.Came.{
  Inbound, Came, CameIntent, CameDecision, IsPermitted, AllCame, lookup-Came, AllIn, AllIn-refl,
  remember-AllCame,
}
use Prim.{tt}
use mathlib.Core.Path.{subst}
use kometa.Prelude.{
  ◌≡◌, refl, sym, Bool, true, false, String, Option, some, none, List, [], ◌∷◌, string_eq, Result,
  ok, err,
}
use kometa.Prelude.Dict.{Dict, lookup}
use kometa.Core.Events.{
  StrategyRequest, cancel_request, close_request, modify_stop_request, CancelRequest,
}
use kometa.Core.Models.{OrderIntent, RiskDecision, Timeframe, HaltState, for_state}
use kometa.Core.Time.{Datetime}
use kometa.Execution.BusService.{
  BusService, Message, Stream, heartbeats, halts, control, intents, decisions, requests, handle,
  handle_all, for_owner, work, as_halt, as_demotion, as_intent, as_decision, as_request,
  as_heartbeat, DemotionOrder, obey, obey_halt, on_decision, on_request, maybe_beat, note_message,
  decide_on, cancel_own, cancel_if_own, if_owned, answer_request, rejects, on_om, then_flush, flush,
}
use kometa.Execution.Entries.{execute}
use kometa.Execution.Journal.{TrackedOrder}
use kometa.Execution.Kept.{Keyed, moved}
use kometa.Execution.World.{Effect, Env, World, Method, placing, ◌>>=◌, gets, Failure}
use kometa.Execution.Steps.{
  Step, Steps, Step-refl, Step-trans, bind, seq, give-Steps, gets-Steps, if_Steps, if_at, bind_at,
  ask-Steps,
}
use kometa.Execution.Steps.Journal.{is_placing, amend-Steps, save-Steps, alert-Steps, quietly}
use kometa.Execution.Steps.Stops.{tighten_stop-Step, close-Steps}
use kometa.Execution.Steps.Ends.{
  apply_halt-Steps, cancel_pending_of-Steps, close_positions_of-Steps,
}
use kometa.Execution.Steps.Entries.{execute-Step}

module _ {B : Type 0} {Q : List Effect → Effect → Type 0}
    (quiet : (past : List Effect) (e : Effect) → is_placing e ≡ false → Q past e) where
  cancel_own-Steps :
      (k : Env B) (f : String → String) (r : CancelRequest) (t : TrackedOrder) (o : Option String)
      → Steps Q (cancel_own k f r t o)
  unfolding cancel_own
  cancel_own-Steps k f r t none = give-Steps _
  cancel_own-Steps k f r t (some id) = if_Steps _ (give-Steps _) (
      bind (seq (quietly quiet _ refl) (ask-Steps _)) (λ ack.
        if_Steps _
          (seq (amend-Steps _ _ (λ u. moved u _ refl refl refl refl refl refl))
            (save-Steps quiet k))
          (give-Steps _)))

  cancel_if_own-Steps :
      (k : Env B) (f : String → String) (r : CancelRequest) (o : Option TrackedOrder)
      → Steps Q (cancel_if_own k f r o)
  unfolding cancel_if_own
  cancel_if_own-Steps k f r none = give-Steps _
  cancel_if_own-Steps k f r (some t) =
      if_Steps _ (cancel_own-Steps k f r t t.broker_order_id) (give-Steps _)

  for_owner-Step :
      {A : Type 0} (id : String) (m : Method B A) (b : Bool) (w : World B)
      → Step Q w (m w).1
      → Step Q w (for_owner id m b w).1
  unfolding for_owner
  for_owner-Step id m true w h = bind_at w m _ h (λ a. (give-Steps tt).from (m w).1)
  for_owner-Step id m false w h = (alert-Steps quiet _ _ _).from w

  if_owned-Step :
      {A : Type 0} (sid v id : String) (m : Method B A) (w : World B)
      → Step Q w (m w).1
      → Step Q w (if_owned sid v id m w).1
  unfolding ◌>>=◌ gets
  if_owned-Step sid v id m w h = for_owner-Step id m _ w h

  answer_request-Step :
      (k : Env B) (f : String → String) (r : StrategyRequest) (w : World B)
      → Keyed w.state.orders
      → Step Q w (answer_request k f r w).1
  unfolding answer_request
  answer_request-Step k f (cancel_request r) w h =
      (bind (gets-Steps _) (cancel_if_own-Steps k f r)).from w
  answer_request-Step k f (close_request r) w h =
      if_owned-Step _ _ _ _ w ((close-Steps quiet k _ _).from w)
  answer_request-Step k f (modify_stop_request r) w h =
      if_owned-Step _ _ _ _ w (tighten_stop-Step quiet k _ _ w h)

module _ {B : Type 0} (k : Env B) (intent_id_for : String → String) where
  quiet-IsPermitted :
      (ms : List Inbound) (past : List Effect) (e : Effect)
      → is_placing e ≡ false
      → IsPermitted k ms past e
  unfolding IsPermitted
  quiet-IsPermitted ms past (placing req) h = elim (apart h) [ ]
    where
      apart : true ≡ false → ⊥
      apart h = cc
  quiet-IsPermitted ms past _ h = tt

  -- an execution of a cached intent with a decision that came
  entry-Step :
      (ms : List Inbound) (d : RiskDecision String) (intent : OrderIntent) (tf : Timeframe)
      (w : World B)
      → CameIntent ms (intent, tf)
      → CameDecision ms d
      → rejects d.verdict ≡ false
      → Step (IsPermitted k ms) w (execute k intent d tf w).1
  unfolding IsPermitted
  entry-Step ms d intent tf w c came open_verdict =
      execute-Step (quiet-IsPermitted ms) k intent d tf
        (λ time v e fits info price past written. (
          record {
            intent = intent;
            timeframe = tf;
            intent_came = c;
            decision = d;
            decision_came = came;
            not_rejected = open_verdict;
            approved = record {
              time = time;
              verifier = v;
              accepted = e;
              fits = fits;
              same_name = refl;
              same_lots = refl;
            };
          },
          written,
        ))
        w

  decide_on-Step :
      (ms : List Inbound) (d : RiskDecision String) (o : Option (OrderIntent × Timeframe))
      (w : World B)
      → ((i : OrderIntent) (tf : Timeframe) → o ≡ some (i, tf) → CameIntent ms (i, tf))
      → CameDecision ms d
      → rejects d.verdict ≡ false
      → Step (IsPermitted k ms) w (decide_on k intent_id_for d o w).1
  unfolding decide_on
  decide_on-Step ms d none w c came open_verdict = (alert-Steps (quiet-IsPermitted ms) _ _ _).from w
  decide_on-Step ms d (some (intent, tf)) w c came open_verdict =
      bind_at w (execute k intent d tf) _
        (entry-Step ms d intent tf w (c intent tf refl) came open_verdict)
        (λ r. (give-Steps tt).from (execute k intent d tf w).1)

  obey-Steps :
      (ms : List Inbound) (o : Option DemotionOrder)
      → Steps (IsPermitted k ms) (obey k intent_id_for o)
  unfolding obey
  obey-Steps ms none = give-Steps tt
  obey-Steps ms (some o) = seq (cancel_pending_of-Steps (quiet-IsPermitted ms) k _ _ _) (
      if_Steps o.close_positions (close_positions_of-Steps (quiet-IsPermitted ms) k _ _ _)
        (give-Steps _))

  obey_halt-Steps :
      (ms : List Inbound) (o : Option (Datetime × HaltState × String))
      → Steps (IsPermitted k ms) (obey_halt k intent_id_for o)
  unfolding obey_halt
  obey_halt-Steps ms none = give-Steps tt
  obey_halt-Steps ms (some (at, state, reason)) =
      apply_halt-Steps (quiet-IsPermitted ms) k (for_state state reason at)

  on_decision-Step :
      (ms : List Inbound) (o : Option (RiskDecision String))
      (cache : Dict String (OrderIntent × Timeframe)) (w : World B)
      → ((d : RiskDecision String) → o ≡ some d → CameDecision ms d)
      → AllCame ms cache
      → Step (IsPermitted k ms) w (on_decision k intent_id_for o cache w).1
  unfolding on_decision
  on_decision-Step ms none cache w c h = (give-Steps tt).from w
  on_decision-Step ms (some d) cache w c h =
      if_at w (rejects d.verdict) _ _ (λ rejected. (give-Steps tt).from w)
        (λ open_verdict.
          decide_on-Step ms d (lookup d.intent_id cache) w
            (λ i tf e. lookup-Came ms d.intent_id i tf cache h e) (c d refl) open_verdict)

  on_request-Step :
      (ms : List Inbound) (o : Option StrategyRequest) (w : World B)
      → Keyed w.state.orders
      → Step (IsPermitted k ms) w (on_request k intent_id_for o w).1
  unfolding on_request
  on_request-Step ms none w h = (give-Steps tt).from w
  on_request-Step ms (some r) w h = answer_request-Step (quiet-IsPermitted ms) k intent_id_for r w h

  pub work-Step :
      (ms : List Inbound) (stream : Stream) (m : Message)
      (cache : Dict String (OrderIntent × Timeframe)) (w : World B)
      → Came (stream, m) ms
      → AllCame ms cache
      → Keyed w.state.orders
      → Step (IsPermitted k ms) w (work k intent_id_for stream m cache w).1
  unfolding work
  work-Step ms heartbeats m cache w c h keyed = (give-Steps tt).from w
  work-Step ms halts m cache w c h keyed = (obey_halt-Steps ms (as_halt m)).from w
  work-Step ms control m cache w c h keyed = (obey-Steps ms (as_demotion m)).from w
  work-Step ms intents m cache w c h keyed = (give-Steps tt).from w
  work-Step ms decisions m cache w c h keyed =
      on_decision-Step ms (as_decision m) cache w (λ d e. (m, e, c)) h
  work-Step ms requests m cache w c h keyed = on_request-Step ms (as_request m) w keyed

  pub note-AllCame :
      (ms : List Inbound) (stream : Stream) (m : Message) (s : BusService)
      → Came (stream, m) ms
      → AllCame ms s.intents
      → AllCame ms (note_message stream m s).intents
  unfolding note_message
  note-AllCame ms heartbeats m s c h = beat_same (as_heartbeat m) s h
    where
      beat_same :
          (o : Option (String × Datetime)) (s : BusService)
          → AllCame ms s.intents
          → AllCame ms (maybe_beat o s).intents
      beat_same none s h = h
      beat_same (some (service, at)) s h = h
  note-AllCame ms intents m s c h = remember-AllCame ms (as_intent m) s (λ x e. (m, e, c)) h
  note-AllCame ms halts m s c h = h
  note-AllCame ms control m s c h = h
  note-AllCame ms decisions m s c h = h
  note-AllCame ms requests m s c h = h

  pub flushed-world :
      {A : Type 0} (s : BusService) (o : Result Failure A × World B)
      → ((then_flush k intent_id_for (on_om s o)).1.1 ≡ o.1)
        × ((then_flush k intent_id_for (on_om s o)).1.0.intents ≡ s.intents)
  unfolding flush
  flushed-world s (ok a, w) = (refl, refl)
  flushed-world s (err e, w) = (refl, refl)

  -- What one message leaves, and the intents that are cached then
  pub handle-Step :
      (ms : List Inbound) (stream : Stream) (m : Message) (x : BusService × World B)
      → Came (stream, m) ms
      → AllCame ms x.0.intents
      → Keyed x.1.state.orders
      → let y = (handle k intent_id_for stream m x).1 in
        Step (IsPermitted k ms) x.1 y.1 × AllCame ms y.0.intents
  unfolding handle
  handle-Step ms stream m (s, w) c h keyed =
      let t = note_message stream m s in
      let cached = note-AllCame ms stream m s c h in
      let same = flushed-world t (work k intent_id_for stream m t.intents w) in
      (
        subst (λ v. Step (IsPermitted k ms) w v) (sym (same.0))
            (work-Step ms stream m t.intents w c cached keyed),
        subst (AllCame ms) (sym (same.1)) cached,
      )

  handle_all-from :
      (ms ns : List Inbound) (x : BusService × World B)
      → AllIn ns ms
      → AllCame ms x.0.intents
      → Keyed x.1.state.orders
      → Step (IsPermitted k ms) x.1 (handle_all k intent_id_for ns x).1
  unfolding handle_all
  handle_all-from ms [] x a h keyed = Step-refl x.1
  handle_all-from ms ((stream, m) ∷ ns) x (c, a) h keyed =
      let y = (handle k intent_id_for stream m x).1 in
      let first = handle-Step ms stream m x c h keyed in
      Step-trans x.1 y.1 (handle_all k intent_id_for ns y).1 first.0
        (handle_all-from ms ns y a first.1 (first.0.orders.keyed keyed))

  -- Whatever messages come over the bus, on whatever stream, to a service with no cached intent and
  -- with tracked orders that stand under their own names once: no tracked order is lost or changes
  -- what it is, no stop moves away from the price, and every request to place an order that is sent
  -- is the one for an intent that came on the stream of intents, with a decision that came on the
  -- stream of decisions, does not reject and was verified for it, in the approved size, which is
  -- positive and no larger than the intent's, and after a journal write that has its order.
  pub handle_all-Step :
      (ms : List Inbound) (x : BusService × World B)
      → x.0.intents ≡ []
      → Keyed x.1.state.orders
      → Step (IsPermitted k ms) x.1 (handle_all k intent_id_for ms x).1
  handle_all-Step ms x e keyed =
      handle_all-from ms ms x (AllIn-refl ms) (subst (AllCame ms) (sym e) tt) keyed
