-- ===== src/Execution/Calls.antt =====
-- Any sequence of calls of the execution service and its order manager
-- (packages/execution/src/autotrader/execution/service.py and order_manager.py).
pub mod Tests
use Prim.{Unit, tt}
use kometa.Prelude.{
  arith, ◌≡◌, ◌⊎◌, inl, inr, refl, ap, true, false, String, Option, some, none, List, [], ◌∷◌,
  string_eq, ok, ◌&&◌,
}
use kometa.Prelude.Dict.{lookup}
use kometa.Core.Broker.{PlaceRequest, client_order_id}
use kometa.Core.Time.{Datetime}
use kometa.Core.Models.{OrderIntent, RiskDecision, Timeframe, HaltCommand}
use kometa.Decimal.{Decimal, dec_zero, ltb_ℚ, leb_ℚ}
use kometa.Execution.Journal.{TrackedOrder}
use kometa.Execution.World.{Effect, Env, World, placing, now, ◌>>=◌, gets, give}
use kometa.Execution.Verifier.{Verifier, verify}
use kometa.Execution.Stops.{tighten_stop, close}
use kometa.Execution.Entries.{result, execute, execute_new}
use kometa.Execution.Ends.{apply_halt, cancel_pending_of, close_positions_of}
use kometa.Execution.Reconcile.Episode.{RiskControl, owner_resync}
use kometa.Execution.Watchdog.{beat}
use kometa.Execution.Service.{Service, cycle, alert_failed}
use kometa.Execution.Kept.{Keyed, Found}
use kometa.Execution.Steps.{Step-weaken, Step, Step-refl, Step-trans}
use kometa.Execution.Steps.Journal.{is_placing}
use kometa.Execution.Steps.Stops.{tighten_stop-Step, close-Steps}
use kometa.Execution.Steps.Ends.{
  apply_halt-Steps, cancel_pending_of-Steps, close_positions_of-Steps,
}
use kometa.Execution.Steps.Service.{owner_resync-Steps, cycle-Step, alert_failed-Step}
use kometa.Execution.Steps.Written.{Written}
use kometa.Execution.Steps.Entries.{execute-Step}

-- What reaches execution from outside: an intent with its decision, a pass of the periodic jobs, a
-- heartbeat, a stop to tighten, a position to close, a halt, a demotion, and the owner's resync.
pub data Call : Type 0 where
  entry : OrderIntent → RiskDecision String → Timeframe → Call
  pass : Call
  heartbeat : (service : String) (at : Datetime) → Call
  new_stop : (position_id : String) → Decimal → Call
  close_one : (position_id reason : String) → Call
  halt : HaltCommand String → Call
  cancel_of : (strategy_id version reason : String) → Call
  close_of : (strategy_id version reason : String) → Call
  resync_by_owner : Call

-- The request is the one that the order manager makes of this intent, and the decision was verified for
-- it and approves its size, which is no larger than the intent's.
pub record Approved {B : Type 0} (k : Env B) (intent : OrderIntent) (d : RiskDecision String)
    (req : PlaceRequest) : Type 0 where
  pub time : Datetime
  pub verifier : Verifier
  pub accepted : (verify k.genuine d intent.intent_id time verifier).0 ≡ none
  pub fits : (ltb_ℚ dec_zero req.lots && leb_ℚ req.lots intent.proposed_lots) ≡ true
  pub same_name : req.client_order_id ≡ client_order_id k.hex intent.intent_id
  pub same_lots : req.lots ≡ d.approved_lots

abbrev entry_of : Call → Option (OrderIntent × RiskDecision String)
entry_of (entry intent d tf) = some (intent, d)
entry_of _ = none

pub ApprovedFor :
    {B : Type 0} → Env B → Option (OrderIntent × RiskDecision String) → PlaceRequest → Type 0
ApprovedFor k none req = ⊥
ApprovedFor k (some (intent, d)) req = Approved k intent d req

-- One of the calls is an entry that the request is approved for.
pub ApprovedBy : {B : Type 0} → Env B → List Call → PlaceRequest → Type 0
ApprovedBy k [] req = ⊥
ApprovedBy k (c ∷ cs) req = ApprovedFor k (entry_of c) req ⊎ ApprovedBy k cs req

-- An effect that is a request to place is approved by one of the calls, and follows a journal write that
-- has its order.
pub IsCovered : {B : Type 0} → Env B → List Call → (past : List Effect) → Effect → Type 0
IsCovered k cs past (placing req) = ApprovedBy k cs req × Written req.client_order_id past
IsCovered k cs past _ = Unit {0}

apart : true ≡ false → ⊥
apart h = ground arith

head-IsCovered :
    {B : Type 0} (k : Env B) (c : Call) (cs : List Call) (past : List Effect) (e : Effect)
    → IsCovered k (c ∷ []) past e
    → IsCovered k (c ∷ cs) past e
unfolding IsCovered ApprovedBy
head-IsCovered k c cs past (placing req) (inl a, h) = (inl a, h)
head-IsCovered k c cs past (placing req) (inr a, h) = elim a [ ]
head-IsCovered k c cs past _ h = tt

tail-IsCovered :
    {B : Type 0} (k : Env B) (c : Call) (cs : List Call) (past : List Effect) (e : Effect)
    → IsCovered k cs past e
    → IsCovered k (c ∷ cs) past e
unfolding IsCovered ApprovedBy
tail-IsCovered k c cs past (placing req) (a, h) = (inr a, h)
tail-IsCovered k c cs past _ h = tt

module _ {B : Type 0} (k : Env B) (risk : RiskControl B) where
  -- the service and the world after a call, also when it raises
  unfoldable pub perform : Call → Service × World B → Service × World B
  perform (entry intent d tf) (s, w) = (s, (execute k intent d tf w).1)
  perform pass (s, w) = alert_failed (cycle k risk s w)
  perform (heartbeat service at) (s, w) = (record s { watchdog = beat service at s.watchdog }, w)
  perform (new_stop position_id sl) (s, w) = (s, (tighten_stop k position_id sl w).1)
  perform (close_one position_id reason) (s, w) = (s, (close k position_id reason w).1)
  perform (halt cmd) (s, w) = (s, (apply_halt k cmd w).1)
  perform (cancel_of strategy_id version reason) (s, w) =
      (s, (cancel_pending_of k strategy_id version reason w).1)
  perform (close_of strategy_id version reason) (s, w) =
      (s, (close_positions_of k strategy_id version reason w).1)
  perform resync_by_owner (s, w) = (s, (owner_resync k risk w).1)

  unfoldable pub perform_all : List Call → Service × World B → Service × World B
  perform_all [] x = x
  perform_all (c ∷ cs) x = perform_all cs (perform c x)

  quiet-IsCovered :
      (c : Call) (past : List Effect) (e : Effect)
      → is_placing e ≡ false
      → IsCovered k (c ∷ []) past e
  unfolding IsCovered
  quiet-IsCovered c past (placing req) h = elim (apart h) [ ]
  quiet-IsCovered c past _ h = tt

  perform-Step :
      (c : Call) (x : Service × World B)
      → Keyed x.1.state.orders
      → Step (IsCovered k (c ∷ [])) x.1 (perform c x).1
  unfolding perform IsCovered ApprovedBy ApprovedFor
  perform-Step (entry intent d tf) (s, w) h =
      execute-Step (quiet-IsCovered (entry intent d tf)) k intent d tf
        (λ time v e fits info price past written. (
          inl (record {
            time = time;
            verifier = v;
            accepted = e;
            fits = fits;
            same_name = refl;
            same_lots = refl;
          }),
          written,
        ))
        w
  perform-Step pass (s, w) h =
      alert_failed-Step (quiet-IsCovered pass) w (cycle k risk s w)
        (cycle-Step (quiet-IsCovered pass) k risk s w)
  perform-Step (heartbeat service at) (s, w) h = Step-refl w
  perform-Step (new_stop position_id sl) (s, w) h =
      tighten_stop-Step (quiet-IsCovered (new_stop position_id sl)) k position_id sl w h
  perform-Step (close_one position_id reason) (s, w) h =
      (close-Steps (quiet-IsCovered (close_one position_id reason)) k position_id reason).from w
  perform-Step (halt cmd) (s, w) h = (apply_halt-Steps (quiet-IsCovered (halt cmd)) k cmd).from w
  perform-Step (cancel_of strategy_id version reason) (s, w) h =
      (cancel_pending_of-Steps (quiet-IsCovered (cancel_of strategy_id version reason)) k
          strategy_id version reason).from
        w
  perform-Step (close_of strategy_id version reason) (s, w) h =
      (close_positions_of-Steps (quiet-IsCovered (close_of strategy_id version reason)) k
          strategy_id version reason).from
        w
  perform-Step resync_by_owner (s, w) h =
      (owner_resync-Steps (quiet-IsCovered resync_by_owner) k risk).from w

  -- Whatever calls follow each other, from orders that stand under their own names once: no tracked order
  -- is lost, each keeps its name, intent, side, symbol and magic number, its stop never moves away from
  -- the price, the orders still stand under their own names, and every request to place an order that was
  -- sent meanwhile belongs to one of the entries, for an intent whose decision was verified, in the
  -- approved size, which is positive and no larger than the intent's, and was sent after a journal write
  -- that has its order.
  pub perform_all-Step :
      (cs : List Call) (x : Service × World B)
      → Keyed x.1.state.orders
      → Step (IsCovered k cs) x.1 (perform_all cs x).1
  unfolding perform_all
  perform_all-Step [] x h = Step-refl x.1
  perform_all-Step (c ∷ cs) x h =
      let first = perform-Step c x h in
      Step-trans x.1 (perform c x).1 (perform_all cs (perform c x)).1
        (Step-weaken (IsCovered k (c ∷ [])) (IsCovered k (c ∷ cs)) x.1 (perform c x).1
          (head-IsCovered k c cs) first)
        (Step-weaken (IsCovered k cs) (IsCovered k (c ∷ cs)) (perform c x).1
          (perform_all cs (perform c x)).1 (tail-IsCovered k c cs)
          (perform_all-Step cs (perform c x) (first.orders.keyed h)))

  duplicate_at :
      (intent : OrderIntent) (d : RiskDecision String) (tf : Timeframe) (w : World B)
      (u : TrackedOrder)
      → lookup (client_order_id k.hex intent.intent_id) w.state.orders ≡ some u
      → execute k intent d tf w ≡ (
        ok (
            result
              (client_order_id k.hex intent.intent_id)
              (some u.state)
              false
              "duplicate intent"),
        (now k w).1,
      )
  unfolding execute ◌>>=◌ gets give now
  duplicate_at intent d tf w u h =
      ap
        (λ o.
          execute_new k intent d tf (k.adapter.clock w.broker).0
            (client_order_id k.hex intent.intent_id) o (now k w).1)
        h

  -- An intent is sent once: where its order is tracked, then after any calls another execution of the
  -- intent, with any decision, only reads the clock; it answers that the intent is a duplicate.
  pub execute_once :
      (cs : List Call) (x : Service × World B) (intent : OrderIntent) (d : RiskDecision String)
      (tf : Timeframe) (t : TrackedOrder)
      → Keyed x.1.state.orders
      → lookup (client_order_id k.hex intent.intent_id) x.1.state.orders ≡ some t
      → (u : TrackedOrder) × (execute k intent d tf (perform_all cs x).1 ≡ (
        ok (
            result
              (client_order_id k.hex intent.intent_id)
              (some u.state)
              false
              "duplicate intent"),
        (now k (perform_all cs x).1).1,
      ))
  unfolding Found
  execute_once cs x intent d tf t keyed h =
      let (u, (e, l)) =
        (perform_all-Step cs x keyed).orders.found (client_order_id k.hex intent.intent_id) t h in
      (u, duplicate_at intent d tf (perform_all cs x).1 u e)
