-- ===== src/Execution/BusService.antt =====
-- Execution on the bus: packages/execution/src/autotrader/execution/bus_service.py. The messages that
-- the order manager's callbacks put into the outbox are those of its effects since the last flush.
-- What is published is the list of pairs of stream and message, the newest last; publishing does not
-- fail. A message of a kind that a handler does not know leaves everything as it is.
use Prim.{Unit, tt}
use Prim.Native.String.{◌++◌ as ◌+++◌}
use kometa.Prelude.{
  ℕ, ◌-◌, Bool, true, false, ◌&&◌, not, String, Option, none, some, List, [], ◌∷◌, ◌++◌, length,
  drop, take, ◌==◌, string_eq, if◌then◌else◌, Result, ok, err,
}
use kometa.Prelude.Dict.{Dict, lookup, insert}
use kometa.Core.Time.{Datetime}
use kometa.Core.Broker.{
  AccountInfo, BrokerAck, BrokerOrder, BrokerPosition, Quote, SymbolInfo, client_order_id,
  is_system_comment,
}
use kometa.Core.Events.{
  BusMessage, heartbeat, halt_entered, demotion_order, order_intent_created, risk_decided,
  strategy_request, order_filled, position_closed, quote_update, account_update, AccountUpdate,
  ReportedExposure, StrategyRequest, cancel_request, close_request, modify_stop_request,
  CancelRequest, warning,
}
use kometa.Core.Models.{OrderIntent, RiskDecision, Timeframe, HaltState, for_state, Verdict}
use kometa.Execution.Journal.{TrackedOrder, pending_order, cancelled, by_position}
use kometa.Execution.World.{
  Env, World, Method, Failure, Effect, ordered, filled, traded, cancelling, ◌>>=◌, ◌>>◌, give, gets,
  ask, now, amend, emit,
}
use kometa.Execution.Orders.{alert, save}
use kometa.Execution.Views.{is_state}
use kometa.Execution.Stops.{close, tighten_stop}
use kometa.Execution.Entries.{ExecResult, execute}
use kometa.Execution.Deals.{sync_deals}
use kometa.Execution.Ends.{
  apply_halt, cancel_at_broker, cancel_pending_of, close_positions_of, expire_pending,
}
use kometa.Execution.Quotes.{update}
use kometa.Execution.Watchdog.{Watchdog, beat}
pub mod Came
pub mod Account
pub mod Covered
pub mod Outbox
mod Tests

abbrev pub Message : Type 0
Message = BusMessage String

-- The streams that execution reads
pub data Stream : Type 0 where
  heartbeats halts control intents decisions requests : Stream

abbrev pub intent_cache : ℕ
intent_cache = 10000

pub record BusService : Type 0 where
  pub watchdog : Watchdog
  pub intents : Dict String (OrderIntent × Timeframe)
  pub flushed : ℕ
  pub published : List (String × Message)

-- What a handler raised, and what it leaves.
abbrev pub Handling : Type 0 → Type 0
Handling B = Option Failure × (BusService × World B)

-- the callbacks `_trade`, `_order` and `_fill`
unfoldable pub posted : Effect → List (String × Message)
posted (traded t) = ("trades", position_closed t.exit_time t) ∷ []
posted (ordered m) = ("orders", m) ∷ []
posted (filled f) = ("orders", order_filled f.filled_at f) ∷ []
posted _ = []

-- the outbox, in the order things happened, of effects with the newest first
unfoldable pub outbox : List Effect → List (String × Message)
unfolding posted
outbox [] = []
outbox (e ∷ es) = outbox es ++ posted e

abbrev pub publish_all : List (String × Message) → BusService → BusService
publish_all ms s = record s { published = s.published ++ ms }

-- the outbox: what is posted and not yet published
abbrev pub unsent : List Effect → ℕ → List (String × Message)
unsent effects flushed = outbox (take (length effects - flushed) effects)

unfoldable pub flush : {B : Type 0} → BusService → World B → BusService
unfolding outbox
flush s w = record (publish_all (unsent w.effects s.flushed) s) { flushed = length w.effects }

-- `while len(self.intents) > INTENT_CACHE: self.intents.popitem(last=False)`
abbrev pub evict : Dict String (OrderIntent × Timeframe) → Dict String (OrderIntent × Timeframe)
evict d = drop (length d - intent_cache) d

unfoldable pub remember : OrderIntent → Timeframe → BusService → BusService
remember intent tf s = record s { intents = evict (insert intent.intent_id (intent, tf) s.intents) }

abbrev pub rejects : Verdict → Bool
rejects Verdict.reject = true
rejects _ = false

abbrev pub may_cancel : CancelRequest → TrackedOrder → Bool
may_cancel req t = t.strategy_id == req.strategy_id && is_state pending_order t

-- whether a tracked order is of this version
abbrev pub owns : (strategy_id version : String) → Option TrackedOrder → Bool
owns strategy_id version none = false
owns strategy_id version (some t) = t.strategy_id == strategy_id && t.strategy_version == version

-- a handler's work, all of it on the order manager
abbrev pub on_om : {A B : Type 0} → BusService → Result Failure A × World B → Handling B
on_om s (ok a, w) = (none, (s, w))
on_om s (err e, w) = (some e, (s, w))

-- the method for an owner, an alert for another
unfoldable pub for_owner :
    {A B : Type 0} → (position_id : String) → Method B A → Bool → Method B (Unit {0})
for_owner position_id m true = m >>= λ a. give tt
for_owner position_id m false = alert warning "foreign_request" position_id

abbrev pub if_owned :
    {A B : Type 0} → (strategy_id version position_id : String) → Method B A → Method B (Unit {0})
if_owned strategy_id version position_id m =
    gets (λ w. owns strategy_id version (by_position position_id w.state))
    >>= for_owner position_id m

-- `DemotionOrder`
pub record DemotionOrder : Type 0 where
  pub strategy_id : String
  pub strategy_version : String
  pub close_positions : Bool
  pub reason : String

-- `isinstance(msg, ...)`, and the fields
abbrev pub as_heartbeat : Message → Option (String × Datetime)
as_heartbeat (heartbeat at service) = some (service, at)
as_heartbeat _ = none

abbrev pub as_halt : Message → Option (Datetime × HaltState × String)
as_halt (halt_entered at state reason) = some (at, state, reason)
as_halt _ = none

abbrev pub as_demotion : Message → Option DemotionOrder
as_demotion (demotion_order at strategy_id version close_too reason) = some record {
  strategy_id = strategy_id;
  strategy_version = version;
  close_positions = close_too;
  reason = reason;
}
as_demotion _ = none

abbrev pub as_intent : Message → Option (OrderIntent × Timeframe)
as_intent (order_intent_created at intent tf) = some (intent, tf)
as_intent _ = none

abbrev pub as_decision : Message → Option (RiskDecision String)
as_decision (risk_decided at d) = some d
as_decision _ = none

abbrev pub as_request : Message → Option StrategyRequest
as_request (strategy_request at req) = some req
as_request _ = none

abbrev pub maybe_beat : Option (String × Datetime) → BusService → BusService
maybe_beat none s = s
maybe_beat (some (service, at)) s = record s { watchdog = beat service at s.watchdog }

abbrev pub maybe_remember : Option (OrderIntent × Timeframe) → BusService → BusService
maybe_remember none s = s
maybe_remember (some (intent, tf)) s = remember intent tf s

-- what the handler of a stream does to the service's own memory: `_on_heartbeat`, `_on_intent`
unfoldable pub note_message : Stream → Message → BusService → BusService
note_message heartbeats m s = maybe_beat (as_heartbeat m) s
note_message intents m s = maybe_remember (as_intent m) s
note_message halts m s = s
note_message control m s = s
note_message decisions m s = s
note_message requests m s = s

-- `intent_id_for` is the UUID that a signal's name gives.
module _ {B : Type 0} (k : Env B) (intent_id_for : String → String) where
  -- `self.intents.get(...)`, and what follows
  unfoldable pub decide_on :
      RiskDecision String → Option (OrderIntent × Timeframe) → Method B (Unit {0})
  decide_on d none = alert warning "decision_without_intent" d.intent_id
  decide_on d (some (intent, tf)) = execute k intent d tf >>= λ r. give tt

  unfoldable pub cancel_own : CancelRequest → TrackedOrder → Option String → Method B (Unit {0})
  cancel_own req t none = give tt
  cancel_own req t (some id) = if id == "" then give tt else (do
    ack ← cancel_at_broker k id
    if ack.success
        then (do
          amend t.client_order_id
              (λ u. record u { state = cancelled; note = "strategy: " +++ req.reason })
          save k)
        else give tt)

  unfoldable pub cancel_if_own : CancelRequest → Option TrackedOrder → Method B (Unit {0})
  cancel_if_own req none = give tt
  cancel_if_own req (some t) =
      if may_cancel req t then cancel_own req t t.broker_order_id else give tt

  -- `_on_request`, of a request
  unfoldable pub answer_request : StrategyRequest → Method B (Unit {0})
  answer_request (cancel_request r) = do
    t ← gets (λ w. lookup (client_order_id k.hex (intent_id_for r.signal_id)) w.state.orders)
    cancel_if_own r t
  answer_request (close_request r) =
      if_owned r.strategy_id r.strategy_version r.position_id
        (close k r.position_id ("strategy: " +++ r.reason))
  answer_request (modify_stop_request r) =
      if_owned r.strategy_id r.strategy_version r.position_id
        (tighten_stop k r.position_id r.new_stop)

  -- the handlers `_on_halt`, `_on_control` and `_on_decision`, after their tests
  unfoldable pub obey_halt : Option (Datetime × HaltState × String) → Method B (Unit {0})
  obey_halt none = give tt
  obey_halt (some (at, state, reason)) = apply_halt k (for_state state reason at)

  unfoldable pub obey : Option DemotionOrder → Method B (Unit {0})
  obey none = give tt
  obey (some o) = do
    cancel_pending_of k o.strategy_id o.strategy_version o.reason
    if o.close_positions
        then close_positions_of k o.strategy_id o.strategy_version o.reason
        else give tt

  unfoldable pub on_decision :
      Option (RiskDecision String) → Dict String (OrderIntent × Timeframe) → Method B (Unit {0})
  on_decision none cache = give tt
  on_decision (some d) cache =
      if rejects d.verdict then give tt else decide_on d (lookup d.intent_id cache)

  unfoldable pub on_request : Option StrategyRequest → Method B (Unit {0})
  on_request none = give tt
  on_request (some r) = answer_request r

  -- what the handler of a stream does to the order manager
  unfoldable pub work :
      Stream → Message → Dict String (OrderIntent × Timeframe) → Method B (Unit {0})
  work heartbeats m cache = give tt
  work halts m cache = obey_halt (as_halt m)
  work control m cache = obey (as_demotion m)
  work intents m cache = give tt
  work decisions m cache = on_decision (as_decision m) cache
  work requests m cache = on_request (as_request m)

  abbrev pub then_flush : Handling B → Handling B
  then_flush (none, (s, w)) = (none, (flush s w, w))
  then_flush (some e, x) = (some e, x)

  -- `_then_flush(h)`, of the handler of a stream
  unfoldable pub handle : Stream → Message → BusService × World B → Handling B
  handle stream m (s, w) =
      let t = note_message stream m s in then_flush (on_om t (work stream m t.intents w))

  -- `om.quotes.update(q)`, then the message
  unfoldable pub on_quote : Quote → BusService × World B → BusService × World B
  on_quote q (s, w) = (
    publish_all (("quotes", quote_update q.time q.symbol q.bid q.ask) ∷ []) s,
    record w { quotes = update q w.quotes },
  )

  -- `heartbeat` of the service
  unfoldable pub send_beat : BusService × World B → BusService × World B
  send_beat (s, w) =
      let (at, b) = k.adapter.clock w.broker in
      (publish_all (("heartbeats", heartbeat at "execution") ∷ []) s, record w { broker = b })

  -- messages that are handled in turn, also after a handler that raised
  unfoldable pub handle_all : List (Stream × Message) → BusService × World B → BusService × World B
  handle_all [] x = x
  handle_all ((stream, m) ∷ ms) x = handle_all ms (handle stream m x).1
