-- ===== src/Execution/World.antt =====
-- What the order manager of packages/execution/src/autotrader/execution/order_manager.py works on: its
-- own state, the broker behind the adapter (adapter.py), and a log of what it did to the world outside.
-- A method takes the world to its outcome and the world it leaves, also when it raises.
use Prim.{Unit, tt}
use kometa.Prelude.{
  ℕ, Bool, String, Option, none, some, List, [], ◌∷◌, Result, ok, err, ◌==◌, string_eq,
  if◌then◌else◌,
}
use kometa.Prelude.Dict.{Dict, lookup}
use kometa.Core.Time.{Datetime}
use kometa.Core.Broker.{
  AccountInfo, SymbolInfo, PlaceRequest, ModifyRequest, BrokerAck, BrokerPosition, BrokerOrder,
  BrokerDeal, ExecutionQuality,
}
use kometa.Core.Events.{Severity, BusMessage}
use kometa.Core.Models.{RiskDecision, Fill, Trade}
use kometa.Decimal.{Decimal}
use kometa.Execution.Verifier.{Verifier}
use kometa.Execution.Journal.{ExecState, TrackedOrder, OrderState}
use kometa.Execution.Quotes.{Quotes}

-- `ExecutionConfig` of packages/execution/src/autotrader/execution/config.py; times in microseconds.
pub record ExecutionConfig : Type 0 where
  pub reconcile_interval : ℕ
  pub heartbeat_interval : ℕ
  pub watchdog_timeout : ℕ
  pub watched_services : List String
  pub stop_confirm_attempts : ℕ
  pub max_quote_age : ℕ
  pub send_grace : ℕ
  pub balance_tolerance : Decimal
  pub deal_lookback : ℕ

-- What the broker answers, or the text of BrokerUnavailableError, and the broker it leaves. The clock
-- and the broker change together, in any way.
abbrev pub Answer : Type 0 → Type 0 → Type 0
Answer B A = B → Result String A × B

-- `BrokerAdapter`, as far as the order manager uses it, and the clock.
pub record Adapter (B : Type 0) : Type 0 where
  pub clock : B → Datetime × B
  pub account : Answer B AccountInfo
  pub place : PlaceRequest → Answer B BrokerAck
  pub modify : ModifyRequest → Answer B BrokerAck
  pub cancel : String → Answer B BrokerAck
  pub close_position : String → Answer B BrokerAck
  pub open_positions : Answer B (List BrokerPosition)
  pub pending_orders : Answer B (List BrokerOrder)
  pub deals : Datetime → Answer B (List BrokerDeal)

-- What an order manager is built with. `genuine` is the check of a decision's signature, `hex` the
-- digits of a UUID, `magic_number` the hash of a version,
-- `adopted_id` the strategy's name of an order that was never tracked, `to_account` the rate of a
-- symbol's quote currency, none where the function raises KeyError.
pub record Env (B : Type 0) : Type 0 where
  pub adapter : Adapter B
  pub cfg : ExecutionConfig
  pub genuine : RiskDecision String → String → Bool
  pub hex : String → String
  pub magic_number : String → String → ℕ
  pub adopted_id : ℕ → String
  pub account_id : String
  pub symbols : Dict String SymbolInfo
  pub to_account : String → Option Decimal

-- What an order event reports, `_Seen`.
pub record Seen : Type 0 where
  pub state : OrderState
  pub sl : Decimal
  pub lots : Decimal
  pub broker_order_id : Option String

-- What the order manager does outside its memory: journal writes, alerts (by kind and what they are
-- about), requests to the broker and to the risk gate, and calls of `on_order`, `on_fill`, `on_trade` and the quality log.
pub data Effect : Type 0 where
  saved : ExecState → Effect
  alerted : Severity → (kind about : String) → Effect
  placing : PlaceRequest → Effect
  modifying : ModifyRequest → Effect
  cancelling : String → Effect
  closing : String → Effect
  ordered : BusMessage String → Effect
  filled : Fill → Effect
  traded : Trade → Effect
  rated : ExecutionQuality → Effect
  halting : String → Effect
  clearing : Effect

-- `effects` has the newest first.
pub record World (B : Type 0) : Type 0 where
  pub state : ExecState
  pub verifier : Verifier
  pub quotes : Quotes
  pub reported : Dict String Seen
  pub effects : List Effect
  pub broker : B

-- What the methods raise.
pub data Failure : Type 0 where
  unavailable : String → Failure
  key_error : String → Failure
  runtime_error : List String → Failure
  division_by_zero : Failure

abbrev pub Method : Type 0 → Type 0 → Type 0
Method B A = World B → Result Failure A × World B

abbrev pub resume_with :
    {B A C : Type 0} → Result Failure A × World B → (A → Method B C) → Result Failure C × World B
resume_with (ok a, w) f = f a w
resume_with (err e, w) f = (err e, w)

infixl 5 ◌>>=◌ ◌>>◌
unfoldable pub ◌>>=◌ : {B A C : Type 0} → Method B A → (A → Method B C) → Method B C
◌>>=◌ m f w = resume_with (m w) f

abbrev pub ◌>>◌ : {B A C : Type 0} → Method B A → Method B C → Method B C
m >> n = m >>= λ _. n

unfoldable pub give : {B A : Type 0} → A → Method B A
give a w = (ok a, w)

unfoldable pub raise : {B A : Type 0} → Failure → Method B A
raise e w = (err e, w)

-- `except BrokerUnavailableError`
abbrev pub caught :
    {B A : Type 0} → Result Failure A × World B → (String → Method B A) → Result Failure A × World B
caught (err (unavailable e), w) h = h e w
caught (err (key_error e), w) h = (err (key_error e), w)
caught (err (runtime_error e), w) h = (err (runtime_error e), w)
caught (err division_by_zero, w) h = (err division_by_zero, w)
caught (ok a, w) h = (ok a, w)

unfoldable pub catching : {B A : Type 0} → Method B A → (String → Method B A) → Method B A
catching m h w = caught (m w) h

abbrev pub none_or_raise : {B A : Type 0} → Failure → Option A → Method B A
none_or_raise e none = raise e
none_or_raise e (some a) = give a

abbrev pub or_raise : {B A : Type 0} → Result Failure A → Method B A
or_raise (ok a) = give a
or_raise (err e) = raise e

unfoldable pub gets : {B A : Type 0} → (World B → A) → Method B A
gets f w = (ok (f w), w)

-- an answer of the broker
abbrev pub answered : {B A : Type 0} → Result String A × B → Method B A
answered (ok a, b) w = (ok a, record w { broker = b })
answered (err e, b) w = (err (unavailable e), record w { broker = b })

unfoldable pub ask : {B A : Type 0} → Answer B A → Method B A
ask q w = answered (q w.broker) w

unfoldable pub now : {B : Type 0} → Env B → Method B Datetime
now k w = let (t, b) = k.adapter.clock w.broker in (ok t, record w { broker = b })

unfoldable pub emit : {B : Type 0} → Effect → Method B (Unit {0})
emit e w = (ok tt, record w { effects = e ∷ w.effects })

unfoldable pub set_state : {B : Type 0} → (ExecState → ExecState) → Method B (Unit {0})
set_state f w = (ok tt, record w { state = f w.state })

-- the tracked order changed in place, under its key
abbrev pub adjust : {V : Type 0} → String → (V → V) → Dict String V → Dict String V
adjust k f [] = []
adjust k f ((j, v) ∷ d) = if j == k then (j, f v) ∷ d else (j, v) ∷ adjust k f d

unfoldable pub amend : {B : Type 0} → String → (TrackedOrder → TrackedOrder) → Method B (Unit {0})
amend coid f = set_state (λ s. record s { orders = adjust coid f s.orders })

-- the order as it is now; `t` where the journal has no such order
abbrev pub current : {B : Type 0} → TrackedOrder → Method B TrackedOrder
current t = gets (λ w. elim (lookup t.client_order_id w.state.orders) [ none ↦ t | some u ↦ u ])
