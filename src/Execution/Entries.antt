-- ===== src/Execution/Entries.antt =====
-- The entries of the order manager (packages/execution/src/autotrader/execution/order_manager.py): `execute`
-- with its write-ahead journal, and `_send` with its search at the broker before each attempt.
use kometa.Execution.Requests.{
  market_price, expiry, rounded_target, milliseconds, error_text, tracked_of,
}
use Prim.{Unit, tt}
use kometa.Prelude.{
  ℕ, zero, suc, Bool, true, false, ◌&&◌, ◌||◌, not, String, Option, none, some, find, ◌==◌,
  string_eq, if◌then◌else◌, ok,
}
use kometa.Prelude.Dict.{lookup, insert}
use kometa.Core.Time.{Datetime}
use kometa.Core.Broker.{BrokerAck, BrokerPosition, PlaceRequest, Quote, SymbolInfo, client_order_id}
use kometa.Core.Events.{critical, warning}
use kometa.Core.Models.{is_market, OrderIntent, RiskDecision, Timeframe}
use kometa.Decimal.{Decimal, dec_zero, leb_ℚ, ltb_ℚ, eqb_ℚ, div_ℚ, floor_ℚ}
use kometa.Execution.Journal.{
  TrackedOrder, OrderState, open_order, pending_order, sending, rejected,
}
use kometa.Execution.Quotes.{fresh_quote}
use kometa.Execution.Verifier.{
  Refusal, bad_signature, another_intent, expired, replayed, not_approving, verify,
}
use kometa.Execution.World.{
  Env, Method, division_by_zero, placing, ◌>>=◌, ◌>>◌, give, or_raise, catching, gets, ask, now,
  emit, amend, set_state, current,
}
use kometa.Execution.Orders.{
  alert, save, round_price, half_even, stop_rounding, or_else, or_else?, opened, record_fill,
  if_none,
}
use kometa.Execution.Stops.{confirm_stop}

pub record ExecResult : Type 0 where
  pub client_order_id : String
  pub state : Option OrderState
  pub is_placed : Bool
  pub reason : String

abbrev pub result : String → Option OrderState → Bool → String → ExecResult
result coid state is_placed reason = record {
  client_order_id = coid;
  state = state;
  is_placed = is_placed;
  reason = reason;
}

-- the text of a DecisionRejectedError
abbrev pub refusal_text : Refusal → String
refusal_text bad_signature = "bad or missing risk-gate signature"
refusal_text another_intent = "decision is for another intent"
refusal_text expired = "decision expired"
refusal_text replayed = "replayed or out-of-order decision"
refusal_text not_approving = "decision does not approve an order"

abbrev pub is_forged : Refusal → Bool
is_forged bad_signature = true
is_forged _ = false

-- what ends an attempt of `_send` without BrokerUnavailableError
pub data Attempt : Type 0 where
  found_there : ExecResult → Attempt
  answer : BrokerAck → Attempt

module _ {B : Type 0} where
  abbrev pub place_at_broker : Env B → PlaceRequest → Method B BrokerAck
  place_at_broker k req = emit (placing req) >> ask (k.adapter.place req)

  abbrev pub order_at_broker :
      Env B → String → Option BrokerPosition → Method B (Option BrokerPosition × Option String)
  order_at_broker k coid (some p) = give (some p, none)
  order_at_broker k coid none = do
    orders ← ask k.adapter.pending_orders
    give (
      none,
      elim (find (λ o. o.comment == coid) orders) [ none ↦ none | some o ↦ some o.broker_order_id ],
    )

  unfoldable pub find_at_broker : Env B → String → Method B (Option BrokerPosition × Option String)
  find_at_broker k coid = do
    positions ← ask k.adapter.open_positions
    order_at_broker k coid (find (λ p. p.comment == coid) positions)

  -- `_adopt`
  unfoldable pub adopt :
      Env B → TrackedOrder → Option BrokerPosition → Option String → Method B (Unit {0})
  adopt k t (some p) order_id = do
    amend t.client_order_id (λ u.
        opened p.price_open p.lots
          (record u { state = open_order; position_id = some p.position_id; lots = p.lots }))
    save k
    u ← current t
    record_fill k u p.price_open p.lots dec_zero dec_zero
    confirm_stop k u
    give tt
  adopt k t none (some order_id) =
      amend t.client_order_id
        (λ u. record u { state = pending_order; broker_order_id = some order_id })
      >> save k
  adopt k t none none = give tt

  abbrev pub adopted :
      Env B → TrackedOrder → Option BrokerPosition → Option String → Method B Attempt
  adopted k t pos order_id = do
    adopt k t pos order_id
    u ← current t
    give (found_there (result t.client_order_id (some u.state) true "found at broker"))

  abbrev pub place_or_adopt :
      Env B → TrackedOrder → PlaceRequest → Option BrokerPosition × Option String → Method B Attempt
  place_or_adopt k t req (some p, order_id) = adopted k t (some p) order_id
  place_or_adopt k t req (none, some order_id) = adopted k t none (some order_id)
  place_or_adopt k t req (none, none) = do ack ← place_at_broker k req; give (answer ack)

  unfoldable pub attempt : Env B → TrackedOrder → PlaceRequest → Method B (Option Attempt)
  attempt k t req = do
    at ← find_at_broker k t.client_order_id
    done ← place_or_adopt k t req at
    give (some done)

  -- the loop of `_send`
  unfoldable pub attempts : Env B → TrackedOrder → PlaceRequest → ℕ → Method B (Option Attempt)
  attempts k t req zero = give none
  attempts k t req (suc n) = do
    done ← catching (attempt k t req) (λ e. give none)
    elim done [ none ↦ attempts k t req n | some a ↦ give (some a) ]

  abbrev pub placed_market : Env B → TrackedOrder → BrokerAck → Decimal → Method B (Unit {0})
  placed_market k t ack latency = do
    amend t.client_order_id (λ u. record u {
      state = open_order;
      position_id = ack.position_id;
      lots = if_none ack.filled_lots u.lots;
    })
    u ← current t
    let price = or_else (or_else? ack.filled_price u.requested_price) dec_zero
    amend t.client_order_id (opened price u.lots)
    save k
    v ← current t
    record_fill k v price v.lots latency dec_zero
    confirm_stop k v
    give tt

  abbrev pub handle_ack : Env B → TrackedOrder → BrokerAck → Decimal → Method B ExecResult
  handle_ack k t ack latency =
      if not ack.success
      then (do
        let why = error_text ack.error
        amend t.client_order_id (λ u. record u { state = rejected; note = why })
        save k
        give (result t.client_order_id (some rejected) false why))
      else (do
        if is_market t.order_type
            then placed_market k t ack latency
            else (amend t.client_order_id
                  (λ u. record u { state = pending_order; broker_order_id = ack.broker_order_id })
                >> save k)
        u ← current t
        give (result t.client_order_id (some u.state) true ""))

  abbrev pub after_attempts : Env B → TrackedOrder → Datetime → Option Attempt → Method B ExecResult
  after_attempts k t sent_at none = do
    alert warning "order_unconfirmed" t.client_order_id
    give (result t.client_order_id (some sending) false "broker unavailable")
  after_attempts k t sent_at (some (found_there r)) = give r
  after_attempts k t sent_at (some (answer ack)) = do
    time ← now k
    handle_ack k t ack (or_else (some (milliseconds sent_at time)) ack.latency_ms)

  -- `_send`
  unfoldable pub send : Env B → TrackedOrder → PlaceRequest → Method B ExecResult
  send k t req = do sent_at ← now k; done ← attempts k t req 2; after_attempts k t sent_at done

  -- `(lots / info.lot_step) % 1 != 0`
  abbrev pub off_step : Decimal → Decimal → Method B Bool
  off_step lots step = do
    q ← or_raise (div_ℚ division_by_zero lots step)
    give (not (eqb_ℚ (floor_ℚ q) q))

  -- whether the approved lots are not valid for the intent
  unfoldable pub bad_lots : OrderIntent → SymbolInfo → Decimal → Method B Bool
  bad_lots intent info lots =
      if not (ltb_ℚ dec_zero lots && leb_ℚ lots intent.proposed_lots)
      then give true
      else (do off ← off_step lots info.lot_step; give (off || ltb_ℚ lots info.min_lot))

  abbrev pub request_of :
      Env B
      → OrderIntent
      → SymbolInfo
      → String
      → Decimal
      → Option Decimal
      → Timeframe
      → PlaceRequest
  request_of k intent info coid lots price tf = record {
    client_order_id = coid;
    symbol = intent.signal.symbol;
    side = intent.signal.side;
    order_type = intent.signal.entry_type;
    lots = lots;
    price = price;
    sl = round_price intent.signal.stop_price info.digits (stop_rounding intent.signal.side);
    tp = rounded_target info.digits intent.signal.target_price;
    magic = k.magic_number intent.signal.strategy_id intent.signal.strategy_version;
    expires_at = expiry intent.signal tf;
  }

  -- the write-ahead of the order, and `_send`
  abbrev pub track_and_send : Env B → TrackedOrder → PlaceRequest → Method B ExecResult
  track_and_send k t req = do
    set_state (λ s. record s { orders = insert t.client_order_id t s.orders })
    save k
    send k t req

  abbrev pub send_market :
      Env B
      → OrderIntent
      → SymbolInfo
      → String
      → Decimal
      → Timeframe
      → Datetime
      → Option Quote
      → Method B ExecResult
  send_market k intent info coid lots tf time none = do
    alert warning "stale_quotes" intent.signal.symbol
    give (result coid none false "no fresh quote")
  send_market k intent info coid lots tf time (some q) =
      let req = request_of k intent info coid lots none tf in
      track_and_send k (tracked_of intent req (some (market_price intent.signal.side q)) time) req

  abbrev pub send_entry :
      Env B
      → OrderIntent
      → SymbolInfo
      → String
      → Decimal
      → Timeframe
      → Datetime
      → Method B ExecResult
  send_entry k intent info coid lots tf time =
      if is_market intent.signal.entry_type
      then (do
        q ← gets (λ w. fresh_quote intent.signal.symbol time k.cfg.max_quote_age w.quotes)
        send_market k intent info coid lots tf time q)
      else (let price =
            round_price (or_else intent.signal.entry_price dec_zero) info.digits half_even in
          let req = request_of k intent info coid lots (some price) tf in
          track_and_send k (tracked_of intent req (some price) time) req)

  abbrev pub check_lots_and_send :
      Env B
      → OrderIntent
      → String
      → Decimal
      → Timeframe
      → Datetime
      → Option SymbolInfo
      → Method B ExecResult
  check_lots_and_send k intent coid lots tf time none =
      give (result coid none false "unknown symbol")
  check_lots_and_send k intent coid lots tf time (some info) = do
    bad ← bad_lots intent info lots
    if bad
        then give (result coid none false "approved lots not valid for this intent")
        else send_entry k intent info coid lots tf time

  abbrev pub verified :
      Env B
      → OrderIntent
      → RiskDecision String
      → String
      → Timeframe
      → Datetime
      → Option Refusal
      → Method B ExecResult
  verified k intent d coid tf time (some r) = do
    if is_forged r then alert critical "forged_decision" intent.intent_id else give tt
    give (result coid none false (refusal_text r))
  verified k intent d coid tf time none =
      save k
      >> check_lots_and_send k intent coid d.approved_lots tf time
          (lookup intent.signal.symbol k.symbols)

  -- `self.verifier.verify`
  unfoldable pub verify_decision :
      Env B → RiskDecision String → String → Datetime → Method B (Option Refusal)
  verify_decision k d intent_id time w =
      let (r, v) = verify k.genuine d intent_id time w.verifier in (ok r, record w { verifier = v })

  abbrev pub execute_new :
      Env B
      → OrderIntent
      → RiskDecision String
      → Timeframe
      → Datetime
      → String
      → Option TrackedOrder
      → Method B ExecResult
  execute_new k intent d tf time coid (some t) =
      give (result coid (some t.state) false "duplicate intent")
  execute_new k intent d tf time coid none = do
    r ← verify_decision k d intent.intent_id time
    verified k intent d coid tf time r

  unfoldable pub execute :
      Env B → OrderIntent → RiskDecision String → Timeframe → Method B ExecResult
  execute k intent d tf = do
    time ← now k
    let coid = client_order_id k.hex intent.intent_id
    known ← gets (λ w. lookup coid w.state.orders)
    execute_new k intent d tf time coid known
