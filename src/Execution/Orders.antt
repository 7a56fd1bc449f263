-- ===== src/Execution/Orders.antt =====
-- The order manager's helpers, in packages/execution/src/autotrader/execution/order_manager.py: prices,
-- the journal write with its order events, and the fills and trades that it reports.
use kometa.Execution.Views.{is_state, seen_of, same_seen, order_view}
use Prim.{Unit, tt}
use Prim.Native.String.{◌++◌}
use kometa.Prelude.{
  ℕ, ◌*◌, suc, zero, Bool, true, false, ◌&&◌, not, String, Option, none, some, List, [], ◌∷◌, ok,
  ◌==◌, string_eq, if◌then◌else◌,
}
use kometa.Prelude.Dict.{Dict, lookup, insert}
use kometa.Core.Time.{Datetime}
use kometa.Core.Broker.{Quote}
use kometa.Core.Events.{
  Severity, warning, BusMessage, order_cancelled, order_placed, order_modified,
}
use kometa.Core.Models.{Side, is_buy}
use kometa.Decimal.{
  Decimal, dec, frac, dec_zero, ◌+ℚ◌, ◌-ℚ◌, ◌*ℚ◌, leb_ℚ, ltb_ℚ, eqb_ℚ, abs_ℚ, neg_ℚ, div_ℚ, floor_ℚ,
}
use kometa.Execution.Journal.{TrackedOrder, cancelled, expired, prune}
use kometa.Execution.World.{
  Env, Method, key_error, division_by_zero, saved, alerted, ordered, filled, traded, rated, Seen,
  ◌>>=◌, ◌>>◌, give, none_or_raise, or_raise, gets, now, emit, set_state,
}

-- the rounding modes of `round_price`
pub data Rounding : Type 0 where
  half_even toward_ceiling toward_floor : Rounding

abbrev nearest : Decimal → Decimal → Decimal
nearest f rest =
    if ltb_ℚ rest (frac 1 2)
    then f
    else if ltb_ℚ (frac 1 2) rest
    then f +ℚ dec 1
    else if eqb_ℚ (floor_ℚ (f *ℚ frac 1 2) *ℚ dec 2) f
    then f
    else f +ℚ dec 1

unfoldable pub to_integral : Rounding → Decimal → Decimal
to_integral toward_floor x = floor_ℚ x
to_integral toward_ceiling x = neg_ℚ (floor_ℚ (neg_ℚ x))
to_integral half_even x = nearest (floor_ℚ x) (x -ℚ floor_ℚ x)

abbrev pub power_of_ten : ℕ → ℕ
power_of_ten zero = 1
power_of_ten (suc n) = 10 * power_of_ten n

unfoldable pub round_price : Decimal → ℕ → Rounding → Decimal
round_price x digits mode =
    to_integral mode (x *ℚ dec (power_of_ten digits)) *ℚ frac 1 (power_of_ten digits)

abbrev pub stop_rounding : Side → Rounding
stop_rounding side = if is_buy side then toward_ceiling else toward_floor

unfoldable pub stop_protects : Side → Option Decimal → Decimal → Bool
stop_protects side none wanted = false
stop_protects side (some sl) wanted =
    not (leb_ℚ sl dec_zero) && (if is_buy side then leb_ℚ wanted sl else leb_ℚ sl wanted)

-- `x or y`, where 0 and None are false
abbrev pub or_else : Option Decimal → Decimal → Decimal
or_else none y = y
or_else (some x) y = if eqb_ℚ x dec_zero then y else x

abbrev pub or_else? : Option Decimal → Option Decimal → Option Decimal
or_else? none y = y
or_else? (some x) y = if eqb_ℚ x dec_zero then y else some x

abbrev cancel_reason : TrackedOrder → String → String
cancel_reason t state = if t.note == "" then state else state ++ (": " ++ t.note)

-- the event of a changed order; `known` says whether it was reported before
unfoldable pub order_event : TrackedOrder → Bool → Datetime → BusMessage String
order_event t known time =
    if is_state cancelled t
    then order_cancelled time t.client_order_id (cancel_reason t "cancelled")
    else if is_state expired t
    then order_cancelled time t.client_order_id (cancel_reason t "expired")
    else if known
    then order_modified time (order_view t time)
    else order_placed time (order_view t time)

abbrev is_known : Option Seen → Bool
is_known none = false
is_known (some s) = true

-- `_opened`, on the order itself
abbrev pub if_none : {A : Type 0} → Option A → A → A
if_none none y = y
if_none (some x) y = x

abbrev pub first_opened : Option Decimal → Decimal → Decimal → TrackedOrder → TrackedOrder
first_opened (some p) price lots t = t
first_opened none price lots t = record t {
  entry_price = some price;
  opened_lots = some lots;
  initial_sl = some t.sl;
  filled_at = some (if_none t.filled_at t.created_at);
}

abbrev pub opened : Decimal → Decimal → TrackedOrder → TrackedOrder
opened price lots t = first_opened t.entry_price price lots t

abbrev spread_of : Option Quote → Option Decimal
spread_of none = none
spread_of (some q) = some (q.ask -ℚ q.bid)

abbrev slippage_of : Side → Decimal → Option Decimal → Option Decimal
slippage_of side price none = none
slippage_of side price (some wanted) =
    some (if is_buy side then price -ℚ wanted else wanted -ℚ price)

-- `",".join(…)`
abbrev joined_to : String → List String → String
joined_to s [] = s
joined_to s (t ∷ ts) = joined_to (s ++ ("," ++ t)) ts

abbrev pub joined : List String → String
joined [] = ""
joined (s ∷ ss) = joined_to s ss

module _ {B : Type 0} where
  abbrev pub alert : Severity → String → String → Method B (Unit {0})
  alert severity kind about = emit (alerted severity kind about)

  unfoldable pub mark_reported : String → Seen → Method B (Unit {0})
  mark_reported coid s w = (ok tt, record w { reported = insert coid s w.reported })

  unfoldable pub report_one : Datetime → String → TrackedOrder → Method B (Unit {0})
  report_one time coid t = do
    before ← gets (λ w. lookup coid w.reported)
    if same_seen (seen_of t) before
        then give tt
        else (mark_reported coid (seen_of t)
            >> emit (ordered (order_event t (is_known before) time)))

  unfoldable pub report_all : Datetime → Dict String TrackedOrder → Method B (Unit {0})
  report_all time [] = give tt
  report_all time ((coid, t) ∷ rest) = report_one time coid t >> report_all time rest

  -- `_report_orders`
  unfoldable pub report_orders : Env B → Method B (Unit {0})
  report_orders k = do time ← now k; orders ← gets (λ w. w.state.orders); report_all time orders

  unfoldable pub save : Env B → Method B (Unit {0})
  save k = do
    sequence ← gets (λ w. w.verifier.last_sequence_plus_one)
    set_state (λ s. record s { last_decision_sequence = sequence })
    time ← now k
    set_state (prune (some time))
    state ← gets (λ w. w.state)
    emit (saved state)
    report_orders k

  abbrev pub quotient : Decimal → Decimal → Method B Decimal
  quotient x y = or_raise (div_ℚ division_by_zero x y)

  -- the trade of a closed position whose money at risk is positive
  abbrev pub report_trade :
      TrackedOrder → Datetime → Decimal → Decimal → Decimal → Decimal → Method B (Unit {0})
  report_trade t exit_time entry stop lots mar = do
    r ← quotient (t.realized -ℚ t.costs) mar
    exit_price ← quotient t.out_value t.out_lots
    emit (
        traded (record {
          trade_id = t.client_order_id;
          account_id = t.account_id;
          tenant_id = t.tenant_id;
          strategy_id = t.strategy_id;
          strategy_version = t.strategy_version;
          symbol = t.symbol;
          side = t.side;
          lots = lots;
          entry_time = if_none t.filled_at t.created_at;
          entry_price = entry;
          stop_price = stop;
          exit_time = exit_time;
          exit_price = exit_price;
          pnl_gross = t.realized;
          costs = t.costs;
          pnl_net = t.realized -ℚ t.costs;
          money_at_risk = mar;
          r_multiple = r;
          mae = dec_zero;
          mfe = dec_zero;
        }))

  abbrev pub closed_with : Env B → TrackedOrder → Datetime → Option Decimal → Method B (Unit {0})
  closed_with k t exit_time none = give tt
  closed_with k t exit_time (some entry) = if eqb_ℚ t.out_lots dec_zero then give tt else (do
    info ← none_or_raise (key_error t.symbol) (lookup t.symbol k.symbols)
    let stop = if_none t.initial_sl t.sl
    let lots = or_else t.opened_lots t.out_lots
    rate ← none_or_raise (key_error t.symbol) (k.to_account t.symbol)
    let mar = abs_ℚ (entry -ℚ stop) *ℚ info.contract_size *ℚ lots *ℚ rate
    if leb_ℚ mar dec_zero
        then alert warning "trade_without_risk" t.client_order_id
        else report_trade t exit_time entry stop lots mar)

  -- `_closed_trade`
  unfoldable pub closed_trade : Env B → TrackedOrder → Datetime → Method B (Unit {0})
  closed_trade k t exit_time = closed_with k t exit_time t.entry_price

  -- `_record_fill`
  unfoldable pub record_fill :
      Env B → TrackedOrder → Decimal → Decimal → Decimal → Decimal → Method B (Unit {0})
  record_fill k t price lots latency_ms commission = do
    q ← gets (λ w. lookup t.symbol w.quotes)
    time ← now k
    emit (
        rated (record {
          client_order_id = t.client_order_id;
          account_id = t.account_id;
          tenant_id = t.tenant_id;
          strategy_id = t.strategy_id;
          strategy_version = t.strategy_version;
          symbol = t.symbol;
          side = t.side;
          order_type = t.order_type;
          lots = lots;
          requested_price = t.requested_price;
          filled_price = price;
          spread_at_fill = spread_of q;
          slippage = slippage_of t.side price t.requested_price;
          latency_ms = latency_ms;
          filled_at = time;
        }))
    emit (
        filled (record {
          client_order_id = t.client_order_id;
          account_id = t.account_id;
          tenant_id = t.tenant_id;
          symbol = t.symbol;
          side = t.side;
          price = price;
          lots = lots;
          commission = commission;
          spread_at_fill = if_none (spread_of q) dec_zero;
          requested_price = t.requested_price;
          latency_ms = latency_ms;
          filled_at = time;
        }))
