-- ===== src/Execution/Deals.antt =====
-- The broker's deals, in packages/execution/src/autotrader/execution/order_manager.py: `initialize` and
-- `sync_deals`.
use Prim.{Unit, tt}
use Prim.Native.Nat.{Ordering}
use Prim.Native.String.{compare}
use kometa.Prelude.{
  ℕ, ◌-◌, suc, Bool, true, false, ◌&&◌, ◌||◌, not, Option, none, some, List, [], ◌∷◌, ◌==◌, ltb,
  leb, string_eq, if◌then◌else◌, sort_by, nat_eq,
}
use kometa.Prelude.Dict.{lookup, has_key, insert}
use kometa.Core.Time.{Datetime}
use kometa.Core.Broker.{BrokerDeal, DealKind, DealEntry, is_system_comment}
use kometa.Core.Events.{warning}
use kometa.Decimal.{Decimal, dec_zero, ◌+ℚ◌, ◌-ℚ◌, ◌*ℚ◌, leb_ℚ}
use kometa.Execution.Journal.{TrackedOrder, sending, pending_order, open_order, closed, by_position}
use kometa.Execution.World.{
  Env, Method, ◌>>=◌, ◌>>◌, give, gets, ask, now, amend, set_state, current,
}
use kometa.Execution.Orders.{alert, save, if_none, opened, closed_trade, record_fill}
use kometa.Execution.Views.{is_state, same_id}
use kometa.Execution.Stops.{confirm_stop}

abbrev is_below : Ordering → Bool
is_below Ordering.lt = true
is_below _ = false

-- the order of `(d.time, d.deal_id)`
abbrev pub before : BrokerDeal → BrokerDeal → Bool
before d e = ltb d.time e.time || (d.time == e.time && is_below (compare d.deal_id e.deal_id))

abbrev pub sort_deals : List BrokerDeal → List BrokerDeal
sort_deals ds = sort_by before ds

abbrev pub is_balance : DealKind → Bool
is_balance DealKind.balance = true
is_balance DealKind.trade = false

abbrev pub is_in : DealEntry → Bool
is_in DealEntry.entry_in = true
is_in DealEntry.entry_out = false

-- the later of two times
abbrev pub later : Datetime → Datetime → Datetime
later a b = if ltb a b then b else a

-- what a deal adds to the cash
abbrev pub cash_of : BrokerDeal → Decimal
cash_of d = d.profit +ℚ d.commission +ℚ d.swap

-- the balance expected after a deal
unfoldable pub expect : Option Datetime → BrokerDeal → Option Decimal → Option Decimal
expect none d balance = balance
expect (some since) d balance =
    if leb since d.time then some (if_none balance dec_zero +ℚ cash_of d) else balance

-- the part of an order that closes with a deal
abbrev pub reduce : BrokerDeal → TrackedOrder → TrackedOrder
reduce d t = record t {
  realized = t.realized +ℚ d.profit;
  costs = t.costs -ℚ (d.commission +ℚ d.swap);
  out_value = t.out_value +ℚ d.price *ℚ d.lots;
  out_lots = t.out_lots +ℚ d.lots;
  lots = t.lots -ℚ d.lots;
}

abbrev pub close_empty : TrackedOrder → TrackedOrder
close_empty t = if leb_ℚ t.lots dec_zero then record t { state = closed; lots = dec_zero } else t

abbrev pub take_out : BrokerDeal → TrackedOrder → TrackedOrder
take_out d t = close_empty (reduce d t)

abbrev is_cursor : Datetime → Option Datetime → Bool
is_cursor c none = false
is_cursor c (some d) = c == d

module _ {B : Type 0} where
  abbrev pub first_start : Env B → Option Datetime → Method B (Unit {0})
  first_start k (some since) = give tt
  first_start k none = do
    acct ← ask k.adapter.account
    time ← now k
    set_state (λ s. record s {
      cash_since = some time;
      deals_cursor = some time;
      expected_balance = some acct.balance;
    })
    save k

  unfoldable pub initialize : Env B → Method B (Unit {0})
  initialize k = do since ← gets (λ w. w.state.cash_since); first_start k since

  -- the order a deal belongs to
  abbrev pub order_of : BrokerDeal → Method B (Option TrackedOrder)
  order_of d = gets (λ w.
      elim (if is_system_comment d.comment then lookup d.comment w.state.orders else none) [
        | none ↦ by_position d.position_id w.state
        | some t ↦ some t
      ])

  abbrev pub open_by_deal : Env B → BrokerDeal → TrackedOrder → Method B (Unit {0})
  open_by_deal k d t = do
    amend t.client_order_id (λ u.
        opened d.price d.lots
          (record u { state = open_order; position_id = some d.position_id; lots = d.lots }))
    u ← current t
    record_fill k u d.price d.lots dec_zero d.commission
    save k
    confirm_stop k u
    give tt

  abbrev pub apply_in : Env B → BrokerDeal → TrackedOrder → Method B (Unit {0})
  apply_in k d t = do
    amend t.client_order_id (λ u. record u { costs = u.costs -ℚ d.commission })
    if is_state pending_order t || is_state sending t then open_by_deal k d t else give tt

  abbrev pub apply_out : Env B → BrokerDeal → TrackedOrder → Method B (Unit {0})
  apply_out k d t = do
    amend t.client_order_id (take_out d)
    u ← current t
    if is_state closed u then closed_trade k u d.time else give tt

  abbrev pub apply_trade : Env B → BrokerDeal → Option TrackedOrder → Method B (Unit {0})
  apply_trade k d none = give tt
  apply_trade k d (some t) =
      if is_in d.entry
      then apply_in k d t
      else if is_state open_order t && same_id t.position_id (some d.position_id)
      then apply_out k d t
      else give tt

  -- one turn of the loop of `sync_deals`, for a deal that was not seen
  unfoldable pub apply_deal : Env B → BrokerDeal → Method B (Unit {0})
  apply_deal k d = do
    set_state (λ s. record s {
      seen_deals = insert d.deal_id d.time s.seen_deals;
      expected_balance = expect s.cash_since d s.expected_balance;
    })
    if is_balance d.kind
        then alert warning "balance_operation" d.deal_id
        else order_of d >>= apply_trade k d

  -- the loop of `sync_deals`: the cursor it ends with, and the number of new deals
  unfoldable pub apply_deals : Env B → List BrokerDeal → Datetime → ℕ → Method B (Datetime × ℕ)
  apply_deals k [] cursor new = give (cursor, new)
  apply_deals k (d ∷ ds) cursor new = do
    seen ← gets (λ w. has_key d.deal_id w.state.seen_deals)
    if seen
        then apply_deals k ds cursor new
        else (apply_deal k d >> apply_deals k ds (later cursor d.time) (suc new))

  abbrev pub keep_cursor : Env B → Datetime × ℕ → Method B ℕ
  keep_cursor k (cursor, new) = do
    old ← gets (λ w. w.state.deals_cursor)
    if ltb 0 new || not (is_cursor cursor old)
        then (set_state (λ s. record s { deals_cursor = some cursor }) >> save k)
        else give tt
    give new

  unfoldable pub sync_deals : Env B → Method B ℕ
  sync_deals k = do
    time ← now k
    old ← gets (λ w. w.state.deals_cursor)
    let cursor = if_none old time
    deals ← ask (k.adapter.deals (cursor - k.cfg.deal_lookback))
    done ← apply_deals k (sort_deals deals) cursor 0
    keep_cursor k done
