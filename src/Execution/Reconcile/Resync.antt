-- ===== src/Execution/Reconcile/Resync.antt =====
-- `Reconciler.resync` of packages/execution/src/autotrader/execution/reconcile.py: each mismatch is resolved
-- where the broker's records explain it, or where the owner says so (`adopt_all`).
use Prim.{Unit, tt}
use kometa.Prelude.{
  ℕ, leb, Bool, false, ◌&&◌, ◌||◌, not, String, Option, none, some, List, [], ◌∷◌, ◌-◌, any, find,
  ltb, ◌==◌, string_eq, if◌then◌else◌,
}
use kometa.Prelude.Dict.{Dict, lookup, insert}
use kometa.Core.Time.{Datetime}
use kometa.Core.Broker.{BrokerPosition, BrokerOrder, BrokerDeal}
use kometa.Core.Models.{Side, EntryType, market}
use kometa.Decimal.{Decimal, dec_zero, ◌+ℚ◌, ◌-ℚ◌, leb_ℚ, ltb_ℚ, eqb_ℚ}
use kometa.Execution.Journal.{
  TrackedOrder, pending_order, open_order, closed, cancelled, expired, failed, active,
}
use kometa.Execution.World.{Env, Method, ◌>>=◌, ◌>>◌, give, gets, ask, now, set_state, amend}
use kometa.Execution.Orders.{save, if_none}
use kometa.Execution.Views.{same_id}
use kometa.Execution.Stops.{confirm_stop}
use kometa.Execution.Deals.{is_in}
use kometa.Execution.Reconcile.Texts.{
  MismatchKind, Mismatch, unconfirmed_send, untracked_position, untracked_order, missing_position,
  missing_order, missing_stop,
}
use kometa.Execution.Reconcile.Report.{
  BrokerView, ReconReport, is_ok, by_id, system_positions, system_orders, lookup?,
}
use kometa.Execution.Reconcile.Check.{view}

-- what a resync looks up
pub record Records : Type 0 where
  pub positions : Dict String BrokerPosition
  pub by_comment_pos : Dict String BrokerPosition
  pub by_comment_ord : Dict String BrokerOrder
  pub deals : List BrokerDeal

abbrev pub records : BrokerView → List BrokerDeal → Records
records v deals = record {
  positions = by_id v.positions;
  by_comment_pos = system_positions v.positions;
  by_comment_ord = system_orders v.orders;
  deals = deals;
}

abbrev pub is_of : Option String → BrokerDeal → Bool
is_of position_id d = same_id position_id (some d.position_id)

abbrev pub lots_in : Option String → List BrokerDeal → Decimal
lots_in position_id [] = dec_zero
lots_in position_id (d ∷ ds) =
    let rest = lots_in position_id ds in
    if is_of position_id d && is_in d.entry then d.lots +ℚ rest else rest

abbrev pub lots_out : Option String → List BrokerDeal → Decimal
lots_out position_id [] = dec_zero
lots_out position_id (d ∷ ds) =
    let rest = lots_out position_id ds in
    if is_of position_id d && not (is_in d.entry) then d.lots +ℚ rest else rest

-- `_deals_explain`
unfoldable pub deals_explain : List BrokerDeal → TrackedOrder → Decimal → Bool
deals_explain deals t broker_lots =
    let bought = lots_in t.position_id deals in
    ltb_ℚ dec_zero bought && eqb_ℚ (bought -ℚ lots_out t.position_id deals) broker_lots

-- the first deal that opened an order
abbrev pub fill_of : String → List BrokerDeal → Option BrokerDeal
fill_of coid deals = find (λ d. (d.comment == coid) && is_in d.entry) deals

abbrev pub find_again : Bool → String → List BrokerDeal → TrackedOrder → TrackedOrder
find_again adopt_all ref deals t =
    if not (any (λ d. d.comment == ref) deals)
    then record t { state = failed; note = "never reached the broker" }
    else if adopt_all
    then record t { state = closed; note = "owner resync" }
    else t

-- an order that was sent, by the position or the pending order that has its comment
unfoldable pub settle_sent :
    Bool
    → String
    → List BrokerDeal
    → Option BrokerPosition
    → Option BrokerOrder
    → TrackedOrder
    → TrackedOrder
settle_sent adopt_all ref deals (some p) order t = record t {
  state = open_order;
  position_id = some p.position_id;
  lots = p.lots;
}
settle_sent adopt_all ref deals none (some o) t = record t {
  state = pending_order;
  broker_order_id = some o.broker_order_id;
}
settle_sent adopt_all ref deals none none t = find_again adopt_all ref deals t

unfoldable pub settle_missing_position : Bool → List BrokerDeal → TrackedOrder → TrackedOrder
settle_missing_position adopt_all deals t =
    if leb_ℚ t.lots (lots_out t.position_id deals) || adopt_all
    then record t { state = closed; lots = dec_zero }
    else t

unfoldable pub settle_lots :
    Bool → List BrokerDeal → Option BrokerPosition → TrackedOrder → TrackedOrder
settle_lots adopt_all deals none t = t
settle_lots adopt_all deals (some p) t =
    if adopt_all || deals_explain deals t p.lots then record t { lots = p.lots } else t

-- the order that `_adopt_unknown` writes, but for its place at the broker; `adopted_id` is the name that
-- it makes of a magic number
abbrev pub unknown_order :
    (account_id strategy_id coid symbol : String)
    → Side
    → EntryType
    → (lots : Decimal) → Option Decimal
    → Option Decimal
    → ℕ
    → Datetime
    → TrackedOrder
unknown_order account_id strategy_id coid symbol side order_type lots sl tp magic created_at =
    record {
      client_order_id = coid;
      intent_id = none;
      account_id = account_id;
      tenant_id = "default";
      strategy_id = strategy_id;
      strategy_version = "unknown";
      symbol = symbol;
      side = side;
      order_type = order_type;
      lots = lots;
      requested_price = none;
      sl = if_none sl dec_zero;
      tp = tp;
      magic = magic;
      state = pending_order;
      broker_order_id = none;
      position_id = none;
      created_at = created_at;
      expires_at = none;
      stop_confirmed = false;
      note = "adopted by owner resync";
      entry_price = none;
      initial_sl = none;
      opened_lots = none;
      filled_at = none;
      realized = dec_zero;
      costs = dec_zero;
      out_value = dec_zero;
      out_lots = dec_zero;
    }

abbrev pub id_of : {A : Type 0} → (A → String) → Option A → Option String
id_of f none = none
id_of f (some x) = some (f x)

-- the earliest time of creation, or `default`
abbrev pub oldest : List TrackedOrder → Datetime → Datetime
oldest [] default = default
oldest (t ∷ []) default = t.created_at
oldest (t ∷ u ∷ ts) default =
    let rest = oldest (u ∷ ts) default in if ltb rest t.created_at then rest else t.created_at

module _ {B : Type 0} where
  abbrev pub track : TrackedOrder → Method B (Unit {0})
  track t = set_state (λ s. record s { orders = insert t.client_order_id t s.orders })

  unfoldable pub adopt_unknown :
      Env B → Option BrokerPosition → Option BrokerOrder → Method B (Unit {0})
  adopt_unknown k (some p) order =
      track
        (record (unknown_order k.account_id (k.adopted_id p.magic) p.comment p.symbol p.side market
          p.lots p.sl p.tp p.magic p.opened_at) {
            state = open_order;
            position_id = some p.position_id;
            broker_order_id = id_of (λ o. o.broker_order_id) order;
          })
  adopt_unknown k none (some o) =
      track
        (record (unknown_order k.account_id (k.adopted_id o.magic) o.comment o.symbol o.side
          o.order_type o.lots o.sl o.tp o.magic o.created_at) {
            broker_order_id = some o.broker_order_id;
          })
  adopt_unknown k none none = give tt

  -- `at is not None and at <= om.clock.now()`
  abbrev pub past_now : Env B → Option Datetime → Method B Bool
  past_now k none = give false
  past_now k (some at) = do time ← now k; give (leb at time)

  -- a pending order that is gone
  abbrev pub settle_missing_order :
      Env B → Bool → TrackedOrder → Option BrokerDeal → Method B (Unit {0})
  settle_missing_order k adopt_all t (some fill) =
      amend t.client_order_id (λ u. record u {
        state = open_order;
        position_id = some fill.position_id;
        lots = fill.lots;
      })
  settle_missing_order k adopt_all t none = do
    past ← past_now k t.expires_at
    if past || adopt_all
        then (do
          again ← past_now k t.expires_at
          amend t.client_order_id (λ u. record u { state = if again then expired else cancelled }))
        else give tt

  abbrev pub resolve_sent :
      Env B → Records → Bool → String → Option TrackedOrder → Method B (Unit {0})
  resolve_sent k r adopt_all ref none =
      if adopt_all
      then adopt_unknown k (lookup ref r.by_comment_pos) (lookup ref r.by_comment_ord)
      else give tt
  resolve_sent k r adopt_all ref (some t) = amend t.client_order_id (
      settle_sent adopt_all ref r.deals (lookup ref r.by_comment_pos) (lookup ref r.by_comment_ord))

  abbrev pub resolve_known :
      Env B → Records → Bool → MismatchKind → Option TrackedOrder → Method B (Unit {0})
  resolve_known k r adopt_all kind none = give tt
  resolve_known k r adopt_all missing_position (some t) =
      amend t.client_order_id (settle_missing_position adopt_all r.deals)
  resolve_known k r adopt_all missing_order (some t) =
      settle_missing_order k adopt_all t (fill_of t.client_order_id r.deals)
  resolve_known k r adopt_all MismatchKind.lots (some t) =
      amend t.client_order_id (settle_lots adopt_all r.deals (lookup? t.position_id r.positions))
  resolve_known k r adopt_all missing_stop (some t) = confirm_stop k t >> give tt
  resolve_known k r adopt_all _ (some t) = give tt

  -- the turn of the loop of `resync` for a mismatch
  abbrev pub resolve :
      Env B → Records → Bool → MismatchKind → String → Option TrackedOrder → Method B (Unit {0})
  resolve k r adopt_all unconfirmed_send ref t = resolve_sent k r adopt_all ref t
  resolve k r adopt_all untracked_position ref t = resolve_sent k r adopt_all ref t
  resolve k r adopt_all untracked_order ref t = resolve_sent k r adopt_all ref t
  resolve k r adopt_all kind ref t = resolve_known k r adopt_all kind t

  unfoldable pub resolve_all : Env B → Records → Bool → List Mismatch → Method B (Unit {0})
  resolve_all k r adopt_all [] = give tt
  resolve_all k r adopt_all (m ∷ ms) = do
    t ← gets (λ w. lookup m.ref w.state.orders)
    resolve k r adopt_all m.kind m.ref t
    resolve_all k r adopt_all ms

  abbrev pub resync_any : Env B → ReconReport → Bool → Method B (Unit {0})
  resync_any k report adopt_all = do
    v ← view k
    orders ← gets (λ w. active w.state)
    time ← now k
    deals ← ask (k.adapter.deals (oldest orders time - k.cfg.deal_lookback))
    resolve_all k (records v deals) adopt_all report.mismatches
    if adopt_all then set_state (λ s. record s { expected_balance = some v.balance }) else give tt
    save k

  unfoldable pub resync : Env B → ReconReport → Bool → Method B (Unit {0})
  resync k report adopt_all = if is_ok report then give tt else resync_any k report adopt_all
