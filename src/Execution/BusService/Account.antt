-- ===== src/Execution/BusService/Account.antt =====
-- The account as execution publishes it, and the periodic pass:
-- packages/execution/src/autotrader/execution/bus_service.py.
use Prim.{Unit, tt}
use kometa.Prelude.{
  true, false, not, String, Option, none, some, List, [], ◌∷◌, ◌++◌, map, string_eq, if◌then◌else◌,
  Result, ok, err,
}
use kometa.Prelude.Dict.{Dict, lookup}
use kometa.Core.Broker.{BrokerOrder, BrokerPosition, Quote, SymbolInfo, is_system_comment}
use kometa.Core.Events.{account_update, AccountUpdate, ReportedExposure}
use kometa.Decimal.{Decimal}
use kometa.Execution.BusService.{BusService, Handling, publish_all, flush}
use kometa.Execution.Deals.{sync_deals}
use kometa.Execution.Ends.{expire_pending}
use kometa.Execution.Journal.{TrackedOrder}
use kometa.Execution.World.{Env, World, Method, Failure, ◌>>=◌, ◌>>◌, give, gets, ask, now}

-- the tracked order of a comment, for an order of the system
abbrev pub tracked_by : Dict String TrackedOrder → String → Option TrackedOrder
tracked_by orders comment = if is_system_comment comment then lookup comment orders else none

abbrev pub strategy_of : Option TrackedOrder → Option String
strategy_of none = none
strategy_of (some t) = some t.strategy_id

abbrev pub version_of : Option TrackedOrder → Option String
version_of none = none
version_of (some t) = some t.strategy_version

abbrev pub position_exposure : Dict String TrackedOrder → BrokerPosition → ReportedExposure
position_exposure orders p = record {
  symbol = p.symbol;
  side = p.side;
  lots = p.lots;
  entry = p.price_open;
  stop = p.sl;
  strategy_id = strategy_of (tracked_by orders p.comment);
  strategy_version = version_of (tracked_by orders p.comment);
  position_id = some p.position_id;
  pending = false;
  external = not (is_system_comment p.comment);
}

abbrev pub order_exposure : Dict String TrackedOrder → BrokerOrder → ReportedExposure
order_exposure orders o = record {
  symbol = o.symbol;
  side = o.side;
  lots = o.lots;
  entry = o.price;
  stop = o.sl;
  strategy_id = strategy_of (tracked_by orders o.comment);
  strategy_version = version_of (tracked_by orders o.comment);
  position_id = none;
  pending = true;
  external = not (is_system_comment o.comment);
}

abbrev pub quotes_held : Dict String SymbolInfo → Dict String Quote → List Quote
quotes_held [] quotes = []
quotes_held ((s, i) ∷ symbols) quotes = elim (lookup s quotes) [
  | none ↦ quotes_held symbols quotes
  | some q ↦ q ∷ quotes_held symbols quotes
]

abbrev pub margins : Dict String SymbolInfo → Dict String Decimal
margins [] = []
margins ((s, i) ∷ symbols) = elim i.margin_per_lot [
  | none ↦ margins symbols
  | some m ↦ (s, m) ∷ margins symbols
]

module _ {B : Type 0} (k : Env B) (tenant_id : String) where
  -- the update of `publish_account`
  unfoldable pub read_account : Method B AccountUpdate
  read_account = do
    acct ← ask k.adapter.account
    positions ← ask k.adapter.open_positions
    pending ← ask k.adapter.pending_orders
    orders ← gets (λ w. w.state.orders)
    quotes ← gets (λ w. quotes_held k.symbols w.quotes)
    at ← now k
    give record {
      at = at;
      account_id = acct.account_id;
      tenant_id = tenant_id;
      currency = acct.currency;
      balance = acct.balance;
      equity = acct.equity;
      free_margin = acct.free_margin;
      exposures = map (position_exposure orders) positions ++ map (order_exposure orders) pending;
      quotes = quotes;
      margin_per_lot = margins k.symbols;
    }

  abbrev pub publish_update : BusService → Result Failure AccountUpdate × World B → Handling B
  publish_update s (ok u, w) = (none, (publish_all (("account", account_update u) ∷ []) s, w))
  publish_update s (err e, w) = (some e, (s, w))

  unfoldable pub publish_account : BusService × World B → Handling B
  publish_account (s, w) = publish_update s (read_account w)

  abbrev pub after_pass : BusService → Result Failure (Unit {0}) × World B → Handling B
  after_pass s (ok u, w) = publish_account (flush s w, w)
  after_pass s (err e, w) = (some e, (s, w))

  -- `cycle`: deals, expiry, the outbox, then the account
  unfoldable pub pass : BusService × World B → Handling B
  pass (s, w) = after_pass s ((sync_deals k >> expire_pending k >>= λ n. give tt) w)
