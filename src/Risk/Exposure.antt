-- ===== src/Risk/Exposure.antt =====
-- The inputs of the risk gate, and its exposure arithmetic: `Exposure`, `Snapshot`, `_risk_money`,
-- `_notional`, `_currency_dirs` and `floor_step` of packages/risk/src/autotrader/risk/gate.py.
use kometa.Prelude.{
  ℕ, Bool, true, false, ◌&&◌, String, Option, none, some, List, [], ◌∷◌, Result, ok, err, ◌>>=◌,
  ◌==◌, string_eq, if◌then◌else◌, suc,
}
use kometa.Prelude.Dict.{Dict, lookup, insert}
use kometa.Core.Time.{Datetime}
use kometa.Core.Broker.{DataError, key_error, division_by_zero}
use kometa.Core.Models.{Side, is_buy, Stage, Instrument}
use kometa.Decimal.{Decimal, dec_zero, frac, ◌+ℚ◌, ◌-ℚ◌, ◌*ℚ◌, div_ℚ, floor_ℚ, max_ℚ}
use kometa.Risk.Config.{RiskLimits}
use kometa.Risk.Events.{EventIndex}

pub record Exposure : Type 0 where
  pub symbol : String
  pub side : Side
  pub lots : Decimal
  pub entry : Decimal
  pub stop : Option Decimal
  pub strategy_id : Option String
  pub pending : Bool
  pub external : Bool

pub record Snapshot : Type 0 where
  pub now : Datetime
  pub equity : Decimal
  pub free_margin : Decimal
  pub bid : Decimal
  pub ask : Decimal
  pub exposures : List Exposure
  pub instruments : Dict String Instrument
  pub to_account : String → Result DataError Decimal
  pub margin_per_lot : Dict String Decimal
  pub stages : Dict (String × String) Stage
  pub events : Option EventIndex

-- A currency is long (+1) or short (-1).
pub data Direction : Type 0 where
  long short : Direction

abbrev pub same_direction : Direction → Direction → Bool
same_direction long long = true
same_direction short short = true
same_direction _ _ = false

-- `_currency_dirs`
abbrev pub currency_dirs : Instrument → Side → Dict String Direction
currency_dirs inst Side.buy = insert inst.quote short (insert inst.base long [])
currency_dirs inst Side.sell = insert inst.quote long (insert inst.base short [])

-- `floor_step`
unfoldable pub floor_step : Decimal → Decimal → Result DataError Decimal
floor_step x step = do q ← div_ℚ division_by_zero x step; ok (floor_ℚ q *ℚ step)

-- `d[k]`, which raises KeyError
abbrev pub get_item : {V : Type 0} → String → Dict String V → Result DataError V
get_item k d = elim (lookup k d) [ none ↦ err (key_error k) | some v ↦ ok v ]

-- `sum((f(e) for e in es if test(e)), acc)`, where f may raise
unfoldable pub sum_where :
    {A : Type 0}
    → (A → Bool)
    → (A → Result DataError Decimal)
    → Decimal
    → List A
    → Result DataError Decimal
sum_where test f acc [] = ok acc
sum_where test f acc (e ∷ es) = elim (test e) [
  | true ↦ (do x ← f e; sum_where test f (acc +ℚ x) es)
  | false ↦ sum_where test f acc es
]

abbrev pub every : {A : Type 0} → A → Bool
every e = true

-- `_notional`
unfoldable pub notional : Snapshot → String → Decimal → Decimal → Result DataError Decimal
notional snap symbol lots price = do
  inst ← get_item symbol snap.instruments
  fx ← snap.to_account inst.quote
  ok (lots *ℚ inst.contract_size *ℚ price *ℚ fx)

-- The money at risk of an exposure by its stop; without one, 2% of its notional or the per-trade
-- maximum, whichever is more.
unfoldable pub stop_money :
    RiskLimits → Snapshot → Exposure → Instrument → Decimal → Option Decimal → Decimal
stop_money lim snap e inst fx none =
    max_ℚ (e.lots *ℚ inst.contract_size *ℚ e.entry *ℚ fx *ℚ frac 2 100)
      (snap.equity *ℚ lim.risk_per_trade_max)
stop_money lim snap e inst fx (some st) =
    let per_unit = if is_buy e.side then e.entry -ℚ st else st -ℚ e.entry in
    max_ℚ per_unit dec_zero *ℚ inst.contract_size *ℚ e.lots *ℚ fx

-- `_risk_money`
unfoldable pub risk_money : RiskLimits → Snapshot → Exposure → Result DataError Decimal
unfolding stop_money
risk_money lim snap e = do
  inst ← get_item e.symbol snap.instruments
  fx ← snap.to_account inst.quote
  ok (stop_money lim snap e inst fx e.stop)

-- `e.strategy_id == sig.strategy_id and not e.external`
abbrev pub of_strategy : String → Exposure → Bool
of_strategy sid e =
    (elim e.strategy_id [ none ↦ false | some s ↦ s == sid ])
    && (if e.external then false else true)

abbrev pub on_symbol : String → Exposure → Bool
on_symbol symbol e = e.symbol == symbol

-- Whether an exposure holds a currency in a direction: an exposure of an unknown instrument does
-- not count.
abbrev pub holds : Snapshot → String → Direction → Exposure → Bool
holds snap ccy d e = elim (lookup e.symbol snap.instruments) [
  | none ↦ false
  | some other ↦ elim (lookup ccy (currency_dirs other e.side)) [
    | none ↦ false
    | some d' ↦ same_direction d' d
  ]
]

abbrev pub count_if : {A : Type 0} → (A → Bool) → List A → ℕ
count_if p [] = 0
count_if p (x ∷ xs) = let rest = count_if p xs in if p x then suc rest else rest
