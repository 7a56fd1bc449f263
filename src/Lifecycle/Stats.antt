-- ===== src/Lifecycle/Stats.antt =====
-- The stage metrics of packages/lifecycle/src/autotrader/lifecycle/stats.py, in exact numbers. The
-- draws of the bootstrap and the square roots are numpy's and are parameters.
pub mod Drawdown
use kometa.Prelude.{
  ℕ, zero, suc, ◌+◌, ◌-◌, ◌/◌, ◌%◌, Bool, ◌&&◌, ◌||◌, Option, none, some, List, [], ◌∷◌, length,
  keep_if, ltb, nat_beq, nat_eq, if◌then◌else◌, ok, err,
}
use Prim.{Unit, tt}
use kometa.Prelude.Dict.{Dict, insert, get_or}
use kometa.Core.Time.{days}
use kometa.Core.Models.{Trade}
use kometa.Decimal.{
  Decimal, dec_zero, frac, ◌+ℚ◌, ◌-ℚ◌, ◌*ℚ◌, sum_ℚ, leb_ℚ, ltb_ℚ, eqb_ℚ, max_ℚ, neg_ℚ, div_ℚ,
}

abbrev pub Band : Type 0
Band = Decimal × Decimal

-- `a / b`, for b not zero
unfoldable pub quotient : Decimal → Decimal → Decimal
unfolding div_ℚ
quotient a b = elim (div_ℚ {E = Unit {0}} tt a b) [ ok q ↦ q | err e ↦ dec_zero ]

unfoldable pub inside : Decimal → Band → Bool
inside x (lo, hi) = leb_ℚ lo x && leb_ℚ x hi

unfoldable pub mean : List Decimal → Decimal
mean [] = dec_zero
mean (x ∷ xs) = sum_ℚ dec_zero (x ∷ xs) *ℚ frac 1 (length (x ∷ xs))

-- A float that may be `math.inf`.
pub data Ratio : Type 0 where
  finite : Decimal → Ratio
  infinite : Ratio

abbrev pub is_gain : Decimal → Bool
is_gain r = ltb_ℚ dec_zero r

abbrev pub is_loss : Decimal → Bool
is_loss r = ltb_ℚ r dec_zero

unfoldable pub profit_factor : List Decimal → Ratio
profit_factor rs =
    let gains = sum_ℚ dec_zero (keep_if is_gain rs) in
    let losses = neg_ℚ (sum_ℚ dec_zero (keep_if is_loss rs)) in
    if eqb_ℚ losses dec_zero
    then (if ltb_ℚ dec_zero gains then infinite else finite dec_zero)
    else finite (quotient gains losses)

-- the loop of `max_drawdown_r`
unfoldable pub drawdown_from : (peak cum worst : Decimal) → List Decimal → Decimal
drawdown_from peak cum worst [] = worst
drawdown_from peak cum worst (r ∷ rs) =
    drawdown_from (max_ℚ peak (cum +ℚ r)) (cum +ℚ r)
      (max_ℚ worst (max_ℚ peak (cum +ℚ r) -ℚ (cum +ℚ r))) rs

unfoldable pub max_drawdown_r : List Decimal → Decimal
max_drawdown_r = drawdown_from dec_zero dec_zero dec_zero

-- `t.exit_time.date()`, as a number of days
abbrev pub exit_day : Trade → ℕ
exit_day t = t.exit_time / days 1

abbrev by_day : List Trade → Dict ℕ Decimal → Dict ℕ Decimal
by_day [] d = d
by_day (t ∷ ts) d =
    by_day ts (insert (exit_day t) (get_or (exit_day t) dec_zero d +ℚ t.r_multiple) d)

abbrev first_day : ℕ → Dict ℕ Decimal → ℕ
first_day m [] = m
first_day m ((k, x) ∷ d) = first_day (if ltb k m then k else m) d

abbrev last_day : ℕ → Dict ℕ Decimal → ℕ
last_day m [] = m
last_day m ((k, x) ∷ d) = last_day (if ltb m k then k else m) d

-- The first day of Python's calendar is a Monday.
abbrev is_weekday : ℕ → Bool
is_weekday d = ltb (d % 7) 5

abbrev weekday_returns : (first count : ℕ) → Dict ℕ Decimal → List Decimal
weekday_returns d zero m = []
weekday_returns d (suc n) m =
    let rest = weekday_returns (d + 1) n m in
    if is_weekday d then get_or d dec_zero m ∷ rest else rest

unfoldable pub daily_r : List Trade → List Decimal
daily_r [] = []
daily_r (t ∷ ts) =
    let d = by_day (t ∷ ts) [] in
    let first = first_day (exit_day t) d in
    weekday_returns first (last_day (exit_day t) d - first + 1) d

-- numpy: the quantiles of the means of the draws, `std(ddof=1)`, `sqrt(252)`, the p-value of the
-- bootstrap of champion.py from a seed, `cumsum`, `maximum.accumulate` and `max`
pub record Numbers : Type 0 where
  pub mean_band : List Decimal → ℕ → Decimal → Band
  pub std : List Decimal → Decimal
  pub root_252 : Decimal
  pub bootstrap_p : List Decimal → List Decimal → (seed : ℕ) → Decimal
  pub cumsum : List Decimal → List Decimal
  pub running_max : List Decimal → List Decimal
  pub largest : List Decimal → Decimal

abbrev is_empty : List Decimal → Bool
is_empty xs = nat_beq (length xs) 0

-- None is the ValueError.
unfoldable pub bootstrap_mean_band : Numbers → List Decimal → ℕ → Decimal → Option Band
bootstrap_mean_band k sample n level =
    if nat_beq n 0 || is_empty sample then none else some (k.mean_band sample n level)

unfoldable pub annualized_sharpe : Numbers → List Decimal → Decimal
annualized_sharpe k daily =
    if ltb (length daily) 2 || eqb_ℚ (k.std daily) dec_zero
    then dec_zero
    else quotient (mean daily) (k.std daily) *ℚ k.root_252
