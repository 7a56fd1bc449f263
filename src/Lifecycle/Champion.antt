-- ===== src/Lifecycle/Champion.antt =====
-- Champion against challenger: packages/lifecycle/src/autotrader/lifecycle/champion.py. The reasons
-- of a verdict are constructors with the values that their texts show.
pub mod Drawdown
mod Tests
use kometa.Prelude.{
  ℕ, ◌+◌, ◌-◌, ◌*◌, Bool, true, false, ◌&&◌, ◌||◌, not, Option, none, some, List, [], ◌∷◌, ◌++◌,
  length, drop, ltb, leb, nat_beq, if◌then◌else◌,
}
use kometa.Core.Time.{Datetime, days}
use kometa.Decimal.{Decimal, dec_zero, frac, ◌-ℚ◌, ◌*ℚ◌, ltb_ℚ, leb_ℚ}
use kometa.Lifecycle.Stats.{Numbers, mean}

abbrev pub min_weeks : ℕ
min_weeks = 4

abbrev pub min_signals : ℕ
min_signals = 40

abbrev pub alpha : Decimal
alpha = frac 1 10

abbrev pub dd_ratio : Decimal
dd_ratio = frac 12 10

abbrev pub swap_gap : ℕ
swap_gap = days 30

abbrev pub rollback_window : ℕ
rollback_window = days (7 * 4)

pub record Record : Type 0 where
  pub r : List Decimal
  pub first_at : Datetime
  pub last_at : Datetime

pub data Contender : Type 0 where
  champion challenger : Contender

pub data WhyNot : Type 0 where
  too_few : Contender → (span signals : ℕ) → WhyNot
  swapped_lately : (ago : ℕ) → WhyNot
  not_better : Decimal → WhyNot
  not_significant : (p threshold : Decimal) → (k : ℕ) → WhyNot
  deeper : (challenger_dd champion_dd : Decimal) → WhyNot

pub record SwapVerdict : Type 0 where
  pub swap : Bool
  pub reasons : List WhyNot
  pub diff : Option Decimal
  pub p_value : Option Decimal
  pub champion_dd : Option Decimal
  pub challenger_dd : Option Decimal

abbrev pub is_empty : Record → Bool
is_empty c = nat_beq (length c.r) 0

-- `weeks`, as the time that it is the quotient of
abbrev pub span : Record → ℕ
span c = if is_empty c then 0 else c.last_at - c.first_at

-- `[why] if test else []`
abbrev pub note : Bool → WhyNot → List WhyNot
note true why = why ∷ []
note false why = []

-- `a - b`, element by element
abbrev pub differences : List Decimal → List Decimal → List Decimal
differences (x ∷ xs) (y ∷ ys) = (x -ℚ y) ∷ differences xs ys
differences xs ys = []

-- `np.max(np.maximum.accumulate([0.0, *eq])[1:] - eq)`, or zero where `eq` is empty
abbrev pub deepest : Numbers → List Decimal → Decimal
deepest n [] = dec_zero
deepest n (x ∷ eq) = n.largest (differences (drop 1 (n.running_max (dec_zero ∷ x ∷ eq))) (x ∷ eq))

unfoldable pub max_drawdown_r : Numbers → List Decimal → Decimal
max_drawdown_r n r = deepest n (n.cumsum r)

unfoldable pub long_enough : Contender → Record → List WhyNot
long_enough side c =
    note (ltb (span c) (days (7 * min_weeks)) || ltb (length c.r) min_signals)
      (too_few side (span c) (length c.r))

unfoldable pub lately_swapped : Datetime → Option Datetime → List WhyNot
lately_swapped now none = []
lately_swapped now (some at) = note (ltb now (at + swap_gap)) (swapped_lately (now - at))

abbrev pub is_none : List WhyNot → Bool
is_none [] = true
is_none (w ∷ ws) = false

abbrev pub worse : Option Decimal → List WhyNot
worse none = []
worse (some diff) = note (leb_ℚ diff dec_zero) (not_better diff)

-- `ALPHA / max(k, 1)`
abbrev pub threshold : ℕ → Decimal
threshold k = alpha *ℚ frac 1 (if ltb k 1 then 1 else k)

abbrev pub chance : Option Decimal → ℕ → List WhyNot
chance none k = []
chance (some p) k = note (leb_ℚ (threshold k) p) (not_significant p (threshold k) k)

abbrev pub when_both : {A : Type 0} → Record → Record → A → Option A
when_both a b x = if is_empty a || is_empty b then none else some x

-- the verdict when it is not cut short
abbrev pub verdict : List WhyNot → (diff p : Option Decimal) → (a b : Decimal) → SwapVerdict
verdict why diff p a b = record {
  swap = is_none why;
  reasons = why;
  diff = diff;
  p_value = p;
  champion_dd = some a;
  challenger_dd = some b;
}

-- what is against a swap before the samples are compared
unfoldable pub early_reasons : Record → Record → Datetime → Option Datetime → List WhyNot
unfolding long_enough lately_swapped
early_reasons champ chal now last_swap =
    long_enough champion champ ++ long_enough challenger chal ++ lately_swapped now last_swap

unfoldable pub swap_test :
    Numbers
    → Record
    → Record
    → (now : Datetime) (k : ℕ) (last_swap : Option Datetime) (seed : ℕ) → SwapVerdict
unfolding early_reasons max_drawdown_r
swap_test n champ chal now k last_swap seed =
    let early = early_reasons champ chal now last_swap in
    let diff = when_both champ chal (mean chal.r -ℚ mean champ.r) in
    let p = when_both champ chal (n.bootstrap_p champ.r chal.r seed) in
    let a = max_drawdown_r n champ.r in
    let b = max_drawdown_r n chal.r in
    if not (is_none early) && (is_empty champ || is_empty chal)
    then record {
      swap = false;
      reasons = early;
      diff = none;
      p_value = none;
      champion_dd = none;
      challenger_dd = none;
    }
    else verdict (early ++ worse diff ++ chance p k ++ note (ltb_ℚ (dd_ratio *ℚ a) b) (deeper b a))
        diff p a b

-- the demotion is no later than four weeks after the swap
unfoldable pub rollback_due : (swapped_at : Datetime) → (demoted_at : Option Datetime) → Bool
rollback_due swapped_at none = false
rollback_due swapped_at (some at) = leb swapped_at at && leb at (swapped_at + rollback_window)
