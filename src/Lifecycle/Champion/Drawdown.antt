-- ===== src/Lifecycle/Champion/Drawdown.antt =====
-- The two drawdowns: that of packages/lifecycle/src/autotrader/lifecycle/champion.py, by numpy, and the
-- loop of stats.py.
use kometa.Prelude.{◌≡◌, ◌⊎◌, inl, inr, refl, sym, ap, ◌∙◌, List, [], ◌∷◌, arith, drop}
use mathlib.Core.Path.{subst}
use Prim.{tt}
use kometa.Decimal.{Decimal, dec_zero, ◌+ℚ◌, ◌-ℚ◌, ◌≤ℚ◌, max_ℚ}
use kometa.Decimal.Order.{≤ℚ_refl, ≤ℚ_trans, max_ℚ-ge_left, max_ℚ-ge_right}
use kometa.Lifecycle.Stats as Stats
use kometa.Lifecycle.Stats.{Numbers, drawdown_from}
use kometa.Lifecycle.Stats.Drawdown.{curve, Bounds, IsIn, Bounds-IsIn, max_ℚ_either, sub_ℚ_mono}
use kometa.Lifecycle.Champion.{max_drawdown_r, differences, deepest}

-- the running maxima of a curve, from a peak before it
abbrev pub peaks : Decimal → List Decimal → List Decimal
peaks p [] = []
peaks p (c ∷ cs) = max_ℚ p c ∷ peaks (max_ℚ p c) cs

abbrev pub IsLargest : Decimal → List Decimal → Type 0
IsLargest m xs = Bounds m xs × IsIn m xs

-- What numpy documents: running sums, running maxima, and a largest element of what is not empty.
abbrev pub IsNumpy : Numbers → Type 0
IsNumpy n =
    ((r : List Decimal) → n.cumsum r ≡ curve dec_zero r)
    × ((x : Decimal) (xs : List Decimal) → n.running_max (x ∷ xs) ≡ x ∷ peaks x xs)
    × ((x : Decimal) (xs : List Decimal) → IsLargest (n.largest (x ∷ xs)) (x ∷ xs))

-- the depths below the running maximum
abbrev depths : Decimal → List Decimal → List Decimal
depths p cs = differences (peaks p cs) cs

-- what the loop's result is among the depths
abbrev IsTop : Decimal → List Decimal → Decimal → Type 0
IsTop worst xs m = (worst ≤ℚ m) × Bounds m xs × ((m ≡ worst) ⊎ IsIn m xs)

step-IsTop :
    (worst d m : Decimal) (xs : List Decimal) → IsTop (max_ℚ worst d) xs m → IsTop worst (d ∷ xs) m
step-IsTop worst d m xs (start, bounds, at) = (
  ≤ℚ_trans worst (max_ℚ worst d) m (max_ℚ-ge_left worst d) start,
  (≤ℚ_trans d (max_ℚ worst d) m (max_ℚ-ge_right worst d) start, bounds),
  elim at [
    | inr i ↦ inr (inr i)
    | inl e ↦ elim (max_ℚ_either worst d) [ inl p ↦ inl (e ∙ p) | inr p ↦ inr (inl (e ∙ p)) ]
  ],
)

drawdown_from-IsTop :
    (peak cum worst : Decimal) (rs : List Decimal)
    → IsTop worst (depths peak (curve cum rs)) (drawdown_from peak cum worst rs)
unfolding drawdown_from
drawdown_from-IsTop peak cum worst [] = (≤ℚ_refl worst, tt, inl refl)
drawdown_from-IsTop peak cum worst (r ∷ rs) =
    step-IsTop worst (max_ℚ peak (cum +ℚ r) -ℚ (cum +ℚ r)) _
      (depths (max_ℚ peak (cum +ℚ r)) (curve (cum +ℚ r) rs))
      (drawdown_from-IsTop (max_ℚ peak (cum +ℚ r)) (cum +ℚ r)
        (max_ℚ worst (max_ℚ peak (cum +ℚ r) -ℚ (cum +ℚ r))) rs)

zero-le-self : (c : Decimal) → dec_zero ≤ℚ c -ℚ c
unfolding ◌-ℚ◌
zero-le-self c = omega arith

zero-le-depth : (p c : Decimal) → dec_zero ≤ℚ max_ℚ p c -ℚ c
zero-le-depth p c =
    ≤ℚ_trans dec_zero (c -ℚ c) (max_ℚ p c -ℚ c) (zero-le-self c)
      (sub_ℚ_mono c (max_ℚ p c) c (max_ℚ-ge_right p c))

-- two values that are each the largest, where the loop also starts from zero
same_largest :
    (d m l : Decimal) (xs : List Decimal)
    → dec_zero ≤ℚ d
    → IsTop dec_zero (d ∷ xs) m
    → IsLargest l (d ∷ xs)
    → (l ≤ℚ m) × (m ≤ℚ l)
same_largest d m l xs h (start, bounds, inl e) (above, at) = (
  Bounds-IsIn m l (d ∷ xs) bounds at,
  subst (λ x. x ≤ℚ l) (sym e) (≤ℚ_trans dec_zero d l h above.0),
)
same_largest d m l xs h (start, bounds, inr i) (above, at) =
    (Bounds-IsIn m l (d ∷ xs) bounds at, Bounds-IsIn l m (d ∷ xs) above i)

module _ (n : Numbers) (numpy : IsNumpy n) where
  no_trades : max_drawdown_r n [] ≡ dec_zero
  unfolding max_drawdown_r
  no_trades = ap (deepest n) (numpy.0 [])

  some_trades :
      (r : Decimal) (rs : List Decimal)
      → max_drawdown_r n (r ∷ rs) ≡ n.largest (depths dec_zero (curve dec_zero (r ∷ rs)))
  unfolding max_drawdown_r
  some_trades r rs =
      ap (deepest n) (numpy.0 (r ∷ rs))
      ∙ ap (λ xs. n.largest (differences (drop 1 xs) (curve dec_zero (r ∷ rs))))
          (numpy.1 dec_zero (curve dec_zero (r ∷ rs)))

  -- The drawdown that the swap test computes with numpy is, in value, the drawdown that the metrics
  -- compute with a loop, for any trades, where numpy does what it documents.
  pub max_drawdown_r-agrees :
      (rs : List Decimal)
      → (max_drawdown_r n rs ≤ℚ Stats.max_drawdown_r rs)
        × (Stats.max_drawdown_r rs ≤ℚ max_drawdown_r n rs)
  unfolding Stats.max_drawdown_r drawdown_from
  max_drawdown_r-agrees [] =
      subst (λ x. (x ≤ℚ dec_zero) × (dec_zero ≤ℚ x)) (sym no_trades)
        (≤ℚ_refl dec_zero, ≤ℚ_refl dec_zero)
  max_drawdown_r-agrees (r ∷ rs) =
      subst (λ x. (x ≤ℚ Stats.max_drawdown_r (r ∷ rs)) × (Stats.max_drawdown_r (r ∷ rs) ≤ℚ x))
        (sym (some_trades r rs))
        (same_largest _ _ _ _ (zero-le-depth dec_zero (dec_zero +ℚ r))
          (drawdown_from-IsTop dec_zero dec_zero dec_zero (r ∷ rs)) (numpy.2 _ _))
