-- ===== src/Lifecycle/Champion/Tests.antt =====
-- The drawdown of three trades, with functions that do what numpy documents.
use kometa.Prelude.{inl, inr, refl, sym, List, [], ◌∷◌}
use mathlib.Core.Path.{subst}
use Prim.{tt}
use kometa.Decimal.{Decimal, dec, dec_zero, frac, neg_ℚ, ◌≤ℚ◌, max_ℚ}
use kometa.Decimal.Order.{≤ℚ_refl, ≤ℚ_trans, max_ℚ-ge_left, max_ℚ-ge_right}
use kometa.Lifecycle.Stats as Stats
use kometa.Lifecycle.Stats.{Numbers}
use kometa.Lifecycle.Stats.Drawdown.{
  Bounds, IsIn, curve, falls, max_ℚ_either, max_drawdown_r-largest,
}
use kometa.Lifecycle.Champion.{max_drawdown_r}
use kometa.Lifecycle.Champion.Drawdown.{peaks, IsLargest, IsNumpy, max_drawdown_r-agrees}

abbrev maxima : List Decimal → List Decimal
maxima [] = []
maxima (x ∷ xs) = x ∷ peaks x xs

abbrev largest_from : Decimal → List Decimal → Decimal
largest_from x [] = x
largest_from x (y ∷ ys) = max_ℚ x (largest_from y ys)

abbrev largest : List Decimal → Decimal
largest [] = dec_zero
largest (x ∷ xs) = largest_from x xs

Bounds-mono : (m n : Decimal) (xs : List Decimal) → m ≤ℚ n → Bounds m xs → Bounds n xs
Bounds-mono m n [] h b = tt
Bounds-mono m n (x ∷ xs) h b = (≤ℚ_trans x m n b.0 h, Bounds-mono m n xs h b.1)

largest_from-IsLargest : (x : Decimal) (xs : List Decimal) → IsLargest (largest_from x xs) (x ∷ xs)
largest_from-IsLargest x [] = ((≤ℚ_refl x, tt), inl refl)
largest_from-IsLargest x (y ∷ ys) =
    let rest = largest_from-IsLargest y ys in
    (
      (
        max_ℚ-ge_left x (largest_from y ys),
        Bounds-mono _ _ (y ∷ ys) (max_ℚ-ge_right x (largest_from y ys)) rest.0,
      ),
      elim (max_ℚ_either x (largest_from y ys)) [
        | inl e ↦ inl e
        | inr e ↦ inr (subst (λ z. IsIn z (y ∷ ys)) (sym e) rest.1)
      ],
    )

abbrev numbers : Numbers
numbers = record {
  mean_band = λ sample n level. (dec_zero, dec 10);
  std = λ xs. dec 1;
  root_252 = frac 1587 100;
  bootstrap_p = λ a b seed. frac 1 2;
  cumsum = curve dec_zero;
  running_max = maxima;
  largest = largest;
}

numbers-IsNumpy : IsNumpy numbers
numbers-IsNumpy = (λ r. refl, λ x xs. refl, largest_from-IsLargest)

abbrev trades : List Decimal
trades = dec 2 ∷ neg_ℚ (dec 3) ∷ dec 1 ∷ []

max_drawdown_r-agrees_example :
    (max_drawdown_r numbers trades ≤ℚ Stats.max_drawdown_r trades)
    × (Stats.max_drawdown_r trades ≤ℚ max_drawdown_r numbers trades)
max_drawdown_r-agrees_example = max_drawdown_r-agrees numbers numbers-IsNumpy trades

max_drawdown_r-largest_example :
    Bounds (Stats.max_drawdown_r trades) (falls (dec_zero ∷ curve dec_zero trades))
    × IsIn (Stats.max_drawdown_r trades) (falls (dec_zero ∷ curve dec_zero trades))
max_drawdown_r-largest_example = max_drawdown_r-largest trades
