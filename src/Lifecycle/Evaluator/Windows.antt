-- ===== src/Lifecycle/Evaluator/Windows.antt =====
-- Samples and windows from which the evaluator's bootstraps can draw.
use kometa.Prelude.{
  ℕ, suc, ◌≡◌, ◌<◌, refl, sym, ap, Bool, true, false, Option, none, some, List, [], ◌∷◌,
  if◌then◌else◌, length, map, arith, leb,
}
use Prim.{Unit}
use mathlib.Core.Path.{subst}
use kometa.Core.Models.{stage_eq, Trade}
use kometa.Core.Broker.{ExecutionQuality}
use kometa.Decimal.{Decimal}
use kometa.Lifecycle.Config.{PromotionConfig, Demotion}
use kometa.Lifecycle.Stats.{Numbers, Band, bootstrap_mean_band}
use kometa.Lifecycle.Evaluator.Metrics.{with_bands, Findings, judge_drift, demotion_reasons, wins}
use kometa.Lifecycle.Ladder.{BacktestProfile}

-- What pydantic checks of a profile: it has trades and weeks.
abbrev pub HasSamples : Option BacktestProfile → Type 0
HasSamples none = Unit
HasSamples (some p) = (0 < length p.trade_r) × (0 < length p.weekly_entries)

-- What it checks of the windows of the configuration
pub record HasWindows (c : PromotionConfig) : Type 0 where
  pub drift : 0 < c.demotion.drift_window
  pub min_trades : 0 < c.micro.exit.min_trades

pub length-map : {A B : Type 0} (f : A → B) (xs : List A) → length (map f xs) ≡ length xs
length-map f [] = refl
length-map f (x ∷ xs) = ap suc (length-map f xs)

pub band-some :
    (n : Numbers) (sample : List Decimal) (m : ℕ) (level : Decimal)
    → 0 < m
    → 0 < length sample
    → (b : Band) × (bootstrap_mean_band n sample m level ≡ some b)
unfolding bootstrap_mean_band
band-some n sample m level h k = (n.mean_band sample m level, ground arith)

if_some :
    {A : Type 0} (b : Bool) (o : Option A) (a : A)
    → (x : A) × (o ≡ some x)
    → (x : A) × ((if b then o else some a) ≡ some x)
if_some true o a h = h
if_some false o a h = (a, refl)

bands-some :
    (x y : Option Band) (f : Band → Band → Findings)
    → (a : Band) × (x ≡ some a)
    → (b : Band) × (y ≡ some b)
    → (g : Findings) × (with_bands x y f ≡ some g)
bands-some x y f (a, p) (b, q) = (f a b, rw (p, q) refl)

drift-some :
    (n : Numbers) (d : Demotion) (prof : Option BacktestProfile) (rs : List Decimal) (f : Findings)
    → 0 < d.drift_window
    → HasSamples prof
    → (g : Findings) × (judge_drift n d prof rs f ≡ some g)
unfolding judge_drift
drift-some n d none rs f h s = (f, refl)
drift-some n d (some p) rs f h s = if_some (leb d.drift_window (length rs)) _ f (
    bands-some _ _ _
      (band-some n (wins p.trade_r) d.drift_window d.drift_interval h
        (subst (λ m. 0 < m) (sym (length-map _ p.trade_r)) s.0))
      (band-some n p.trade_r d.drift_window d.drift_interval h s.0))

pub reasons-some :
    (n : Numbers) (d : Demotion) (prof : Option BacktestProfile) (ts : List Trade)
    (fills : List ExecutionQuality)
    → 0 < d.drift_window
    → HasSamples prof
    → (g : Findings) × (demotion_reasons n d prof ts fills ≡ some g)
unfolding demotion_reasons
reasons-some n d prof ts fills h s = drift-some n d prof _ _ h s
