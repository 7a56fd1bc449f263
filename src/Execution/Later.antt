-- ===== src/Execution/Later.antt =====
-- One tracked order against itself at a later time.
use mathlib.Core.Path.{subst}
use kometa.Prelude.{◌≡◌, refl, ◌∙◌, true, string_eq}
use kometa.Decimal.{Decimal, ◌≤ℚ◌}
use kometa.Decimal.Order.{≤ℚ_refl, ≤ℚ_trans, <ℚ_≤ℚ, ltb→<ℚ}
use kometa.Core.Models.{Side, buy, sell}
use kometa.Execution.Journal.{TrackedOrder}
use kometa.Execution.Stops.{tighter}

-- `b` is at least as near the price as `a`, as a stop of a position.
pub AsTight : Side → Decimal → Decimal → Type 0
AsTight buy a b = a ≤ℚ b
AsTight sell a b = b ≤ℚ a

pub AsTight-refl : (side : Side) (a : Decimal) → AsTight side a a
unfolding AsTight
AsTight-refl buy a = ≤ℚ_refl a
AsTight-refl sell a = ≤ℚ_refl a

AsTight-trans :
    (side : Side) (a b c : Decimal) → AsTight side a b → AsTight side b c → AsTight side a c
unfolding AsTight
AsTight-trans buy a b c h k = ≤ℚ_trans a b c h k
AsTight-trans sell a b c h k = ≤ℚ_trans c b a k h

pub tighter-AsTight :
    (side : Side) (new old : Decimal) → tighter side new old ≡ true → AsTight side old new
unfolding AsTight
tighter-AsTight buy new old h = <ℚ_≤ℚ old new (ltb→<ℚ old new h)
tighter-AsTight sell new old h = <ℚ_≤ℚ new old (ltb→<ℚ new old h)

-- The same order, later.
pub record Later (t u : TrackedOrder) : Type 0 where
  pub same_key : u.client_order_id ≡ t.client_order_id
  pub same_intent : u.intent_id ≡ t.intent_id
  pub same_side : u.side ≡ t.side
  pub same_symbol : u.symbol ≡ t.symbol
  pub same_magic : u.magic ≡ t.magic
  pub stop : AsTight t.side t.sl u.sl

pub Later-refl : (t : TrackedOrder) → Later t t
Later-refl t = record {
  same_key = refl;
  same_intent = refl;
  same_side = refl;
  same_symbol = refl;
  same_magic = refl;
  stop = AsTight-refl t.side t.sl;
}

pub Later-trans : (t u v : TrackedOrder) → Later t u → Later u v → Later t v
Later-trans t u v h k = record {
  same_key = k.same_key ∙ h.same_key;
  same_intent = k.same_intent ∙ h.same_intent;
  same_side = k.same_side ∙ h.same_side;
  same_symbol = k.same_symbol ∙ h.same_symbol;
  same_magic = k.same_magic ∙ h.same_magic;
  stop =
      AsTight-trans t.side t.sl u.sl v.sl h.stop
        (subst (λ s. AsTight s u.sl v.sl) h.same_side k.stop);
}
