-- ===== src/Execution/Watchdog/Returns.antt =====
-- What the watchdog of packages/execution/src/autotrader/execution/watchdog.py raises.
use Prim.{Unit}
use kometa.Prelude.{Result, ok, err}
use kometa.Prelude.Dict.{Dict}
use kometa.Execution.World.{
  Failure, Method, World, unavailable, key_error, runtime_error, division_by_zero,
}
use kometa.Execution.Watchdog.{Watchdog}

pub Fine : {A : Type 0} → (Failure → Type 0) → Result Failure A → Type 0
Fine P (ok a) = Unit {0}
Fine P (err e) = P e

-- Whatever a method raises satisfies `P`.
pub record Raises {B A : Type 0} (P : Failure → Type 0) (m : Method B A) : Type 0 where
  pub from : (w : World B) → Fine P (m w).0

pub IsUnavailable : Failure → Type 0
IsUnavailable (unavailable e) = Unit {0}
IsUnavailable (key_error e) = ⊥
IsUnavailable (runtime_error e) = ⊥
IsUnavailable division_by_zero = ⊥

pub Never : Failure → Type 0
Never e = ⊥
