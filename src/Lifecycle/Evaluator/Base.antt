-- ===== src/Lifecycle/Evaluator/Base.antt =====
-- What the evaluator works on: the registry, and what it did outside. Every reading of the clock is
-- its next one. An action of execution may raise, as it likes, by what was asked of it before.
use Prim.{Unit, tt}
use kometa.Prelude.{ℕ, suc, Bool, String, Option, none, some, List, [], ◌∷◌, ◌++◌, Result, ok, err}
use kometa.Core.Time.{Datetime}
use kometa.Core.Models.{Trade}
use kometa.Core.Broker.{ExecutionQuality}
use kometa.Decimal.{Decimal}
use kometa.Lifecycle.Champion.{SwapVerdict}
use kometa.Lifecycle.Config.{PromotionConfig}
use kometa.Lifecycle.Ladder.{Key}
use kometa.Lifecycle.Registry as Reg
use kometa.Lifecycle.Registry.{Registry, Failure}
use kometa.Lifecycle.Stats.{Numbers, Band, Ratio}

-- Where the evaluator reads trades, signals and fills
pub record StageData : Type 0 where
  pub trades : Key → (since : Datetime) → (shadow : Bool) → List Trade
  pub signal_count : Key → (since : Datetime) → ℕ
  pub fills : Key → (since : Datetime) → List ExecutionQuality

pub data Action : Type 0 where
  cancel_pending : Key → (reason : String) → Action
  close_positions : Key → (reason : String) → Action

-- `DemotionActions`: what a call raises, if it does, after the calls before it
pub record DemotionActions : Type 0 where
  pub raised : List Action → Action → Option String

-- Why a version is demoted
pub data Reason : Type 0 where
  deep_drawdown : (dd factor p95 : Decimal) → Reason
  low_profit_factor : Ratio → (min : Decimal) → Reason
  high_slippage : (ratio max : Decimal) → Reason
  odd_win_rate : Decimal → Band → Reason
  odd_avg_r : Decimal → Band → Reason

pub record SwapRecord : Type 0 where
  pub at : Datetime
  pub strategy_id : String
  pub champion : String
  pub challenger : String
  pub k : ℕ
  pub verdict : SwapVerdict
  pub champion_signals : ℕ
  pub challenger_signals : ℕ

-- Formatted numbers, JSON, and the seed that sha256 gives
pub record Texts : Type 0 where
  pub demotion_reason : Reason → String
  pub slipped : (sharpe min : Decimal) → String
  pub swap_reason : SwapVerdict → String
  pub swap_payload : SwapRecord → String
  pub stable_seed : Key → ℕ

-- `__init__`, and the parameters
pub record Env : Type 0 where
  pub cfg : PromotionConfig
  pub stage_data : StageData
  pub clock : ℕ → Datetime
  pub actions : Option DemotionActions
  pub learning_paused : Option (String → Option String)
  pub numbers : Numbers
  pub texts : Texts

pub data ActionAlert : Type 0 where
  demotion_action_failed : Key → (error : String) → Datetime → ActionAlert

pub record World : Type 0 where
  pub registry : Registry
  pub readings : ℕ
  pub done : List Action
  pub alerts : List ActionAlert

abbrev pub Method : Type 0 → Type 0
Method A = World → Result Failure A × World

unfoldable pub give : {A : Type 0} → A → Method A
give a w = (ok a, w)

unfoldable pub fail : {A : Type 0} → Failure → Method A
fail e w = (err e, w)

abbrev pub after :
    {A B : Type 0} → Result Failure A × World → (A → Method B) → Result Failure B × World
after (ok a, w) f = f a w
after (err e, w) f = (err e, w)

infixl 5 ◌>>=◌ ◌>>◌
unfoldable pub ◌>>=◌ : {A B : Type 0} → Method A → (A → Method B) → Method B
(m >>= f) w = after (m w) f

abbrev pub ◌>>◌ : {A B : Type 0} → Method A → Method B → Method B
(m >> n) = m >>= λ a. n

-- `self.clock.now()`
unfoldable pub now : Env → Method Datetime
now k w = (ok (k.clock w.readings), record w { readings = suc w.readings })

abbrev pub with_registry :
    {A : Type 0} → World → Result Failure A × Registry → Result Failure A × World
with_registry w (r, g) = (r, record w { registry = g })

-- a call of the registry
unfoldable pub ask : {A : Type 0} → Reg.Method A → Method A
ask m w = with_registry w (m w.registry)

-- a value that raises when it is missing
unfoldable pub or_fail : {A : Type 0} → Failure → Option A → Method A
or_fail e none = fail e
or_fail e (some a) = give a

unfoldable pub alert : ActionAlert → Method (Unit {0})
alert a w = (ok tt, record w { alerts = w.alerts ++ a ∷ [] })

-- the call of an action: what it raised
unfoldable pub act : DemotionActions → Action → Method (Option String)
act d a w = (ok (d.raised w.done a), record w { done = w.done ++ a ∷ [] })

-- a look at the registry
unfoldable pub gets : {A : Type 0} → (Registry → A) → Method A
gets f w = (ok (f w.registry), w)
