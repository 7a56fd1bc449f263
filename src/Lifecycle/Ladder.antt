-- ===== src/Lifecycle/Ladder.antt =====
-- The promotion ladder of packages/lifecycle/src/autotrader/lifecycle/registry.py: its tables, the
-- records of a version and what a transition may do; with core/profile.py, the alerts of
-- core/alerts.py and the event of core/events.py. Parameters of a version are their JSON text.
use kometa.Prelude.{
  ℕ, zero, suc, Bool, true, false, ◌&&◌, ◌||◌, not, String, Option, none, some, List, [], ◌∷◌, leb,
  ◌==◌, if◌then◌else◌,
}
use kometa.Prelude.Dict.{Dict}
use kometa.Core.Time.{Datetime}
use kometa.Core.Models.{Stage, candidate, shadow, micro, live, scaled, retired, demo_only, stage_eq}
use kometa.Core.Events.{Severity}
use kometa.Decimal.{Decimal}

pub data Origin : Type 0 where
  trader research_agent owner_made learning_reopt learning_meta learning_regime : Origin

-- `origin in LEARNED`
abbrev pub learned : Origin → Bool
learned learning_reopt = true
learned learning_meta = true
learned learning_regime = true
learned _ = false

pub data Actor : Type 0 where
  evaluator validation owner learning : Actor

abbrev pub is_owner : Actor → Bool
is_owner owner = true
is_owner _ = false

-- `(frm, to) in ALLOWED`
unfoldable pub allowed : Stage → Stage → Bool
allowed candidate to = to == shadow || to == retired
allowed shadow to = to == micro || to == retired || to == demo_only
allowed micro to = to == live || to == retired || to == shadow
allowed live to = to == scaled || to == micro
allowed scaled to = to == live
allowed retired to = false
allowed demo_only to = to == shadow || to == retired

-- `stage in MONEY_STAGES`
unfoldable pub money_stage : Stage → Bool
money_stage s = s == micro || s == live || s == scaled

-- `(frm, to) in DEMOTIONS`
unfoldable pub demotion : Stage → Stage → Bool
demotion scaled to = to == live
demotion live to = to == micro
demotion micro to = to == shadow || to == retired
demotion _ to = false

pub record VersionInfo : Type 0 where
  pub strategy_id : String
  pub version : String
  pub family : String
  pub origin : Origin
  pub paper_only : Bool
  pub code_hash : String
  pub params : String
  pub parent_version : Option String
  pub created_by : String
  pub tenant_id : String

-- A value of `metrics`; a float that is not finite has no JSON.
pub data Metric : Type 0 where
  number : Decimal → Metric
  not_finite : Metric
  text : String → Metric
  flag : Bool → Metric
  null : Metric

-- `None if isinstance(x, float) and not math.isfinite(x) else x`
abbrev pub finite_or_null : Metric → Metric
finite_or_null not_finite = null
finite_or_null x = x

abbrev pub clean : Dict String Metric → Dict String Metric
clean [] = []
clean ((k, x) ∷ m) = (k, finite_or_null x) ∷ clean m

pub record StageRecord : Type 0 where
  pub strategy_id : String
  pub version : String
  pub from_stage : Option Stage
  pub to_stage : Stage
  pub reason : String
  pub actor : Actor
  pub metrics : Dict String Metric
  pub at : Datetime

pub record BacktestProfile : Type 0 where
  pub strategy_id : String
  pub strategy_version : String
  pub trade_r : List Decimal
  pub weekly_entries : List ℕ
  pub mc_dd_p95_r : Decimal
  pub model_slippage : Dict String Decimal
  pub source : String
  pub synthetic : Bool

pub record VersionState : Type 0 where
  pub info : VersionInfo
  pub stage : Stage
  pub stage_since : Datetime
  pub history : List StageRecord
  pub profile : Option BacktestProfile

-- `(strategy_id, version)`
abbrev pub Key : Type 0
Key = String × String

abbrev pub key_of : VersionState → Key
key_of v = (v.info.strategy_id, v.info.version)

abbrev is_demotion : StageRecord → Bool
is_demotion h = elim h.from_stage [ none ↦ false | some frm ↦ demotion frm h.to_stage ]

abbrev count_demotions : Datetime → List StageRecord → ℕ
count_demotions t [] = zero
count_demotions t (h ∷ hs) =
    let rest = count_demotions t hs in if leb t h.at && is_demotion h then suc rest else rest

unfoldable pub demotions_since : VersionState → Datetime → ℕ
demotions_since v t = count_demotions t v.history

abbrev from_shadow : Option Stage → Bool
from_shadow none = false
from_shadow (some s) = s == shadow

abbrev last_entry : Option Datetime → List StageRecord → Option Datetime
last_entry start [] = start
last_entry start (h ∷ hs) =
    last_entry (if h.to_stage == micro && from_shadow h.from_stage then some h.at else start) hs

-- Start of the current run of money stages
unfoldable pub money_since : VersionState → Option Datetime
money_since v = if money_stage v.stage then last_entry none v.history else none

abbrev pub has_profile : VersionState → Bool
has_profile v = elim v.profile [ none ↦ false | some p ↦ true ]

-- `legal` of `transition`
unfoldable pub legal : VersionState → Stage → Actor → Bool
legal v to actor =
    (allowed v.stage to || to == retired && is_owner actor && not (v.stage == retired))
    && not (v.info.paper_only && v.stage == shadow && not (to == retired || to == demo_only))
    && not (to == demo_only && not (v.info.paper_only && is_owner actor))
    && not (v.stage == candidate && to == shadow && not (has_profile v) && not v.info.paper_only)

-- The `details` of the registry's alerts, and the message, say again what the other fields say.
pub data LadderAlert : Type 0 where
  illegal_transition : Datetime → LadderAlert
  stage_alert :
      Severity → (demoted : Bool) → Key → Stage → Stage → (reason : String) → Datetime → LadderAlert
