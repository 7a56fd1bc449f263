-- ===== src/Core/Models/Enums.antt =====
-- The enumerations of models.py, with their tests for equality.
use kometa.Prelude.{ℕ, ◌≡◌, Bool, true, false, String, arith, nat_beq, Eq}

pub data Timeframe : Type 0 where
  m1 m5 m15 h1 h4 d1 : Timeframe

-- `_TF_MINUTES`
abbrev pub tf_minutes : Timeframe → ℕ
tf_minutes m1 = 1
tf_minutes m5 = 5
tf_minutes m15 = 15
tf_minutes h1 = 60
tf_minutes h4 = 240
tf_minutes d1 = 1440

pub data Stage : Type 0 where
  candidate shadow micro live scaled retired demo_only : Stage

-- `stage.value`
abbrev pub stage_value : Stage → String
stage_value candidate = "candidate"
stage_value shadow = "shadow"
stage_value micro = "micro"
stage_value live = "live"
stage_value scaled = "scaled"
stage_value retired = "retired"
stage_value demo_only = "demo_only"

abbrev stage_index : Stage → ℕ
stage_index candidate = 0
stage_index shadow = 1
stage_index micro = 2
stage_index live = 3
stage_index scaled = 4
stage_index retired = 5
stage_index demo_only = 6

abbrev pub stage_beq : Stage → Stage → Bool
stage_beq s t = nat_beq (stage_index s) (stage_index t)

pub stage_beq_eq : (s t : Stage) → stage_beq s t ≡ true → s ≡ t
stage_beq_eq s t h = ground arith

pub stage_eq_beq : (s t : Stage) → s ≡ t → stage_beq s t ≡ true
stage_eq_beq s t h = ground arith

instance abbrev pub stage_eq : Eq Stage
stage_eq = record { beq = stage_beq; beq_iff = λ s t. (stage_beq_eq s t, stage_eq_beq s t) }

pub data HaltState : Type 0 where
  normal daily_halt weekly_halt recon_halt full_halt : HaltState

abbrev halt_index : HaltState → ℕ
halt_index normal = 0
halt_index daily_halt = 1
halt_index weekly_halt = 2
halt_index recon_halt = 3
halt_index full_halt = 4

abbrev pub halt_beq : HaltState → HaltState → Bool
halt_beq s t = nat_beq (halt_index s) (halt_index t)

pub halt_beq_eq : (s t : HaltState) → halt_beq s t ≡ true → s ≡ t
halt_beq_eq s t h = ground arith

pub halt_eq_beq : (s t : HaltState) → s ≡ t → halt_beq s t ≡ true
halt_eq_beq s t h = ground arith

instance abbrev pub halt_eq : Eq HaltState
halt_eq = record { beq = halt_beq; beq_iff = λ s t. (halt_beq_eq s t, halt_eq_beq s t) }

-- `state in HALT_CLOSES_POSITIONS`
abbrev pub halt_closes_positions : HaltState → Bool
halt_closes_positions daily_halt = true
halt_closes_positions weekly_halt = true
halt_closes_positions full_halt = true
halt_closes_positions _ = false

pub data Side : Type 0 where
  buy sell : Side

abbrev pub is_buy : Side → Bool
is_buy buy = true
is_buy sell = false

pub data EntryType : Type 0 where
  market limit stop : EntryType

abbrev pub is_market : EntryType → Bool
is_market market = true
is_market _ = false

pub data Verdict : Type 0 where
  approve resize reject : Verdict
