-- ===== src/Execution/Verifier.antt =====
-- `DecisionVerifier` of packages/core/src/autotrader/core/signing.py: the check that execution makes of
-- a decision. Ed25519 and the canonical JSON are parameters: `genuine d sig` says whether `sig` is the
-- gate's signature of the decision without its signature (`verify_bytes` of `decision_payload`).
pub mod Replays
use kometa.Prelude.{
  ℕ, ◌+◌, Bool, true, false, ◌&&◌, ◌||◌, not, String, Option, none, some, Result, ok, err, ltb, leb,
  ◌==◌, string_eq, if◌then◌else◌,
}
use kometa.Core.Time.{Datetime}
use kometa.Core.Models.{RiskDecision, Verdict}
use kometa.Decimal.{dec_zero, leb_ℚ}

-- `DecisionRejectedError`, by its text
pub data Refusal : Type 0 where
  bad_signature another_intent expired replayed not_approving : Refusal

-- `last_sequence`, plus 1: 0 before the first decision (-1 in the code)
pub record Verifier : Type 0 where
  pub last_sequence_plus_one : ℕ

abbrev pub unsigned : {R : Type 0} → RiskDecision R → RiskDecision R
unsigned d = record d { signature = none }

abbrev pub signed_by : {R : Type 0} → (RiskDecision R → String → Bool) → RiskDecision R → Bool
signed_by genuine d = elim d.signature [ none ↦ false | some sig ↦ genuine (unsigned d) sig ]

abbrev pub is_reject : Verdict → Bool
is_reject Verdict.reject = true
is_reject _ = false

-- `verify`: what it raises, and the verifier it leaves
unfoldable pub verify :
    {R : Type 0}
    → (RiskDecision R → String → Bool)
    → RiskDecision R
    → (intent_id : String) → Datetime
    → Verifier
    → Option Refusal × Verifier
verify genuine d intent_id now v =
    if not (signed_by genuine d)
    then (some bad_signature, v)
    else if not (d.intent_id == intent_id)
    then (some another_intent, v)
    else if ltb d.expires_at now
    then (some expired, v)
    else if ltb d.sequence v.last_sequence_plus_one
    then (some replayed, v)
    else if is_reject d.verdict || leb_ℚ d.approved_lots dec_zero
    then (some not_approving, v)
    else (none, record { last_sequence_plus_one = d.sequence + 1 })
