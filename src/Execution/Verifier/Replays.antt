-- ===== src/Execution/Verifier/Replays.antt =====
-- What execution accepts of the decisions of the risk gate, and replays of them.
use kometa.Prelude.{
  ◌+◌, ◌≤◌, ◌<◌, ◌≡◌, ◌≢◌, refl, sym, ap, ◌∙◌, false, inl, inr, Bool, true, String, none, some,
  List, [], ◌∷◌, ltb, lt→ltb, ◌==◌, string_eq, arith, Bool-cases,
}
use kometa.Core.Time.{Datetime}
use kometa.Core.Models.{RiskDecision, Verdict}
use kometa.Decimal.{dec_zero, ◌<ℚ◌}
use kometa.Decimal.Order.{leb-false}
use kometa.Execution.Verifier.{Verifier, Refusal, verify, signed_by, is_reject}

is_reject-false : (v : Verdict) → is_reject v ≡ false → v ≢ Verdict.reject
is_reject-false v h same = elim (true-ne-false (sym (ap is_reject same) ∙ h)) [ ]
  where
    true-ne-false : true ≡ false → ⊥
    true-ne-false e = cc

-- A decision that `verify` accepts is signed by the gate, is for this intent, has not expired, is newer
-- than every decision accepted before, does not reject, and approves a positive size; it is then the
-- last one accepted.
pub verify_needs :
    {R : Type 0} (genuine : RiskDecision R → String → Bool) (d : RiskDecision R)
    (intent_id : String) (now : Datetime) (v : Verifier)
    → (verify genuine d intent_id now v).0 ≡ none
    → (signed_by genuine d ≡ true)
      × (d.intent_id ≡ intent_id)
      × (now ≤ d.expires_at)
      × (v.last_sequence_plus_one ≤ d.sequence)
      × (d.verdict ≢ Verdict.reject)
      × (dec_zero <ℚ d.approved_lots)
      × ((verify genuine d intent_id now v).1.last_sequence_plus_one ≡ d.sequence + 1)
unfolding verify
verify_needs genuine d intent_id now v h = ground (
  arith,
  string_eq.beq_iff d.intent_id intent_id,
  is_reject-false d.verdict,
  leb-false d.approved_lots dec_zero,
)

-- A call of `verify`.
pub record Call (R : Type 0) : Type 0 where
  pub decision : RiskDecision R
  pub intent_id : String
  pub now : Datetime

unfoldable pub verify_all :
    {R : Type 0} → (RiskDecision R → String → Bool) → List (Call R) → Verifier → Verifier
verify_all genuine [] v = v
verify_all genuine (c ∷ cs) v =
    verify_all genuine cs (verify genuine c.decision c.intent_id c.now v).1

verify_rises :
    {R : Type 0} (genuine : RiskDecision R → String → Bool) (d : RiskDecision R)
    (intent_id : String) (now : Datetime) (v : Verifier)
    → v.last_sequence_plus_one ≤ (verify genuine d intent_id now v).1.last_sequence_plus_one
unfolding verify
verify_rises genuine d intent_id now v = ground arith

verify_all_rises :
    {R : Type 0} (genuine : RiskDecision R → String → Bool) (cs : List (Call R)) (v : Verifier)
    → v.last_sequence_plus_one ≤ (verify_all genuine cs v).last_sequence_plus_one
unfolding verify_all
verify_all_rises genuine [] v = omega arith
verify_all_rises genuine (c ∷ cs) v =
    let next = (verify genuine c.decision c.intent_id c.now v).1 in
    omega
      (arith, verify_rises genuine c.decision c.intent_id c.now v, verify_all_rises genuine cs next)

old_refused :
    {R : Type 0} (genuine : RiskDecision R → String → Bool) (d : RiskDecision R)
    (intent_id : String) (now : Datetime) (v : Verifier)
    → d.sequence < v.last_sequence_plus_one
    → ((r : Refusal) × ((verify genuine d intent_id now v).0 ≡ some r))
      × ((verify genuine d intent_id now v).1 ≡ v)
unfolding verify
old_refused genuine d intent_id now v old = elim (Bool-cases (signed_by genuine d)) [
  | inr e ↦ rw e ((_, refl), refl)
  | inl e ↦ elim (Bool-cases (d.intent_id == intent_id)) [
    | inr f ↦ rw (e, f) ((_, refl), refl)
    | inl f ↦ elim (Bool-cases (ltb d.expires_at now)) [
      | inl g ↦ rw (e, f, g) ((_, refl), refl)
      | inr g ↦ rw (e, f, g, lt→ltb d.sequence v.last_sequence_plus_one old) ((_, refl), refl)
    ]
  ]
]

-- No decision is carried out twice: after `verify` accepts a decision, and whatever calls follow, it
-- refuses every decision whose sequence number is not larger, at any time and for any intent.
pub verify_once :
    {R : Type 0} (genuine : RiskDecision R → String → Bool) (c again : Call R)
    (between : List (Call R)) (v : Verifier)
    → (verify genuine c.decision c.intent_id c.now v).0 ≡ none
    → again.decision.sequence ≤ c.decision.sequence
    → let later = verify_all genuine between (verify genuine c.decision c.intent_id c.now v).1 in
      ((r : Refusal) × ((verify genuine again.decision again.intent_id again.now later).0 ≡ some r))
      × ((verify genuine again.decision again.intent_id again.now later).1 ≡ later)
verify_once genuine c again between v h le =
    let (genuine_sig, same, fresh, newer, approving, positive, last) =
      verify_needs genuine c.decision c.intent_id c.now v h in
    let next = (verify genuine c.decision c.intent_id c.now v).1 in
    old_refused genuine again.decision again.intent_id again.now (verify_all genuine between next)
      (omega (arith, last, verify_all_rises genuine between next))
