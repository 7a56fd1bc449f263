-- ===== src/Risk/Gate/Reduces.antt =====
-- The size of a decision against the proposed one, and against what the checks have left.
use kometa.Prelude.{
  ◌≡◌, ◌≢◌, refl, sym, ap, Bool, true, false, ok, >>=-eq-ok, ok-injective, Bool-cases, inl, inr,
  arith, if◌then◌else◌, string_eq,
}
use kometa.Core.Models.{OrderIntent, Verdict}
use kometa.Decimal.{Decimal, dec_zero, ◌≤ℚ◌, ◌<ℚ◌, leb_ℚ, min_ℚ}
use kometa.Decimal.Order.{≤ℚ_refl, min_ℚ-le_left, min_ℚ-le_right, leb-false, <ℚ_≤ℚ}
use kometa.Risk.Exposure.{Snapshot}
use kometa.Risk.Work.{Work}
use kometa.Risk.Gate.{
  Gate, GateEnv, Decision, final_lots, verdict_of, decision_of, finish, assess, decide,
}

-- The size is between nothing and the proposal.
pub final_lots_bounds :
    (p : Decimal) (w : Work) → dec_zero ≤ℚ p → (dec_zero ≤ℚ final_lots p w) × (final_lots p w ≤ℚ p)
unfolding final_lots
final_lots_bounds p w h = elim (Bool-cases (leb_ℚ raw dec_zero)) [
  | inl none ↦ rw none (≤ℚ_refl dec_zero, h)
  | inr some_left ↦
      rw some_left (<ℚ_≤ℚ dec_zero raw (leb-false raw dec_zero some_left), raw_le w.rejected)
]
  where
    raw : Decimal
    raw = if w.rejected then dec_zero else min_ℚ w.lots p

    raw_le : (b : Bool) → (if b then dec_zero else min_ℚ w.lots p) ≤ℚ p
    raw_le true = h
    raw_le false = min_ℚ-le_right w.lots p

abbrev reduced : Bool → Decimal → Decimal → Decimal
reduced b l p =
    let lots = if b then dec_zero else min_ℚ l p in if leb_ℚ lots dec_zero then dec_zero else lots

reduced_pos :
    (b : Bool) (l p : Decimal)
    → dec_zero <ℚ reduced b l p
    → (b ≡ false) × (reduced b l p ≤ℚ l) × (reduced b l p ≡ min_ℚ l p)
reduced_pos true l p h = absurd (zero_pos h)
  where
    zero_pos : dec_zero <ℚ (if leb_ℚ dec_zero dec_zero then dec_zero else dec_zero) → ⊥
    zero_pos h = elim (Bool-cases (leb_ℚ dec_zero dec_zero)) [
      | inl e ↦ absurd (omega (arith, rw e at h))
      | inr e ↦ absurd (omega (arith, rw e at h))
    ]
reduced_pos false l p h = elim (Bool-cases (leb_ℚ (min_ℚ l p) dec_zero)) [
  | inl e ↦ absurd (omega (arith, rw e at h))
  | inr e ↦ rw e (refl, min_ℚ-le_left l p, refl)
]

-- A verdict other than reject is about a size that the checks did not reject; what is approved is
-- positive and at most what they left.
pub verdict_of_allowed :
    (p : Decimal) (w : Work)
    → verdict_of p (final_lots p w) ≢ Verdict.reject
    → (w.rejected ≡ false)
      × (dec_zero <ℚ final_lots p w)
      × (final_lots p w ≤ℚ w.lots)
      × (final_lots p w ≡ min_ℚ w.lots p)
unfolding verdict_of final_lots
verdict_of_allowed p w h = elim (Bool-cases (leb_ℚ (reduced w.rejected w.lots p) dec_zero)) [
  | inl none ↦ absurd (h (rw none))
  | inr left ↦
      let pos = leb-false (reduced w.rejected w.lots p) dec_zero left in
      let (live, le, same) = reduced_pos w.rejected w.lots p pos in (live, pos, le, same)
]

-- `decide` returns the decision of `_finish` about the size that the checks left.
pub decide_inversion :
    (k : GateEnv) (intent : OrderIntent) (snap : Snapshot) (g : Gate) {g' : Gate} {d : Decision}
    → decide k intent snap g ≡ ok (g', d)
    → (w : Work) × (assess k g intent snap ≡ ok w) × (finish k intent w snap.now g ≡ (g', d))
unfolding decide
decide_inversion k intent snap g h =
    let (w, e, last) = >>=-eq-ok (assess k g intent snap) _ h in (w, e, ok-injective last)

-- The decision's size and verdict.
pub finish_fields :
    (k : GateEnv) (intent : OrderIntent) (w : Work) (now : _) (g : Gate) {g' : Gate} {d : Decision}
    → finish k intent w now g ≡ (g', d)
    → (d.approved_lots ≡ final_lots intent.proposed_lots w)
      × (d.verdict ≡ verdict_of intent.proposed_lots (final_lots intent.proposed_lots w))
unfolding finish decision_of
finish_fields k intent w now g h =
    (ap (λ r. r.1.approved_lots) (sym h), ap (λ r. r.1.verdict) (sym h))

-- The gate never increases a size: of a proposal that is not negative it approves a size between
-- nothing and what was proposed.
pub decide-le-proposed :
    (k : GateEnv) (intent : OrderIntent) (snap : Snapshot) (g : Gate) {g' : Gate} {d : Decision}
    → dec_zero ≤ℚ intent.proposed_lots
    → decide k intent snap g ≡ ok (g', d)
    → (dec_zero ≤ℚ d.approved_lots) × (d.approved_lots ≤ℚ intent.proposed_lots)
decide-le-proposed k intent snap g {d = d} h decided =
    let (w, e, f) = decide_inversion k intent snap g decided in
    let (lots, v) = finish_fields k intent w snap.now g f in
    rw lots (final_lots_bounds intent.proposed_lots w h)
