-- ===== src/Risk/Work/Bounds.antt =====
-- How a cap changes the size: it rejects, keeps a size within the limit, or sets a smaller size that
-- is within the limit and no less than the smallest one.
use kometa.Prelude.{
  ◌≡◌, refl, sym, inl, inr, true, false, ok, ◌>>=◌, >>=-eq-ok, ok-injective, ◌∙◌, Bool-cases, arith,
}
use mathlib.Core.Path.{subst}
use kometa.Core.Broker.{division_by_zero}
use kometa.Decimal.{Decimal, dec_zero, ◌≤ℚ◌, ◌<ℚ◌, ◌*ℚ◌, leb_ℚ, ltb_ℚ, max_ℚ, div_ℚ, floor_ℚ}
use kometa.Decimal.Order.{leb→≤ℚ, leb-false, ltb-false, <ℚ_trans_≤ℚ}
use kometa.Decimal.Floor.{floor_ℚ-le, mul_ℚ-le_of_le-div}
use kometa.Risk.Exposure.{floor_step}
use kometa.Risk.Work.{Work, Why, cap, capped_to, reject}

-- Rounding down to a positive step does not pass the size.
pub floor_step-le :
    (x step : Decimal) {y : Decimal} → dec_zero <ℚ step → floor_step x step ≡ ok y → y ≤ℚ x
unfolding floor_step
floor_step-le x step {y} pos h =
    let (q, eq, done) = >>=-eq-ok (div_ℚ division_by_zero x step) (λ q. ok (floor_ℚ q *ℚ step)) h in
    subst (λ r. r ≤ℚ x) (ok-injective done)
      (mul_ℚ-le_of_le-div division_by_zero x step (floor_ℚ q) q pos eq (floor_ℚ-le q))

-- The size `w` has become `w'` under the limit `l`, for the smallest size `m`.
pub data Capped (l m : Decimal) (w w' : Work) : Type 0 where
  rejects : w'.rejected ≡ true → Capped l m w w'
  keeps : w' ≡ w → w.lots ≤ℚ l → Capped l m w w'
  lowers : w.rejected ≡ false → l <ℚ w.lots → w'.lots ≤ℚ l → m ≤ℚ w'.lots → Capped l m w w'

-- A size that is no less than a positive one and at most max(l, 0) is at most l.
max_pos : (l m c : Decimal) → dec_zero <ℚ m → m ≤ℚ c → c ≤ℚ max_ℚ l dec_zero → c ≤ℚ l
unfolding max_ℚ
max_pos l m c pos mc h = elim (Bool-cases (ltb_ℚ l dec_zero)) [
  | inl neg ↦
      let zero : c ≤ℚ dec_zero = rw neg at h in
      absurd (omega (arith, <ℚ_trans_≤ℚ dec_zero m c pos mc))
  | inr ok_l ↦ rw ok_l at h
]

module _ (step min_lot : Decimal) (step_pos : dec_zero <ℚ step)
    (min_pos : dec_zero <ℚ min_lot) where
  capped_to-Capped :
      (l c : Decimal) (why : Why) (w : Work)
      → w.rejected ≡ false
      → l <ℚ w.lots
      → c ≤ℚ max_ℚ l dec_zero
      → Capped l min_lot w (capped_to c why min_lot w)
  unfolding capped_to reject
  capped_to-Capped l c why w live over h = elim (Bool-cases (ltb_ℚ c min_lot)) [
    | inl small ↦ rw small (rejects refl)
    | inr fits ↦ rw fits (
        lowers live over (max_pos l min_lot c min_pos (ltb-false c min_lot fits) h)
          (ltb-false c min_lot fits))
  ]

  cap_same :
      (l : Decimal) (why : Why) (w : Work) → w.rejected ≡ true → cap l why step min_lot w ≡ ok w
  unfolding cap
  cap_same l why w done = ground arith

  cap_within :
      (l : Decimal) (why : Why) (w : Work) → leb_ℚ w.lots l ≡ true → cap l why step min_lot w ≡ ok w
  unfolding cap
  cap_within l why w h = ground arith

  cap_over :
      (l : Decimal) (why : Why) (w : Work)
      → w.rejected ≡ false
      → leb_ℚ w.lots l ≡ false
      → cap l why step min_lot w
        ≡ (floor_step (max_ℚ l dec_zero) step >>= λ c. ok (capped_to c why min_lot w))
  unfolding cap
  cap_over l why w live h = rw (live, h)

  -- A cap that does not fail rejects, keeps or lowers the size.
  pub cap-Capped :
      (l : Decimal) (why : Why) (w : Work) {w' : Work}
      → cap l why step min_lot w ≡ ok w'
      → Capped l min_lot w w'
  cap-Capped l why w h = elim (Bool-cases w.rejected) [
    | inl done ↦
        rejects
          (subst (λ v. v.rejected ≡ true) (ok-injective (sym (cap_same l why w done) ∙ h)) done)
    | inr live ↦ elim (Bool-cases (leb_ℚ w.lots l)) [
      | inl within ↦
          keeps (ok-injective (sym h ∙ cap_within l why w within)) (leb→≤ℚ w.lots l within)
      | inr over ↦
          let (c, eq, done) =
            >>=-eq-ok (floor_step (max_ℚ l dec_zero) step) (λ c. ok (capped_to c why min_lot w))
              (sym (cap_over l why w live over) ∙ h) in
          subst (Capped l min_lot w) (ok-injective done) (
            capped_to-Capped l c why w live (leb-false w.lots l over)
              (floor_step-le (max_ℚ l dec_zero) step step_pos eq))
    ]
  ]
