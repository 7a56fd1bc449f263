-- ===== src/Risk/Gate/History.antt =====
-- What a history of calls leaves: the saved states and the announced decisions.
use kometa.Prelude.{
  ℕ, ◌+◌, ◌≤◌, ◌<◌, ◌≡◌, refl, sym, ◌⊎◌, inl, inr, String, Bool, false, Option, Result, ok, err,
  none, some, List, [], ◌∷◌, ◌++◌, not, ltb, contains, ◌==◌, string_eq, arith,
}
use mathlib.Core.Path.{subst}
use kometa.Core.Time.{Datetime}
use kometa.Core.Models.{halt_eq, OrderIntent, recon_halt, full_halt}
use kometa.Decimal.{Decimal}
use kometa.Risk.State.{RiskState}
use kometa.Risk.Work.{Work}
use kometa.Risk.Gate.{
  Gate, GateEnv, Decision, decision_of, decide, assess, reject_intent, finish, roll_day,
  enter_recon_halt, enter_full_halt, clear_recon_halt, resume, redeem, spend, Token, TokenError,
  store,
}
use kometa.Risk.Gate.Halts.{
  Op, deciding, rejecting, account, rollover, recon, full, clear_recon, resuming, apply, run, Worse,
  enter-Worse, on_account-Worse, after_bind, if_holds,
}

-- The numbers of the decisions, the newest last, strictly increase and end at the state's sequence.
abbrev pub Ascending : ℕ → List (Decision × OrderIntent) → ℕ → Type 0
Ascending low [] high = low ≤ high
Ascending low ((d, intent) ∷ rest) high = (low < d.sequence) × Ascending d.sequence rest high

Ascending-append :
    (low high : ℕ) (xs : List (Decision × OrderIntent)) (d : Decision) (intent : OrderIntent)
    → Ascending low xs high
    → d.sequence ≡ high + 1
    → Ascending low (xs ++ (d, intent) ∷ []) (high + 1)
Ascending-append low high [] d intent h e = omega arith
Ascending-append low high ((x, i) ∷ xs) d intent h e =
    (h.0, Ascending-append x.sequence high xs d intent h.1 e)

-- The saved state is the state, unless nothing has been saved since `g0`.
pub record IsRecorded (g0 g : Gate) : Type 0 where
  pub numbered : Ascending 0 g.announced g.state.sequence
  pub kept : (g.saved ≡ some g.state) ⊎ ((g.saved ≡ g0.saved) × (g.state ≡ g0.state))

Worse-IsRecorded : (g0 g g' : Gate) → Worse g g' → IsRecorded g0 g → IsRecorded g0 g'
Worse-IsRecorded g0 g g' w r = record {
  numbered =
      subst (λ n. Ascending 0 g'.announced n) (sym w.same_sequence)
        (subst (λ xs. Ascending 0 xs g.state.sequence) (sym w.same_decisions) r.numbered);
  kept = elim w.stored [
    | inl e ↦
        subst (λ x. (x.saved ≡ some x.state) ⊎ ((x.saved ≡ g0.saved) × (x.state ≡ g0.state)))
          (sym e) r.kept
    | inr e ↦ inl e
  ];
}

-- A change of the state that is saved, and that decides nothing.
store-IsRecorded :
    (g0 g : Gate) (s : RiskState)
    → s.sequence ≡ g.state.sequence
    → IsRecorded g0 g
    → IsRecorded g0 (store s g)
store-IsRecorded g0 g s e r = record {
  numbered = subst (λ n. Ascending 0 g.announced n) (sym e) r.numbered;
  kept = inl refl;
}

roll_day-IsRecorded :
    (equity : Decimal) (week : Bool) (g0 g : Gate)
    → IsRecorded g0 g
    → IsRecorded g0 (roll_day equity week g)
unfolding roll_day
roll_day-IsRecorded equity week g0 g r = store-IsRecorded g0 g _ (ground arith) r

clear_recon-IsRecorded : (g0 g : Gate) → IsRecorded g0 g → IsRecorded g0 (clear_recon_halt g).0
unfolding clear_recon_halt
clear_recon-IsRecorded g0 g r =
    if_holds (λ (x : Gate × Bool). IsRecorded g0 x.0) (g.state.halt == recon_halt) _ _
      (store-IsRecorded g0 g _ refl r) r

redeem-IsRecorded :
    (expires_at : Result TokenError Datetime) (nonce : Option String) (now : Datetime) (g0 g : Gate)
    → IsRecorded g0 g
    → IsRecorded g0 (redeem expires_at nonce now g).0
unfolding redeem spend
redeem-IsRecorded (err e) key now g0 g r = r
redeem-IsRecorded (ok e) none now g0 g r =
    if_holds (λ (x : Gate × Result TokenError Bool). IsRecorded g0 x.0) (ltb e now) _ _ r r
redeem-IsRecorded (ok e) (some n) now g0 g r =
    let P = λ (x : Gate × Result TokenError Bool). IsRecorded g0 x.0 in
    if_holds P (ltb e now) _ _ r
      (if_holds P (contains n g.state.used_nonces) _ _ r (store-IsRecorded g0 g _ refl r))

resume-IsRecorded :
    (t : Token) (now : Datetime) (g0 g : Gate) → IsRecorded g0 g → IsRecorded g0 (resume t now g).0
unfolding resume
resume-IsRecorded t now g0 g r =
    let P = λ (x : Gate × Result TokenError Bool). IsRecorded g0 x.0 in
    if_holds P (not (g.state.halt == full_halt)) _ _ r (
      if_holds P (not (elim t.action [ none ↦ false | some a ↦ a == "resume_full_halt" ])) _ _ r
        (if_holds P (not t.genuine) _ _ r (redeem-IsRecorded t.expires_at t.nonce now g0 g r)))

finish-IsRecorded :
    (k : GateEnv) (intent : OrderIntent) (w : Work) (now : Datetime) (g0 g : Gate)
    → IsRecorded g0 g
    → IsRecorded g0 (finish k intent w now g).0
unfolding finish decision_of
finish-IsRecorded k intent w now g0 g r = record {
  numbered = Ascending-append 0 g.state.sequence g.announced _ intent r.numbered refl;
  kept = inl refl;
}

apply-IsRecorded :
    (k : GateEnv) (op : Op) (g0 g : Gate) → IsRecorded g0 g → IsRecorded g0 (apply k op g)
unfolding apply decide reject_intent enter_recon_halt enter_full_halt
apply-IsRecorded k (deciding intent snap) g0 g r =
    after_bind (IsRecorded g0) g (assess k g intent snap) _ r
      (λ w. finish-IsRecorded k intent w snap.now g0 g r)
apply-IsRecorded k (rejecting intent why now) g0 g r = finish-IsRecorded k intent _ now g0 g r
apply-IsRecorded k (account equity now) g0 g r =
    Worse-IsRecorded g0 g _ (on_account-Worse equity now g) r
apply-IsRecorded k (rollover equity week) g0 g r = roll_day-IsRecorded equity week g0 g r
apply-IsRecorded k (recon reason now) g0 g r =
    Worse-IsRecorded g0 g _ (enter-Worse _ reason now g) r
apply-IsRecorded k (full reason now) g0 g r = Worse-IsRecorded g0 g _ (enter-Worse _ reason now g) r
apply-IsRecorded k clear_recon g0 g r = clear_recon-IsRecorded g0 g r
apply-IsRecorded k (resuming t now) g0 g r = resume-IsRecorded t now g0 g r

run-IsRecorded_from :
    (k : GateEnv) (ops : List Op) (g0 g : Gate) → IsRecorded g0 g → IsRecorded g0 (run k ops g)
unfolding run
run-IsRecorded_from k [] g0 g r = r
run-IsRecorded_from k (op ∷ ops) g0 g r =
    run-IsRecorded_from k ops g0 (apply k op g) (apply-IsRecorded k op g0 g r)

-- From a gate that has announced nothing: after any calls the announced decisions, rejections
-- included, carry strictly increasing numbers up to the state's sequence, and the saved state is the
-- state, unless neither has changed.
pub run-IsRecorded :
    (k : GateEnv) (ops : List Op) (g : Gate) → g.announced ≡ [] → IsRecorded g (run k ops g)
run-IsRecorded k ops g e = run-IsRecorded_from k ops g g (record {
  numbered = subst (λ xs. Ascending 0 xs g.state.sequence) (sym e) (omega arith);
  kept = inr (refl, refl);
})
