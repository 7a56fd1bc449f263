-- ===== src/Risk/Gate/Resume.antt =====
-- The owner's resume tokens: what a token needs, and a token that is used again.
use kometa.Prelude.{
  ◌==◌, ◌≤◌, ◌≡◌, sym, ap, inl, inr, true, false, String, Option, none, some, List, [], ◌∷◌, ◌++◌,
  contains, arith, string_eq, beq_refl, Result, ok, err, refl, ◌∙◌, ◌⊎◌, Bool, not,
}
use mathlib.Core.Path.{subst}
use kometa.Core.Time.{Datetime}
use kometa.Core.Models.{halt_eq, halt_beq_eq, normal, full_halt}
use kometa.Risk.Gate.{
  Gate, GateEnv, resume, redeem, spend, Token, TokenError, reject_intent, finish, roll_day,
  enter_recon_halt, enter_full_halt, clear_recon_halt,
}
use kometa.Risk.Gate.Halts.{
  Op, deciding, rejecting, account, rollover, recon, full, clear_recon, resuming, apply, run,
  enter-Worse, on_account-Worse, decide-Decides, if_holds,
}

contains-append :
    (a b : String) (xs : List String) → contains a xs ≡ true → contains a (xs ++ b ∷ []) ≡ true
contains-append a b [] h = cc
contains-append a b (x ∷ xs) h = ground (arith, contains-append a b xs)

contains-append_self : (a : String) (xs : List String) → contains a (xs ++ a ∷ []) ≡ true
contains-append_self a [] = ground (arith, beq_refl a)
contains-append_self a (x ∷ xs) = ground (arith, contains-append_self a xs)

abbrev text_of : Option String → String
text_of none = ""
text_of (some a) = a

-- An owner's token that is redeemed has not expired, and its nonce is unused and then spent.
redeem_needs :
    (expires_at : Result TokenError Datetime) (nonce : Option String) (now : Datetime) (g : Gate)
    → (redeem expires_at nonce now g).1 ≡ ok true
    → ((e : Datetime) × (expires_at ≡ ok e) × (now ≤ e))
      × ((n : String) × (nonce ≡ some n)
          × (contains n g.state.used_nonces ≡ false)
          × ((redeem expires_at nonce now g).0.state.halt ≡ normal)
          × (contains n (redeem expires_at nonce now g).0.state.used_nonces ≡ true))
unfolding redeem spend
redeem_needs (err e) key now g h = ground arith
redeem_needs (ok e) none now g h = ground arith
redeem_needs (ok e) (some n) now g h =
    let kept : (now ≤ e)
        × (contains n g.state.used_nonces ≡ false)
        × ((redeem (ok e) (some n) now g).0.state.halt ≡ normal)
        × (contains n (redeem (ok e) (some n) now g).0.state.used_nonces ≡ true) =
      ground (arith, contains-append_self n g.state.used_nonces) in
    let (le, fresh, halt, spent) = kept in ((e, refl, le), (n, refl, fresh, halt, spent))

resume_redeems :
    (t : Token) (now : Datetime) (g : Gate)
    → (resume t now g).1 ≡ ok true
    → (g.state.halt ≡ full_halt)
      × (t.action ≡ some "resume_full_halt")
      × (t.genuine ≡ true)
      × (resume t now g ≡ redeem t.expires_at t.nonce now g)
unfolding resume
resume_redeems t now g h = ground (
  arith,
  halt_beq_eq g.state.halt full_halt,
  string_eq.beq_iff (text_of t.action) "resume_full_halt",
)

-- A resume is accepted only in a full halt, for an owner-signed resume token whose expiry date can be
-- read and has not passed and whose nonce is there and unused; then the halt is cleared and the nonce
-- is spent.
pub resume_needs :
    (t : Token) (now : Datetime) (g : Gate)
    → (resume t now g).1 ≡ ok true
    → (g.state.halt ≡ full_halt)
      × (t.action ≡ some "resume_full_halt")
      × (t.genuine ≡ true)
      × ((e : Datetime) × (t.expires_at ≡ ok e) × (now ≤ e))
      × ((n : String) × (t.nonce ≡ some n)
          × (contains n g.state.used_nonces ≡ false)
          × ((resume t now g).0.state.halt ≡ normal)
          × (contains n (resume t now g).0.state.used_nonces ≡ true))
resume_needs t now g h =
    let (halted, action, signed, e) = resume_redeems t now g h in
    let (fresh, (n, nonce, unused, halt, spent)) =
      redeem_needs t.expires_at t.nonce now g (sym (ap (λ x. x.1) e) ∙ h) in
    (
      halted,
      action,
      signed,
      fresh,
      (
        n,
        nonce,
        unused,
        ap (λ x. x.0.state.halt) e ∙ halt,
        subst (λ x. contains n x.0.state.used_nonces ≡ true) (sym e) spent,
      ),
    )

abbrev Spent : String → Gate → Type 0
Spent nonce g = contains nonce g.state.used_nonces ≡ true

same_Spent :
    (nonce : String) (g g' : Gate)
    → g'.state.used_nonces ≡ g.state.used_nonces
    → Spent nonce g
    → Spent nonce g'
same_Spent nonce g g' e h = subst (λ xs. contains nonce xs ≡ true) (sym e) h

redeem-Spent :
    (nonce : String) (expires_at : Result TokenError Datetime) (other : Option String)
    (now : Datetime) (g : Gate)
    → Spent nonce g
    → Spent nonce (redeem expires_at other now g).0
unfolding redeem spend
redeem-Spent key (err e) other now g h = h
redeem-Spent key (ok e) none now g h = ground arith
redeem-Spent key (ok e) (some n) now g h = ground (arith, contains-append key n g.state.used_nonces)

resume-Spent :
    (nonce : String) (t : Token) (now : Datetime) (g : Gate)
    → Spent nonce g
    → Spent nonce (resume t now g).0
unfolding resume
resume-Spent nonce t now g h = ground (arith, redeem-Spent nonce t.expires_at t.nonce now g h)

apply-Spent :
    (k : GateEnv) (nonce : String) (op : Op) (g : Gate) → Spent nonce g → Spent nonce (apply k op g)
unfolding apply enter_recon_halt enter_full_halt
apply-Spent k nonce (deciding intent snap) g h = elim (decide-Decides k intent snap g) [
  | inl e ↦
      same_Spent nonce g (apply k (deciding intent snap) g) (ap (λ x. x.state.used_nonces) e) h
  | inr e ↦ same_Spent nonce g (apply k (deciding intent snap) g) e.same_nonces h
]
apply-Spent k nonce (rejecting intent why now) g h = unfold reject_intent finish in h
apply-Spent k nonce (account equity now) g h =
    same_Spent nonce g (apply k (account equity now) g) (on_account-Worse equity now g).same_nonces
      h
apply-Spent k nonce (rollover equity week) g h = unfold roll_day in ground arith
apply-Spent k nonce (recon reason now) g h =
    same_Spent nonce g (apply k (recon reason now) g) (enter-Worse _ reason now g).same_nonces h
apply-Spent k nonce (full reason now) g h =
    same_Spent nonce g (apply k (full reason now) g) (enter-Worse _ reason now g).same_nonces h
apply-Spent k nonce clear_recon g h = unfold clear_recon_halt in ground arith
apply-Spent k nonce (resuming t now) g h = resume-Spent nonce t now g h

run-Spent :
    (k : GateEnv) (nonce : String) (ops : List Op) (g : Gate)
    → Spent nonce g
    → Spent nonce (run k ops g)
unfolding run
run-Spent k nonce [] g h = h
run-Spent k nonce (op ∷ ops) g h = run-Spent k nonce ops (apply k op g) (apply-Spent k nonce op g h)

-- A token that is not accepted: `false` or an error, and the gate as it was.
abbrev pub IsRefused : Token → Datetime → Gate → Type 0
IsRefused t now g =
    ((resume t now g).0 ≡ g)
    × (((resume t now g).1 ≡ ok false) ⊎ ((e : TokenError) × ((resume t now g).1 ≡ err e)))

redeem-refused :
    (expires_at : Result TokenError Datetime) (n : String) (now : Datetime) (g : Gate)
    → Spent n g
    → ((redeem expires_at (some n) now g).0 ≡ g)
      × (((redeem expires_at (some n) now g).1 ≡ ok false)
          ⊎ ((e : TokenError) × ((redeem expires_at (some n) now g).1 ≡ err e)))
unfolding redeem spend
redeem-refused (err e) n now g h = (refl, inr (e, refl))
redeem-refused (ok e) n now g h = ground arith

Spent-IsRefused :
    (n : String) (t : Token) (now : Datetime) (g : Gate)
    → t.nonce ≡ some n
    → Spent n g
    → IsRefused t now g
unfolding resume
Spent-IsRefused n t now g e h =
    let P = λ (x : Gate × Result TokenError Bool).
      (x.0 ≡ g) × ((x.1 ≡ ok false) ⊎ ((e : TokenError) × (x.1 ≡ err e))) in
    let no : P (g, ok false) = (refl, inl refl) in
    if_holds P (not (g.state.halt == full_halt)) _ _ no (
      if_holds P (not (elim t.action [ none ↦ false | some a ↦ a == "resume_full_halt" ])) _ _ no (
        if_holds P (not t.genuine) _ _ no (
          subst (λ x. P (redeem t.expires_at x now g)) (sym e)
            (redeem-refused t.expires_at n now g h))))

-- A resume token works at most once: after an accepted resume, whatever calls follow, a token with
-- the same nonce is refused at any later time, by `false` or by an error, and changes nothing.
pub resume_once :
    (k : GateEnv) (t u : Token) (now later : Datetime) (ops : List Op) (g : Gate)
    → (resume t now g).1 ≡ ok true
    → u.nonce ≡ t.nonce
    → IsRefused u later (run k ops (resume t now g).0)
resume_once k t u now later ops g h same =
    let (a, b, c, d, (n, e, fresh, halt, spent)) = resume_needs t now g h in
    Spent-IsRefused n u later (run k ops (resume t now g).0) (same ∙ e)
      (run-Spent k n ops (resume t now g).0 spent)
