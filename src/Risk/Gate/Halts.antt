-- ===== src/Risk/Gate/Halts.antt =====
-- The life of a gate: its operations in any order, the halts, the resume tokens, the sequence
-- numbers and the saved state.
use kometa.Prelude.{
  ◌+◌, ◌≤◌, ◌≡◌, refl, ◌∙◌, ap, ◌⊎◌, inl, inr, Bool, true, false, ◌&&◌, not, String, Option, some,
  List, [], ◌∷◌, Result, ok, err, ◌>>=◌, Bool-cases, leb, arith, string_eq, if◌then◌else◌,
}
use mathlib.Core.Path.{subst}
use kometa.Core.Time.{Datetime}
use kometa.Core.Broker.{DataError}
use kometa.Core.Models.{
  HaltState, halt_eq, daily_halt, weekly_halt, recon_halt, full_halt, OrderIntent, HaltCommand,
}
use kometa.Decimal.{Decimal}
use kometa.Risk.State.{severity, escalate}
use kometa.Risk.Exposure.{Snapshot}
use kometa.Risk.Work.{Reason, Work}
use kometa.Risk.Gate.{
  Gate, GateEnv, decide, reject_intent, finish, assess, enter, on_account, loss_fraction, halt_for,
  exceeds, roll_day, enter_recon_halt, enter_full_halt, clear_recon_halt, Token, resume,
}

-- The calls that a gate can get.
pub data Op : Type 0 where
  deciding : OrderIntent → Snapshot → Op
  rejecting : OrderIntent → Reason → Datetime → Op
  account : Decimal → Datetime → Op
  rollover : Decimal → Bool → Op
  recon full : String → Datetime → Op
  clear_recon : Op
  resuming : Token → Datetime → Op

abbrev pub after : {A : Type 0} → Gate → Result DataError (Gate × A) → Gate
after g (ok (g', a)) = g'
after g (err e) = g

-- A call's effect on the gate; one that raises has none.
unfoldable pub apply : GateEnv → Op → Gate → Gate
apply k (deciding intent snap) g = after g (decide k intent snap g)
apply k (rejecting intent why now) g = (reject_intent k intent why now g).0
apply k (account equity now) g = after g (on_account equity now g)
apply k (rollover equity week) g = roll_day equity week g
apply k (recon reason now) g = (enter_recon_halt reason now g).0
apply k (full reason now) g = (enter_full_halt reason now g).0
apply k clear_recon g = (clear_recon_halt g).0
apply k (resuming t now) g = (resume t now g).0

unfoldable pub run : GateEnv → List Op → Gate → Gate
run k [] g = g
run k (op ∷ ops) g = run k ops (apply k op g)

abbrev pub is_resuming : Op → Bool
is_resuming (resuming t now) = true
is_resuming _ = false

abbrev pub no_resuming : List Op → Bool
no_resuming [] = true
no_resuming (op ∷ ops) = not (is_resuming op) && no_resuming ops

split_no_resuming :
    (op : Op) (ops : List Op)
    → no_resuming (op ∷ ops) ≡ true
    → (is_resuming op ≡ false) × (no_resuming ops ≡ true)
split_no_resuming op ops h = ground arith

-- What a change of the halt by the gate itself leaves: no less severe a halt, the same nonces,
-- sequence and decisions, and a saved state.
pub record Worse (g g' : Gate) : Type 0 where
  pub harder : severity g.state.halt ≤ severity g'.state.halt
  pub same_nonces : g'.state.used_nonces ≡ g.state.used_nonces
  pub same_sequence : g'.state.sequence ≡ g.state.sequence
  pub same_decisions : g'.announced ≡ g.announced
  pub same_lim : g'.lim ≡ g.lim
  pub stored : (g' ≡ g) ⊎ (g'.saved ≡ some g'.state)

Worse-refl : (g : Gate) → Worse g g
Worse-refl g = record {
  harder = omega arith;
  same_nonces = refl;
  same_sequence = refl;
  same_decisions = refl;
  same_lim = refl;
  stored = inl refl;
}

pub enter-Worse :
    (new : HaltState) (reason : String) (now : Datetime) (g : Gate)
    → Worse g (enter new reason now g).0
unfolding enter escalate
enter-Worse new reason now g = elim (Bool-cases (leb (severity new) (severity g.state.halt))) [
  | inl e ↦ rw e (Worse-refl g)
  | inr e ↦ rw e (record {
    harder = ground arith;
    same_nonces = refl;
    same_sequence = refl;
    same_decisions = refl;
    same_lim = refl;
    stored = inr refl;
  })
]

-- A step that may raise keeps what holds of the gate, and what holds of the gate of its result.
pub after_bind :
    {A B : Type 0} (P : Gate → Type 0) (g : Gate) (m : Result DataError A)
    (f : A → Result DataError (Gate × B))
    → P g
    → ((a : A) → P (after g (f a)))
    → P (after g (m >>= f))
after_bind P g (ok a) f h k = k a
after_bind P g (err e) f h k = h

pub if_holds :
    {A : Type 0} (P : A → Type 0) (b : Bool) (x y : A) → P x → P y → P (if b then x else y)
if_holds P true x y p q = p
if_holds P false x y p q = q

halt_for-Worse :
    (now : Datetime) (g : Gate) (peak week day : Option Decimal)
    → Worse g (halt_for now g peak week day).0
unfolding halt_for
halt_for-Worse now g peak week day =
    let P = λ (r : Gate × Option (HaltCommand String)). Worse g r.0 in
    if_holds P (exceeds peak g.lim.peak_drawdown_full_halt) _ _ (enter-Worse full_halt _ now g) (
      if_holds P (exceeds week g.lim.weekly_loss_halt) _ _ (enter-Worse weekly_halt _ now g) (
        if_holds P (exceeds day g.lim.daily_loss_halt) _ _ (enter-Worse daily_halt _ now g)
          (Worse-refl g)))

pub on_account-Worse :
    (equity : Decimal) (now : Datetime) (g : Gate) → Worse g (after g (on_account equity now g))
unfolding on_account
on_account-Worse equity now g =
    let day_step : Option Decimal
        → Option Decimal
        → Option Decimal
        → Result DataError (Gate × Option (HaltCommand String)) =
      λ peak week day. ok (halt_for now g peak week day) in
    let week_step = λ (peak week : Option Decimal).
      loss_fraction g.state.day_ref_equity equity >>= day_step peak week in
    after_bind (Worse g) g (loss_fraction g.state.peak_eod_equity equity)
      (λ peak. loss_fraction g.state.week_ref_equity equity >>= week_step peak) (Worse-refl g)
      λ peak.
        after_bind (Worse g) g (loss_fraction g.state.week_ref_equity equity) (week_step peak)
          (Worse-refl g)
          λ week.
            after_bind (Worse g) g (loss_fraction g.state.day_ref_equity equity)
              (day_step peak week) (Worse-refl g) λ day. halt_for-Worse now g peak week day

-- What a decision leaves: the halt and the nonces, and one more decision with the next number.
pub record Decides (g g' : Gate) : Type 0 where
  pub same_halt : g'.state.halt ≡ g.state.halt
  pub same_nonces : g'.state.used_nonces ≡ g.state.used_nonces
  pub next : g'.state.sequence ≡ g.state.sequence + 1
  pub stored : g'.saved ≡ some g'.state

pub finish-Decides :
    (k : GateEnv) (intent : OrderIntent) (w : Work) (now : Datetime) (g : Gate)
    → Decides g (finish k intent w now g).0
unfolding finish
finish-Decides k intent w now g = record {
  same_halt = refl;
  same_nonces = refl;
  next = refl;
  stored = refl;
}

-- `decide` raises and changes nothing, or decides.
pub decide-Decides :
    (k : GateEnv) (intent : OrderIntent) (snap : Snapshot) (g : Gate)
    → (after g (decide k intent snap g) ≡ g) ⊎ Decides g (after g (decide k intent snap g))
unfolding decide
decide-Decides k intent snap g =
    after_bind (λ x. (x ≡ g) ⊎ Decides g x) g (assess k g intent snap) _ (inl refl)
      (λ w. inr (finish-Decides k intent w snap.now g))

most_severe : (h : HaltState) → severity full_halt ≤ severity h → h ≡ full_halt
most_severe h e = ground arith

Worse-full : (g g' : Gate) → Worse g g' → g.state.halt ≡ full_halt → g'.state.halt ≡ full_halt
Worse-full g g' w h =
    most_severe g'.state.halt (subst (λ x. severity x ≤ severity g'.state.halt) h w.harder)

apply_full_halt :
    (k : GateEnv) (op : Op) (g : Gate)
    → is_resuming op ≡ false
    → g.state.halt ≡ full_halt
    → (apply k op g).state.halt ≡ full_halt
unfolding apply
apply_full_halt k (deciding intent snap) g n h = elim (decide-Decides k intent snap g) [
  | inl e ↦ ap (λ x. x.state.halt) e ∙ h
  | inr e ↦ e.same_halt ∙ h
]
apply_full_halt k (rejecting intent why now) g n h = unfold reject_intent finish in h
apply_full_halt k (account equity now) g n h = Worse-full g _ (on_account-Worse equity now g) h
apply_full_halt k (rollover equity week) g n h = unfold roll_day in ground arith
apply_full_halt k (recon reason now) g n h =
    unfold enter_recon_halt in Worse-full g _ (enter-Worse recon_halt reason now g) h
apply_full_halt k (full reason now) g n h =
    unfold enter_full_halt in Worse-full g _ (enter-Worse full_halt reason now g) h
apply_full_halt k clear_recon g n h = unfold clear_recon_halt in ground arith
apply_full_halt k (resuming t now) g n h = cc

-- A full halt stays through any calls but the owner's resume: no account update, rollover, decision
-- or reconciliation clears it.
pub run_full_halt :
    (k : GateEnv) (ops : List Op) (g : Gate)
    → no_resuming ops ≡ true
    → g.state.halt ≡ full_halt
    → (run k ops g).state.halt ≡ full_halt
unfolding run
run_full_halt k [] g n h = h
run_full_halt k (op ∷ ops) g n h =
    let (first, rest) = split_no_resuming op ops n in
    run_full_halt k ops (apply k op g) rest (apply_full_halt k op g first h)
