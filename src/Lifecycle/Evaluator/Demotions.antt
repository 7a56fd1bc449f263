-- ===== src/Lifecycle/Evaluator/Demotions.antt =====
-- What a demotion does to the stage, at execution, and what the owner is told.
use kometa.Lifecycle.Registry.{changed}
use kometa.Lifecycle.Registry.Moves.{legal_for}
use kometa.Lifecycle.Evaluator.Metrics.{Metrics}
use mathlib.Core.Path.{sym, subst}
use kometa.Core.Events.{StageChanged}
use kometa.Prelude.{
  List, arith, ◌-◌, true, if◌then◌else◌, Bool, ◌≡◌, refl, false, String, Option, none, some, [],
  ◌∷◌, ◌++◌, ◌⊎◌, inl, inr,
}
use Prim.{tt}
use kometa.Core.Time.{Datetime}
use kometa.Core.Models.{Stage, candidate, shadow, micro, live, scaled, retired, demo_only, stage_eq}
use kometa.Lifecycle.Evaluator.Base.{
  ActionAlert, ◌>>=◌, Method, give, act, Action, Env, World, cancel_pending, close_positions,
  DemotionActions, demotion_action_failed, alert,
}
use kometa.Lifecycle.Evaluator.Money.{
  demoted_from, months, act_on, demote, demoted_stage, act_with, close_after, report_failure,
  leaves_money,
}
use kometa.Lifecycle.Evaluator.Outcome.{
  moved_by, bind-Ensures, tick, move-Ensures, IsAt, Moved, weaken, Ensures, give-Ensures,
  now-Ensures,
}
use kometa.Lifecycle.Ladder.{
  has_profile, evaluator, money_stage, key_of, allowed, legal, VersionState, Key,
}

-- All that execution had to do was asked of it after what was done before, and raised nothing.
abbrev pub AllDone :
    DemotionActions → Key → Stage → String → List Action → List ActionAlert → World → Type 0
AllDone d key to reason done alerts u =
    (d.raised done (cancel_pending key reason) ≡ none)
    × (u.alerts ≡ alerts)
    × (((leaves_money to ≡ false) × (u.done ≡ done ++ cancel_pending key reason ∷ []))
        ⊎ ((d.raised (done ++ cancel_pending key reason ∷ []) (close_positions key reason) ≡ none)
            × (u.done
                ≡ (done ++ cancel_pending key reason ∷ []) ++ close_positions key reason ∷ [])))

-- The owner is told what execution raised.
abbrev pub IsReported : Key → List ActionAlert → World → Type 0
IsReported key alerts u =
    (e : String) × (at : Datetime) × (u.alerts ≡ alerts ++ demotion_action_failed key e at ∷ [])

abbrev pub Acted :
    Option DemotionActions → Key → Stage → String → List Action → List ActionAlert → World → Type 0
Acted none key to reason done alerts u = (u.done ≡ done) × (u.alerts ≡ alerts)
Acted (some d) key to reason done alerts u =
    AllDone d key to reason done alerts u ⊎ IsReported key alerts u

-- What `_act` leaves of the registry, and what it did
abbrev Acts : Env → Option DemotionActions → Key → Stage → String → World → World → Type 0
Acts k o key to reason w u = (u.registry ≡ w.registry) × Acted o key to reason w.done w.alerts u

report-IsReported :
    (k : Env) (key : Key) (e : String) (w : World)
    → Ensures
        (report_failure k key (some e))
        w
        (λ a u. (u.registry ≡ w.registry) × IsReported key w.alerts u)
unfolding report_failure alert
report-IsReported k key e w =
    now-Ensures k _
      (record { value = tt; is_ok = refl; holds = (refl, (e, k.clock w.readings, refl)) })

-- after a cancel that raised nothing
close-Acts :
    (k : Env) (d : DemotionActions) (key : Key) (to : Stage) (reason : String) (w : World)
    (o : Option String)
    → d.raised (w.done ++ cancel_pending key reason ∷ []) (close_positions key reason) ≡ o
    → d.raised w.done (cancel_pending key reason) ≡ none
    → Ensures
        (report_failure k key o)
        (record w {
          done = (w.done ++ cancel_pending key reason ∷ []) ++ close_positions key reason ∷ [];
        })
        (λ a u. Acts k (some d) key to reason w u)
unfolding report_failure alert
close-Acts k d key to reason w none e c = give-Ensures tt _ (refl, inl (c, refl, inr (e, refl)))
close-Acts k d key to reason w (some x) e c =
    now-Ensures k _
      (record { value = tt; is_ok = refl; holds = (refl, inr (x, k.clock w.readings, refl)) })

abbrev after_act : Action → World → World
after_act a w = record w { done = w.done ++ a ∷ [] }

act-Ensures :
    {B : Type 0} {R : B → World → Type 0} (d : DemotionActions) (a : Action)
    (f : Option String → Method B) {w : World} (o : Option String)
    → d.raised w.done a ≡ o
    → Ensures (f o) (after_act a w) R
    → Ensures (act d a >>= f) w R
unfolding act ◌>>=◌
act-Ensures {R} d a f {w} o e h =
    subst (λ o. Ensures (f o) (after_act a w) R → Ensures (act d a >>= f) w R) e
      (λ h. record { value = h.value; is_ok = h.is_ok; holds = h.holds }) h

nothing-Ensures :
    {A B : Type 0} {R : B → World → Type 0} (a : A) (f : A → Method B) {w : World}
    → Ensures (f a) w R
    → Ensures (give a >>= f) w R
unfolding give ◌>>=◌
nothing-Ensures a f h = record { value = h.value; is_ok = h.is_ok; holds = h.holds }

close_after-Acts :
    (k : Env) (d : DemotionActions) (key : Key) (to : Stage) (reason : String) (w : World)
    (b : Bool)
    → leaves_money to ≡ b
    → d.raised w.done (cancel_pending key reason) ≡ none
    → Ensures
        ((if b then act d (close_positions key reason) else give none) >>= report_failure k key)
        (after_act (cancel_pending key reason) w)
        (λ a u. Acts k (some d) key to reason w u)
unfolding report_failure give
close_after-Acts k d key to reason w true e c =
    let next = d.raised (w.done ++ cancel_pending key reason ∷ []) (close_positions key reason) in
    act-Ensures d _ _ next refl (close-Acts k d key to reason w next refl c)
close_after-Acts k d key to reason w false e c =
    nothing-Ensures _ (report_failure k key)
      (record { value = tt; is_ok = refl; holds = (refl, inl (c, refl, inl (e, refl))) })

-- after the cancel
cancel-Acts :
    (k : Env) (d : DemotionActions) (key : Key) (to : Stage) (reason : String) (w : World)
    (o : Option String)
    → d.raised w.done (cancel_pending key reason) ≡ o
    → Ensures
        (close_after d key to reason o >>= report_failure k key)
        (after_act (cancel_pending key reason) w)
        (λ a u. Acts k (some d) key to reason w u)
unfolding close_after
cancel-Acts k d key to reason w none e =
    close_after-Acts k d key to reason w (leaves_money to) refl e
cancel-Acts k d key to reason w (some x) e = nothing-Ensures (some x) (report_failure k key) (
    weaken (report-IsReported k key x (after_act (cancel_pending key reason) w))
      (λ a u (p, q). (p, inr q)))

act_with-Acts :
    (k : Env) (o : Option DemotionActions) (key : Key) (to : Stage) (reason : String) (w : World)
    → Ensures (act_with k o key to reason) w (λ a u. Acts k o key to reason w u)
unfolding act_with
act_with-Acts k none key to reason w = give-Ensures tt w (refl, (refl, refl))
act_with-Acts k (some d) key to reason w =
    let o = d.raised w.done (cancel_pending key reason) in
    act-Ensures d _ _ o refl (cancel-Acts k d key to reason w o refl)

-- `_demote` from a money stage
pub record Demoted (k : Env) (v : VersionState) (w : World) (ev : StageChanged) (u : World)
    : Type 0 where
  pub moved : Moved v w.registry ev u.registry
  pub not_live : v.stage ≡ micro → ev.to_stage ≡ live → ⊥
  pub acted : Acted k.actions (key_of v) ev.to_stage ev.reason w.done w.alerts u

demoted_from-legal :
    (p q b : Bool) (s : Stage)
    → money_stage s ≡ true
    → legal_for p q false s (demoted_from s b) ≡ true
unfolding allowed money_stage
demoted_from-legal p q true micro h = ground arith
demoted_from-legal p q false micro h = ground arith
demoted_from-legal p q b live h = ground arith
demoted_from-legal p q b scaled h = ground arith
demoted_from-legal p q b candidate h = cc
demoted_from-legal p q b shadow h = cc
demoted_from-legal p q b retired h = cc
demoted_from-legal p q b demo_only h = cc

demoted-legal :
    (k : Env) (v : VersionState) (t : Datetime)
    → money_stage v.stage ≡ true
    → legal v (demoted_stage k v t) evaluator ≡ true
unfolding demoted_stage legal
demoted-legal k v t h = demoted_from-legal v.info.paper_only (has_profile v) _ v.stage h

demoted_from-not_live : (b : Bool) (s : Stage) → s ≡ micro → demoted_from s b ≡ live → ⊥
demoted_from-not_live true s e h = ground arith
demoted_from-not_live false s e h = ground arith

demoted-not_live :
    (k : Env) (v : VersionState) (t : Datetime) → v.stage ≡ micro → demoted_stage k v t ≡ live → ⊥
unfolding demoted_stage
demoted-not_live k v t e h = demoted_from-not_live _ v.stage e h

-- A demotion returns. It records one legal change of the version's stage, and then either execution
-- cancelled the version's pending orders and, if it leaves the money stages, closed its positions,
-- with nothing raised and no alert; or the owner has an alert with what was raised.
pub demote_acts :
    (k : Env) (v : VersionState) (reason : String) (m : Metrics) (w : World)
    → IsAt v w.registry
    → money_stage v.stage ≡ true
    → Ensures (demote k v reason m) w (Demoted k v w)
unfolding demote act_on
demote_acts k v reason m w here money =
    let to = demoted_stage k v (k.clock w.readings - months k.cfg.demotion.retire_window_months) in
    let l = demoted-legal k v _ money in
    now-Ensures k _ (
      move-Ensures k v to reason m _ (tick w) here l (
        bind-Ensures (act_with-Acts k k.actions (key_of v) to reason _) (λ a u (p, q).
          give-Ensures _ u (record {
            moved =
                subst (λ h. Moved v w.registry (changed v to reason (k.clock (tick w).readings)) h)
                  (sym p) (moved_by k v to reason m (tick w) l);
            not_live = demoted-not_live k v _;
            acted = q;
          }))))
