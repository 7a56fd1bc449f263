-- ===== src/Lifecycle/Registry/Swaps.antt =====
-- The stages of all versions after a transition, and after a swap of champions.
use kometa.Prelude.{
  ◌≡◌, ◌≢◌, refl, sym, ◌∙◌, ap, inl, inr, Bool, true, false, String, Option, none, some, [], ◌∷◌,
  ◌++◌, ◌==◌, string_eq, pair_eq, if◌then◌else◌, Result, ok, arith, Bool-cases, some_inj,
}
use kometa.Prelude.Dict.{Dict, lookup, insert, lookup-insert}
use kometa.Core.Time.{Datetime}
use kometa.Core.Models.{Stage, shadow, stage_eq}
use kometa.Lifecycle.Reasons.{swap_in_reason, swap_out_reason}
use kometa.Core.Events.{StageChanged}
use kometa.Lifecycle.Ladder.{
  VersionState, StageRecord, Key, key_of, Actor, evaluator, Metric, legal, money_stage, LadderAlert,
}
use kometa.Lifecycle.Registry.{
  Registry, Failure, stage_change, get, transition, guarded, record_change, change_alert, changed,
  stage_record, after, stages_in, stages, swap, may_swap, moved, return,
}
use kometa.Lifecycle.Registry.Moves.{recorded, record_change_lem, get-some, transition-legal}

abbrev pub stage_of : Option VersionState → Option Stage
stage_of none = none
stage_of (some v) = some v.stage

lookup-stages_in :
    (j : Key) (d : Dict Key VersionState) → lookup j (stages_in d) ≡ stage_of (lookup j d)
lookup-stages_in j [] = refl
lookup-stages_in j ((k, v) ∷ d) = elim (Bool-cases (k == j)) [
  | inl e ↦ ground arith
  | inr e ↦ ground (arith, lookup-stages_in j d)
]

-- the stage of a version, by the map that the risk gate reads
abbrev pub stage_at : Key → Registry → Option Stage
stage_at j g = lookup j (stages g)

pub stage_at_lem : (j : Key) (g : Registry) → stage_at j g ≡ stage_of (lookup j g.book.versions)
unfolding stages
stage_at_lem j g = lookup-stages_in j g.book.versions

stage_of_if :
    (b : Bool) (v : VersionState) (o : Option VersionState)
    → stage_of (if b then some v else o) ≡ (if b then some v.stage else stage_of o)
stage_of_if true v o = refl
stage_of_if false v o = refl

recorded-stage_at :
    (v s : VersionState) (r : StageRecord) (a : LadderAlert) (e : StageChanged) (g : Registry)
    (j : Key)
    → stage_at j (recorded v r s a e g) ≡ (if key_of v == j then some r.to_stage else stage_at j g)
recorded-stage_at v s r a e g j =
    stage_at_lem j (recorded v r s a e g)
    ∙ ap stage_of (lookup-insert j (key_of v) (moved r s) g.book.versions)
    ∙ stage_of_if (key_of v == j) (moved r s) (lookup j g.book.versions)
    ∙ ap (λ o. if key_of v == j then some r.to_stage else o) (sym (stage_at_lem j g))

-- A legal transition of a stored version returns the event, appends one record to the ledger, and
-- gives the version the new stage; every other version keeps its own.
pub transition_moves :
    (id version : String) (v : VersionState) (to : Stage) (reason : String) (actor : Actor)
    (metrics : Dict String Metric) (now : Datetime) (g : Registry)
    → lookup (id, version) g.book.versions ≡ some v
    → key_of v ≡ (id, version)
    → legal v to actor ≡ true
    → let done = transition id version to reason actor metrics now g in
      (done.0 ≡ ok (changed v to reason now))
      × (done.1.ledger ≡ g.ledger ++ stage_change (stage_record v to reason actor metrics now) ∷ [])
      × ((j : Key) → stage_at j done.1 ≡ (if (id, version) == j then some to else stage_at j g))
transition_moves id version v to reason actor metrics now g h key l = (
  ap (λ x. x.0) e,
  ap (λ x. x.1.ledger) e,
  λ j.
      ap (λ x. stage_at j x.1) e
      ∙ recorded-stage_at v v r (change_alert v to reason now) (changed v to reason now) g j
      ∙ ap (λ k. if k == j then some to else stage_at j g) key,
)
  where
    r : StageRecord
    r = stage_record v to reason actor metrics now

    e : transition id version to reason actor metrics now g ≡ (
      ok (changed v to reason now),
      recorded v r v (change_alert v to reason now) (changed v to reason now) g,
    )
    e = transition-legal id version v to reason actor metrics now g h key l

-- two records, of different versions
pub recorded_twice :
    (v w : VersionState) (r q : StageRecord) (a b : LadderAlert) (e f : StageChanged) (g : Registry)
    (j : Key)
    → stage_at j (recorded w q w b f (recorded v r v a e g)) ≡ (
        if key_of w == j
        then some q.to_stage
        else (if key_of v == j then some r.to_stage else stage_at j g))
recorded_twice v w r q a b e f g j =
    recorded-stage_at w w q b f (recorded v r v a e g) j
    ∙ ap (λ o. if key_of w == j then some q.to_stage else o) (recorded-stage_at v v r a e g j)

pub other_lookup :
    (v w : VersionState) (s : VersionState) (d : Dict Key VersionState)
    → key_of v ≢ key_of w
    → lookup (key_of w) d ≡ some w
    → lookup (key_of w) (insert (key_of v) s d) ≡ some w
other_lookup v w s d apart h = elim (Bool-cases (key_of v == key_of w)) [
  | inl e ↦ elim (apart ((pair_eq.beq_iff (key_of v) (key_of w)).0 e)) [ ]
  | inr e ↦
      lookup-insert (key_of w) (key_of v) s d
      ∙ ap (λ b. if b then some s else lookup (key_of w) d) e
      ∙ h
]

may_swap-apart :
    (champion : String) (champ chal : VersionState)
    → may_swap champion champ chal ≡ true
    → champ ≢ chal
unfolding may_swap money_stage
may_swap-apart champion champ chal m same = ground (arith, ap (λ v. v.stage) same)

module _ (id champion challenger reason : String) (metrics : Dict String Metric)
    (now later : Datetime) (g : Registry) (champ chal : VersionState)
    (is_champ : lookup (id, champion) g.book.versions ≡ some champ)
    (is_chal : lookup (id, challenger) g.book.versions ≡ some chal)
    (champ_key : key_of champ ≡ (id, champion)) (chal_key : key_of chal ≡ (id, challenger))
    (fits : may_swap champion champ chal ≡ true) where
  abbrev pub up : StageRecord
  up = stage_record chal champ.stage (swap_in_reason champion reason) evaluator metrics now

  abbrev pub down : StageRecord
  down = stage_record champ shadow (swap_out_reason challenger) evaluator [] later

  abbrev pub raised : Registry
  raised =
      recorded chal up chal (change_alert chal champ.stage (swap_in_reason champion reason) now)
        (changed chal champ.stage (swap_in_reason champion reason) now) g

  abbrev pub swapped : Registry
  swapped =
      recorded champ down champ (change_alert champ shadow (swap_out_reason challenger) later)
        (changed champ shadow (swap_out_reason challenger) later) raised

  abbrev outcome : Result Failure (StageChanged × StageChanged)
  outcome = ok (
    changed chal champ.stage (swap_in_reason champion reason) now,
    changed champ shadow (swap_out_reason challenger) later,
  )

  pub apart : key_of chal ≢ key_of champ
  apart same = may_swap-apart champion champ chal fits (
      some_inj (
        sym is_champ
        ∙ ap (λ k. lookup k g.book.versions) (sym champ_key ∙ sym same ∙ chal_key)
        ∙ is_chal))

  pub swap_lem : swap id champion challenger reason metrics now later g ≡ (outcome, swapped)
  unfolding swap
  swap_lem =
      ap (λ o. after o (λ v. λ x. after (get id challenger x) (λ w. body v w)))
        (get-some id champion champ g is_champ)
      ∙ ap (λ o. after o (λ w. body champ w)) (get-some id challenger chal g is_chal)
      ∙ ap (λ b. guarded b now (both champ chal) g) fits
      ∙ ap (λ o. after o (λ a. λ x. after (lower champ x) (λ b. return (a, b))))
          (record_change_lem chal chal champ.stage (swap_in_reason champion reason) evaluator
            metrics now g (ap (λ k. lookup k g.book.versions) chal_key ∙ is_chal))
      ∙ ap
          (λ o.
            after o
              (λ b. return (changed chal champ.stage (swap_in_reason champion reason) now, b)))
          (record_change_lem champ champ shadow (swap_out_reason challenger) evaluator [] later
            raised
            (other_lookup chal champ (moved up chal) g.book.versions apart
              (ap (λ k. lookup k g.book.versions) champ_key ∙ is_champ)))
    where
      lower : VersionState → Registry → Result Failure StageChanged × Registry
      lower v = record_change v shadow (swap_out_reason challenger) evaluator [] later

      both :
          VersionState
          → VersionState
          → Registry
          → Result Failure (StageChanged × StageChanged) × Registry
      both v w x =
          after (record_change w v.stage (swap_in_reason champion reason) evaluator metrics now x)
            (λ a. λ y. after (lower v y) (λ b. return (a, b)))

      body :
          VersionState
          → VersionState
          → Registry
          → Result Failure (StageChanged × StageChanged) × Registry
      body v w = guarded (may_swap champion v w) now (both v w)

  -- A swap of two stored versions that meets `may_swap` succeeds: it gives the challenger the stage of
  -- the champion, sends the champion to shadow, changes no other version, and appends the two records
  -- to the ledger, the challenger's first.
  pub swap_exchanges :
      let done = swap id champion challenger reason metrics now later g in
      (done.0 ≡ outcome)
      × (done.1.ledger ≡ (g.ledger ++ stage_change up ∷ []) ++ stage_change down ∷ [])
      × ((j : Key)
          → stage_at j done.1 ≡ (
              if (id, champion) == j
              then some shadow
              else (if (id, challenger) == j then some champ.stage else stage_at j g)))
  swap_exchanges = (
    ap (λ x. x.0) swap_lem,
    ap (λ x. x.1.ledger) swap_lem,
    λ j.
        ap (λ x. stage_at j x.1) swap_lem
        ∙ recorded_twice chal champ up down _ _ _ _ g j
        ∙ ap
            (λ k.
              if k == j
              then some shadow
              else (if key_of chal == j then some champ.stage else stage_at j g))
            champ_key
        ∙ ap
            (λ k.
              if (id, champion) == j
              then some shadow
              else (if k == j then some champ.stage else stage_at j g))
            chal_key,
  )
