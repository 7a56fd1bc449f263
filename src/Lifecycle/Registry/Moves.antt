-- ===== src/Lifecycle/Registry/Moves.antt =====
-- What one call of the registry leaves: a recorded change, and a transition.
use kometa.Prelude.{
  ◌≡◌, ◌∙◌, ap, Bool, true, false, ◌&&◌, ◌||◌, not, String, none, some, [], ◌∷◌, ◌++◌, ◌==◌,
  string_eq, pair_eq, ok, err,
}
use kometa.Prelude.Dict.{Dict, lookup}
use kometa.Core.Time.{Datetime}
use kometa.Core.Models.{Stage, candidate, shadow, retired, demo_only, stage_eq}
use kometa.Core.Events.{StageChanged}
use kometa.Lifecycle.Ladder.{
  VersionState, StageRecord, key_of, Actor, Metric, legal, allowed, illegal_transition, LadderAlert,
}
use kometa.Lifecycle.Registry.{
  Registry, stage_change, illegal_transition_error, key_error, get, found, transition, guarded,
  illegal, record_change, write, apply, change, moved, put, set_book, logged, announce,
  change_alert, changed, stage_record, after, alarm,
}

abbrev pub legal_for : (paper profiled by_owner : Bool) (frm to : Stage) → Bool
legal_for paper profiled by_owner frm to =
    (allowed frm to || to == retired && by_owner && not (frm == retired))
    && not (paper && frm == shadow && not (to == retired || to == demo_only))
    && not (to == demo_only && not (paper && by_owner))
    && not (frm == candidate && to == shadow && not profiled && not paper)

-- the registry after one record of a change of stage
abbrev pub recorded :
    VersionState → StageRecord → VersionState → LadderAlert → StageChanged → Registry → Registry
recorded v r s a e g = record g {
  ledger = g.ledger ++ stage_change r ∷ [];
  book = put (key_of v) (moved r s) g.book;
  alerts = g.alerts ++ a ∷ [];
  events = g.events ++ e ∷ [];
}

pub record_change_lem :
    (v s : VersionState) (to : Stage) (reason : String) (actor : Actor)
    (metrics : Dict String Metric) (now : Datetime) (g : Registry)
    → lookup (key_of v) g.book.versions ≡ some s
    → record_change v to reason actor metrics now g ≡ (
      ok (changed v to reason now),
      recorded v
          (stage_record v to reason actor metrics now)
          s
          (change_alert v to reason now)
          (changed v to reason now)
          g,
    )
unfolding record_change write apply
record_change_lem v s to reason actor metrics now g h =
    ap
      (λ o.
        after (set_book (change (key_of v) (moved rec) o g.book) (logged (stage_change rec) g))
          (λ u. announce (change_alert v to reason now) (changed v to reason now)))
      h
  where
    rec : StageRecord
    rec = stage_record v to reason actor metrics now

pub get-some :
    (id version : String) (v : VersionState) (g : Registry)
    → lookup (id, version) g.book.versions ≡ some v
    → get id version g ≡ (ok v, g)
unfolding get
get-some id version v g h = ap (λ o. found o g) h

pub get-none :
    (id version : String) (g : Registry)
    → lookup (id, version) g.book.versions ≡ none
    → get id version g ≡ (err key_error, g)
unfolding get
get-none id version g h = ap (λ o. found o g) h

pub transition-legal :
    (id version : String) (v : VersionState) (to : Stage) (reason : String) (actor : Actor)
    (metrics : Dict String Metric) (now : Datetime) (g : Registry)
    → lookup (id, version) g.book.versions ≡ some v
    → key_of v ≡ (id, version)
    → legal v to actor ≡ true
    → transition id version to reason actor metrics now g ≡ (
      ok (changed v to reason now),
      recorded v
          (stage_record v to reason actor metrics now)
          v
          (change_alert v to reason now)
          (changed v to reason now)
          g,
    )
unfolding transition
transition-legal id version v to reason actor metrics now g h key l =
    ap
      (λ o.
        after o (λ w. guarded (legal w to actor) now (record_change w to reason actor metrics now)))
      (get-some id version v g h)
    ∙ ap (λ b. guarded b now (record_change v to reason actor metrics now) g) l
    ∙ record_change_lem v v to reason actor metrics now g
        (ap (λ k. lookup k g.book.versions) key ∙ h)

pub transition_illegal :
    (id version : String) (v : VersionState) (to : Stage) (reason : String) (actor : Actor)
    (metrics : Dict String Metric) (now : Datetime) (g : Registry)
    → lookup (id, version) g.book.versions ≡ some v
    → legal v to actor ≡ false
    → transition id version to reason actor metrics now g
      ≡ (err illegal_transition_error, alarm (illegal_transition now) g)
unfolding transition illegal
transition_illegal id version v to reason actor metrics now g h l =
    ap
      (λ o.
        after o (λ w. guarded (legal w to actor) now (record_change w to reason actor metrics now)))
      (get-some id version v g h)
    ∙ ap (λ b. guarded b now (record_change v to reason actor metrics now) g) l

pub transition_missing :
    (id version : String) (to : Stage) (reason : String) (actor : Actor)
    (metrics : Dict String Metric) (now : Datetime) (g : Registry)
    → lookup (id, version) g.book.versions ≡ none
    → transition id version to reason actor metrics now g ≡ (err key_error, g)
unfolding transition
transition_missing id version to reason actor metrics now g h =
    ap
      (λ o.
        after o (λ w. guarded (legal w to actor) now (record_change w to reason actor metrics now)))
      (get-none id version g h)
