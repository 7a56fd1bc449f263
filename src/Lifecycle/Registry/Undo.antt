-- ===== src/Lifecycle/Registry/Undo.antt =====
-- What `rollback` does to the swap that it undoes.
use kometa.Prelude.{
  ◌≡◌, ◌≢◌, ◌∙◌, ap, true, false, String, some, List, [], ◌∷◌, ◌++◌, ◌==◌, string_eq, pair_eq,
  if◌then◌else◌, Result, ok, not,
}
use kometa.Prelude.Dict.{lookup}
use kometa.Core.Time.{Datetime}
use kometa.Core.Models.{shadow, stage_eq}
use kometa.Core.Events.{StageChanged}
use kometa.Lifecycle.Ladder.{VersionState, StageRecord, Key, key_of, evaluator}
use kometa.Lifecycle.Registry.{
  Registry, Swap, undo, when, stage_record, change_alert, changed, rolled_back, restored_over,
  moved, after, get, guarded, record_change, return, Failure,
}
use kometa.Lifecycle.Registry.Moves.{recorded, record_change_lem, get-some}
use kometa.Lifecycle.Registry.Swaps.{recorded_twice, other_lookup, stage_at}

-- undoing a swap whose old champion is in shadow and whose new one is not
module _ (id reason : String) (now later : Datetime) (g : Registry) (last : Swap)
    (old_v new_v : VersionState) (is_old : lookup (id, last.old) g.book.versions ≡ some old_v)
    (is_new : lookup (id, last.new) g.book.versions ≡ some new_v)
    (old_key : key_of old_v ≡ (id, last.old)) (new_key : key_of new_v ≡ (id, last.new))
    (different : key_of new_v ≢ key_of old_v) (in_shadow : (old_v.stage == shadow) ≡ true)
    (above : (new_v.stage == shadow) ≡ false) where
  abbrev pub lowering : StageRecord
  lowering = stage_record new_v shadow (rolled_back last.old reason) evaluator [] now

  abbrev pub restoring : StageRecord
  restoring = stage_record old_v last.stage (restored_over last.new reason) evaluator [] later

  abbrev pub lowered : Registry
  lowered =
      recorded new_v lowering new_v (change_alert new_v shadow (rolled_back last.old reason) now)
        (changed new_v shadow (rolled_back last.old reason) now) g

  abbrev pub undone : Registry
  undone =
      recorded old_v restoring old_v
        (change_alert old_v last.stage (restored_over last.new reason) later)
        (changed old_v last.stage (restored_over last.new reason) later) lowered

  abbrev pub both_events : List StageChanged
  both_events =
      changed new_v shadow (rolled_back last.old reason) now
      ∷ changed old_v last.stage (restored_over last.new reason) later
      ∷ []

  pub undo_lem : undo id reason now later (some last) g ≡ (ok both_events, undone)
  undo_lem =
      ap (λ o. after o (λ v. λ x. after (get id last.new x) (λ w. body v w)))
        (get-some id last.old old_v g is_old)
      ∙ ap (λ o. after o (λ w. body old_v w)) (get-some id last.new new_v g is_new)
      ∙ ap (λ b. guarded b now (both old_v new_v) g) in_shadow
      ∙ ap (λ b. after (when (not b) (lower new_v) g) (restore old_v)) above
      ∙ ap (λ o. after (after o (λ a. return (a ∷ []))) (restore old_v))
          (record_change_lem new_v new_v shadow (rolled_back last.old reason) evaluator [] now g
            (ap (λ k. lookup k g.book.versions) new_key ∙ is_new))
      ∙ ap
          (λ o.
            after o (λ b. return (changed new_v shadow (rolled_back last.old reason) now ∷ b ∷ [])))
          (record_change_lem old_v old_v last.stage (restored_over last.new reason) evaluator []
            later lowered
            (other_lookup new_v old_v (moved lowering new_v) g.book.versions different
              (ap (λ k. lookup k g.book.versions) old_key ∙ is_old)))
    where
      lower : VersionState → Registry → Result Failure StageChanged × Registry
      lower w = record_change w shadow (rolled_back last.old reason) evaluator [] now

      restore :
          VersionState
          → List StageChanged
          → Registry
          → Result Failure (List StageChanged) × Registry
      restore v out x =
          after (record_change v last.stage (restored_over last.new reason) evaluator [] later x)
            (λ b. return (out ++ b ∷ []))

      both : VersionState → VersionState → Registry → Result Failure (List StageChanged) × Registry
      both v w x = after (when (not (w.stage == shadow)) (lower w) x) (restore v)

      body : VersionState → VersionState → Registry → Result Failure (List StageChanged) × Registry
      body v w = guarded (v.stage == shadow) now (both v w)

  pub undo-stage_at :
      (j : Key)
      → stage_at j undone ≡ (
          if (id, last.old) == j
          then some last.stage
          else (if (id, last.new) == j then some shadow else stage_at j g))
  undo-stage_at j =
      recorded_twice new_v old_v lowering restoring _ _ _ _ g j
      ∙ ap
          (λ k.
            if k == j
            then some last.stage
            else (if key_of new_v == j then some shadow else stage_at j g))
          old_key
      ∙ ap
          (λ k.
            if (id, last.old) == j
            then some last.stage
            else (if k == j then some shadow else stage_at j g))
          new_key
