-- ===== src/Lifecycle/Registry/Rollback.antt =====
-- A rollback right after a swap.
use kometa.Prelude.{
  ◌≡◌, ◌≢◌, refl, sym, ◌∙◌, ap, inl, inr, true, false, String, Option, none, some, [], ◌∷◌, ◌==◌,
  string_eq, pair_eq, if◌then◌else◌, ok, arith, Bool-cases,
}
use Prim.{tt}
use kometa.Prelude.Dict.{Dict, lookup, insert, lookup-insert}
use kometa.Core.Time.{Datetime}
use kometa.Core.Models.{Stage, shadow, stage_eq}
use kometa.Lifecycle.Reasons.{
  IsClean, old_champion-swap_in_reason, old_champion-swap_out_reason, swap_in_reason,
  swap_out_reason,
}
use kometa.Lifecycle.Ladder.{VersionState, StageRecord, Key, key_of, evaluator, Metric, money_stage}
use kometa.Lifecycle.Registry.{
  Registry, Swap, undo, last_swap, rollback, swap, may_swap, stage_record, changed, rolled_back,
  restored_over, moved,
}
use kometa.Lifecycle.Registry.Swaps.{
  other_lookup, stage_at, swap_lem, swapped, stage_at_lem, apart, stage_of, swap_exchanges,
}
use kometa.Lifecycle.Registry.Latest.{IsBefore, IsThe, latest_swap_lem}
use kometa.Lifecycle.Registry.Histories.{
  All, OfStrategy, IsOld, OfStrategy-insert, OfStrategy-lookup, OfStrategy-map, All-snoc,
}
use kometa.Lifecycle.Registry.Undo.{undone, undo_lem, undo-stage_at}

may_swap-stages :
    (champion : String) (champ chal : VersionState)
    → may_swap champion champ chal ≡ true
    → ((chal.stage == shadow) ≡ true) × ((champ.stage == shadow) ≡ false)
unfolding may_swap money_stage
may_swap-stages champion champ chal m = (ground arith, ground arith)

stage_at-some :
    (j : Key) (g : Registry) (v : VersionState)
    → lookup j g.book.versions ≡ some v
    → stage_at j g ≡ some v.stage
stage_at-some j g v h = stage_at_lem j g ∙ ap stage_of h

lookup_inserted :
    (k : Key) (v : VersionState) (d : Dict Key VersionState) → lookup k (insert k v d) ≡ some v
lookup_inserted k v d =
    lookup-insert k k v d
    ∙ ap (λ b. if b then some v else lookup k d) ((pair_eq.beq_iff k k).1 refl)

module _ (id champion challenger reason why : String) (metrics : Dict String Metric)
    (now later undo_now undo_later : Datetime) (g : Registry) (champ chal : VersionState)
    (is_champ : lookup (id, champion) g.book.versions ≡ some champ)
    (is_chal : lookup (id, challenger) g.book.versions ≡ some chal)
    (champ_key : key_of champ ≡ (id, champion)) (chal_key : key_of chal ≡ (id, challenger))
    (fits : may_swap champion champ chal ≡ true) (clean : IsClean champion)
    (old : OfStrategy id (IsOld now) g.book.versions) where
  abbrev down_record : StageRecord
  down_record = stage_record champ shadow (swap_out_reason challenger) evaluator [] later

  abbrev up_record : StageRecord
  up_record = stage_record chal champ.stage (swap_in_reason champion reason) evaluator metrics now

  abbrev now_down : VersionState
  now_down = moved down_record champ

  abbrev now_up : VersionState
  now_up = moved up_record chal

  abbrev latest : Swap
  latest = record { at = now; new = challenger; old = champion; stage = champ.stage }

  abbrev after_swap : Registry
  after_swap =
      swapped id champion challenger reason metrics now later g champ chal is_champ is_chal
        champ_key chal_key fits

  different : key_of chal ≢ key_of champ
  different =
      apart id champion challenger reason metrics now later g champ chal is_champ is_chal champ_key
        chal_key fits

  is_down : lookup (id, champion) after_swap.book.versions ≡ some now_down
  is_down =
      ap (λ k. lookup k after_swap.book.versions) (sym champ_key)
      ∙ lookup_inserted (key_of champ) now_down _

  is_up : lookup (id, challenger) after_swap.book.versions ≡ some now_up
  is_up =
      ap (λ k. lookup k after_swap.book.versions) (sym chal_key)
      ∙ other_lookup champ now_up now_down (insert (key_of chal) now_up g.book.versions)
          (λ same. different (sym same)) (lookup_inserted (key_of chal) now_up g.book.versions)

  earlier_swaps : OfStrategy id (IsBefore latest) g.book.versions
  earlier_swaps = OfStrategy-map id (IsOld now) (IsBefore latest) (λ h o. inl o) g.book.versions old

  history-IsBefore :
      (v : VersionState) (k : Key)
      → lookup k g.book.versions ≡ some v
      → (v.info.strategy_id ≡ id)
      → All (IsBefore latest) v.history
  history-IsBefore v k h e =
      OfStrategy-lookup id (IsBefore latest) k v g.book.versions h
        ((string_eq.beq_iff v.info.strategy_id id).1 e) earlier_swaps

  is_the : IsThe latest up_record
  is_the = (old_champion-swap_in_reason champion reason clean, refl, ap (λ k. k.1) chal_key, refl)

  swapped-IsBefore : OfStrategy id (IsBefore latest) after_swap.book.versions
  swapped-IsBefore =
      OfStrategy-insert id (IsBefore latest) (key_of champ) now_down _
        (All-snoc (IsBefore latest) champ.history down_record
          (history-IsBefore champ (id, champion) is_champ (ap (λ k. k.0) champ_key))
          (inl (inl (old_champion-swap_out_reason challenger))))
        (OfStrategy-insert id (IsBefore latest) (key_of chal) now_up g.book.versions
          (All-snoc (IsBefore latest) chal.history up_record
            (history-IsBefore chal (id, challenger) is_chal (ap (λ k. k.0) chal_key)) (inr is_the))
          earlier_swaps)

  -- the swap is the latest one of its strategy
  last_swap_lem : last_swap id after_swap ≡ some latest
  unfolding last_swap
  last_swap_lem =
      latest_swap_lem latest id (id, challenger) now_up chal.history up_record
        after_swap.book.versions none is_up
        ((string_eq.beq_iff chal.info.strategy_id id).1 (ap (λ k. k.0) chal_key)) refl
        (history-IsBefore chal (id, challenger) is_chal (ap (λ k. k.0) chal_key)) is_the
        swapped-IsBefore tt

  in_shadow : (chal.stage == shadow) ≡ true
  in_shadow = (may_swap-stages champion champ chal fits).0

  above : (champ.stage == shadow) ≡ false
  above = (may_swap-stages champion champ chal fits).1

  abbrev after_undo : Registry
  after_undo =
      undone id why undo_now undo_later after_swap latest now_down now_up is_down is_up champ_key
        chal_key different refl above

  rollback_lem : rollback id why undo_now undo_later after_swap ≡ (
    ok (
        changed now_up shadow (rolled_back champion why) undo_now
        ∷ changed now_down champ.stage (restored_over challenger why) undo_later
        ∷ []),
    after_undo,
  )
  unfolding rollback
  rollback_lem =
      ap (λ o. undo id why undo_now undo_later o after_swap) last_swap_lem
      ∙ undo_lem id why undo_now undo_later after_swap latest now_down now_up is_down is_up
          champ_key chal_key different refl above

  -- `swap_exchanges` for a version that is neither of the two
  swap-other :
      (j : Key)
      → ((id, champion) == j) ≡ false
      → ((id, challenger) == j) ≡ false
      → stage_at j after_swap ≡ stage_at j g
  swap-other j p q =
      sym (
        ap (λ x. stage_at j x.1)
          (swap_lem id champion challenger reason metrics now later g champ chal is_champ is_chal
            champ_key chal_key fits))
      ∙ (swap_exchanges id champion challenger reason metrics now later g champ chal is_champ
            is_chal champ_key chal_key fits).2
          j
      ∙ ap
          (λ b.
            if b
            then some shadow
            else (if (id, challenger) == j then some champ.stage else stage_at j g))
          p
      ∙ ap (λ b. if b then some champ.stage else stage_at j g) q

  undo-restores : (j : Key) → stage_at j after_undo ≡ stage_at j g
  undo-restores j =
      undo-stage_at id why undo_now undo_later after_swap latest now_down now_up is_down is_up
        champ_key chal_key different refl above j
      ∙ elim (Bool-cases ((id, champion) == j)) [
        | inl same ↦
            ap (λ b. if b then some champ.stage else others j) same
            ∙ sym (
                ap (λ k. stage_at k g) (sym ((pair_eq.beq_iff (id, champion) j).0 same))
                ∙ stage_at-some (id, champion) g champ is_champ)
        | inr p ↦
            ap (λ b. if b then some champ.stage else others j) p
            ∙ elim (Bool-cases ((id, challenger) == j)) [
              | inl same ↦
                  ap (λ b. if b then some shadow else stage_at j after_swap) same
                  ∙ ap some (sym ((stage_eq.beq_iff chal.stage shadow).0 in_shadow))
                  ∙ sym (
                      ap (λ k. stage_at k g) (sym ((pair_eq.beq_iff (id, challenger) j).0 same))
                      ∙ stage_at-some (id, challenger) g chal is_chal)
              | inr q ↦
                  ap (λ b. if b then some shadow else stage_at j after_swap) q ∙ swap-other j p q
            ]
      ]
    where
      others : Key → Option Stage
      others k = if (id, challenger) == k then some shadow else stage_at k after_swap

  -- A rollback right after a swap of two stored versions succeeds, and every version has the stage
  -- again that it had before the swap, where the swap meets `may_swap`, the champion's version has no
  -- colon and no white space at its ends, and the earlier swaps of the strategy were recorded before
  -- this one.
  pub rollback-swap :
      let done =
        rollback id why undo_now undo_later
          (swap id champion challenger reason metrics now later g).1 in
      (done.0
        ≡ ok (
            changed now_up shadow (rolled_back champion why) undo_now
            ∷ changed now_down champ.stage (restored_over challenger why) undo_later
            ∷ []))
      × ((j : Key) → stage_at j done.1 ≡ stage_at j g)
  rollback-swap = (ap (λ x. x.0) whole, λ j. ap (λ x. stage_at j x.1) whole ∙ undo-restores j)
    where
      whole :
          rollback id why undo_now undo_later
            (swap id champion challenger reason metrics now later g).1
          ≡ (
            ok (
                changed now_up shadow (rolled_back champion why) undo_now
                ∷ changed now_down champ.stage (restored_over challenger why) undo_later
                ∷ []),
            after_undo,
          )
      whole =
          ap (λ x. rollback id why undo_now undo_later x.1)
            (swap_lem id champion challenger reason metrics now later g champ chal is_champ is_chal
              champ_key chal_key fits)
          ∙ rollback_lem
