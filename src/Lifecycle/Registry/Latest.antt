-- ===== src/Lifecycle/Registry/Latest.antt =====
-- Which swap `last_swap` finds, where one is recorded after every other of its strategy.
use kometa.Lifecycle.Registry.Histories.{IsOld, All, OfStrategy}
use kometa.Prelude.{
  ℕ, ◌≡◌, ◌⊎◌, refl, sym, ◌∙◌, ap, inl, inr, Bool, true, false, String, Option, none, some, List,
  [], ◌∷◌, ◌++◌, ◌==◌, ◌<◌, string_eq, pair_eq, if◌then◌else◌, arith, Bool-cases, ltb, some_inj,
}
use Prim.{Unit}
use mathlib.Core.Path.{subst}
use kometa.Prelude.Dict.{Dict, lookup}
use kometa.Core.Models.{stage_eq}
use kometa.Lifecycle.Reasons.{old_champion}
use kometa.Lifecycle.Ladder.{VersionState, StageRecord, Key}
use kometa.Lifecycle.Registry.{Swap, swap_of, swaps_in, latest_swap, newer}

module _ (s : Swap) where
  -- The best so far is older than the swap, or the swap
  abbrev pub IsEarly : Option Swap → Type 0
  IsEarly none = Unit
  IsEarly (some b) = (b.at < s.at) ⊎ (b ≡ s)

  -- The record that the swap is read from
  abbrev pub IsThe : StageRecord → Type 0
  IsThe h =
      (old_champion h.reason ≡ some s.old)
      × (h.at ≡ s.at)
      × (h.version ≡ s.new)
      × (h.to_stage ≡ s.stage)

  abbrev pub IsBefore : StageRecord → Type 0
  IsBefore h = IsOld s.at h ⊎ IsThe h

  IsEarly-if : (b : Bool) (x y : Option Swap) → IsEarly x → IsEarly y → IsEarly (if b then x else y)
  IsEarly-if true x y p q = p
  IsEarly-if false x y p q = q

  lt-true : {m n : ℕ} → m < n → ltb m n ≡ true
  lt-true lt = ground arith

  ltb_irrefl : (n : ℕ) → ltb n n ≡ false
  ltb_irrefl n = ground arith

  first_if : (b : Bool) (x y : Option Swap) → b ≡ true → (if b then x else y) ≡ x
  first_if b x y e = ap (λ c. if c then x else y) e

  second_if : (b : Bool) (x y : Option Swap) → b ≡ false → (if b then x else y) ≡ y
  second_if b x y e = ap (λ c. if c then x else y) e

  older-IsEarly :
      (h : StageRecord) (o : Option String) (best : Option Swap)
      → h.at < s.at
      → IsEarly best
      → IsEarly (swap_of h o best)
  older-IsEarly h none best lt e = e
  older-IsEarly h (some old) best lt e = IsEarly-if (newer h.at best) _ best (inl lt) e

  older-kept : (h : StageRecord) (o : Option String) → h.at < s.at → swap_of h o (some s) ≡ some s
  older-kept h none lt = refl
  older-kept h (some old) lt = ground arith

  the_swap :
      (h : StageRecord)
      → IsThe h
      → ◌≡◌ {A = Swap} (record { at = h.at; new = h.version; old = s.old; stage = h.to_stage }) s
  the_swap h (o, a, v, t) = λ i. record { at = a i; new = v i; old = s.old; stage = t i }

  the-taken :
      (h : StageRecord) (best : Option Swap)
      → IsThe h
      → IsEarly best
      → swap_of h (some s.old) best ≡ some s
  the-taken h none t e = ap some (the_swap h t)
  the-taken h (some b) t (inl lt) =
      first_if (ltb b.at h.at) _ _ (subst (λ x. ltb b.at x ≡ true) (sym t.1) (lt-true lt))
      ∙ ap some (the_swap h t)
  the-taken h (some b) t (inr same) =
      second_if (ltb b.at h.at) _ _ (
        subst (λ x. ltb b.at x ≡ false) (sym t.1)
          (subst (λ x. ltb x.at s.at ≡ false) (sym same) (ltb_irrefl s.at)))
      ∙ ap some same

  old-IsEarly :
      (h : StageRecord) (best : Option Swap)
      → IsOld s.at h
      → IsEarly best
      → IsEarly (swap_of h (old_champion h.reason) best)
  old-IsEarly h best (inl unread) e = subst (λ o. IsEarly (swap_of h o best)) (sym unread) e
  old-IsEarly h best (inr lt) e = older-IsEarly h (old_champion h.reason) best lt e

  old-kept : (h : StageRecord) → IsOld s.at h → swap_of h (old_champion h.reason) (some s) ≡ some s
  old-kept h (inl unread) = ap (λ o. swap_of h o (some s)) unread
  old-kept h (inr lt) = older-kept h (old_champion h.reason) lt

  taken :
      (h : StageRecord) (best : Option Swap)
      → IsThe h
      → IsEarly best
      → swap_of h (old_champion h.reason) best ≡ some s
  taken h best t e = ap (λ o. swap_of h o best) t.0 ∙ the-taken h best t e

  before-IsEarly :
      (h : StageRecord) (best : Option Swap)
      → IsBefore h
      → IsEarly best
      → IsEarly (swap_of h (old_champion h.reason) best)
  before-IsEarly h best (inl old) e = old-IsEarly h best old e
  before-IsEarly h best (inr t) e = subst IsEarly (sym (taken h best t e)) (inr refl)

  before-kept : (h : StageRecord) → IsBefore h → swap_of h (old_champion h.reason) (some s) ≡ some s
  before-kept h (inl old) = old-kept h old
  before-kept h (inr t) = taken h (some s) t (inr refl)

  swaps_in-IsEarly :
      (hs : List StageRecord) (best : Option Swap)
      → All IsBefore hs
      → IsEarly best
      → IsEarly (swaps_in hs best)
  swaps_in-IsEarly [] best a e = e
  swaps_in-IsEarly (h ∷ hs) best a e = swaps_in-IsEarly hs _ a.1 (before-IsEarly h best a.0 e)

  swaps_in-kept : (hs : List StageRecord) → All IsBefore hs → swaps_in hs (some s) ≡ some s
  swaps_in-kept [] a = refl
  swaps_in-kept (h ∷ hs) a = ap (swaps_in hs) (before-kept h a.0) ∙ swaps_in-kept hs a.1

  -- the swap's record at the end
  swaps_in-snoc :
      (hs : List StageRecord) (h : StageRecord) (best : Option Swap)
      → All IsBefore hs
      → IsThe h
      → IsEarly best
      → swaps_in (hs ++ h ∷ []) best ≡ some s
  swaps_in-snoc [] h best a t e = taken h best t e
  swaps_in-snoc (x ∷ hs) h best a t e = swaps_in-snoc hs h _ a.1 t (before-IsEarly x best a.0 e)

  latest_swap-kept :
      (id : String) (d : Dict Key VersionState)
      → OfStrategy id IsBefore d
      → latest_swap id d (some s) ≡ some s
  latest_swap-kept id [] o = refl
  latest_swap-kept id ((k, v) ∷ d) o = elim (Bool-cases (v.info.strategy_id == id)) [
    | inl e ↦
        ap (latest_swap id d) (
          ap (λ b. if b then swaps_in v.history (some s) else some s) e
          ∙ swaps_in-kept v.history (o.0 e))
        ∙ latest_swap-kept id d o.1
    | inr e ↦
        ap (λ b. latest_swap id d (if b then swaps_in v.history (some s) else some s)) e
        ∙ latest_swap-kept id d o.1
  ]

  pub latest_swap_lem :
      (id : String) (k : Key) (w : VersionState) (hs : List StageRecord) (h : StageRecord)
      (d : Dict Key VersionState) (best : Option Swap)
      → lookup k d ≡ some w
      → (w.info.strategy_id == id) ≡ true
      → w.history ≡ hs ++ h ∷ []
      → All IsBefore hs
      → IsThe h
      → OfStrategy id IsBefore d
      → IsEarly best
      → latest_swap id d best ≡ some s
  latest_swap_lem id k w hs h [] best at mine shape a t o e = cc
  latest_swap_lem id k w hs h ((j, v) ∷ d) best at mine shape a t o e = elim (Bool-cases (j == k)) [
    | inl same ↦
        ap (latest_swap id d) (
          ap (λ x. if x.info.strategy_id == id then swaps_in x.history best else best)
            (some_inj (sym (ap (λ b. if b then some v else lookup k d) same) ∙ at))
          ∙ ap (λ b. if b then swaps_in w.history best else best) mine
          ∙ ap (λ l. swaps_in l best) shape
          ∙ swaps_in-snoc hs h best a t e)
        ∙ latest_swap-kept id d o.1
    | inr other ↦
        latest_swap_lem id k w hs h d _
          (sym (ap (λ b. if b then some v else lookup k d) other) ∙ at) mine shape a t o.1
          (elim (Bool-cases (v.info.strategy_id == id)) [
            | inl m ↦
                subst (λ b. IsEarly (if b then swaps_in v.history best else best)) (sym m)
                  (swaps_in-IsEarly v.history best (o.0 m) e)
            | inr m ↦ subst (λ b. IsEarly (if b then swaps_in v.history best else best)) (sym m) e
          ])
  ]
