-- ===== src/Lifecycle/Registry/Histories.antt =====
-- The records of the versions of a strategy, and what each of them satisfies.
use kometa.Prelude.{
  ◌≡◌, ◌⊎◌, sym, ◌∙◌, ap, inl, inr, Bool, true, false, String, none, some, List, [], ◌∷◌, ◌++◌,
  ◌==◌, ◌<◌, string_eq, pair_eq, if◌then◌else◌, Bool-cases, some_inj,
}
use Prim.{Unit, tt}
use mathlib.Core.Path.{subst}
use kometa.Prelude.Dict.{Dict, lookup, insert}
use kometa.Core.Time.{Datetime}
use kometa.Core.Models.{stage_eq}
use kometa.Lifecycle.Reasons.{old_champion}
use kometa.Lifecycle.Ladder.{VersionState, StageRecord, Key}

-- A record that is not a swap, or was written before the given time
abbrev pub IsOld : Datetime → StageRecord → Type 0
IsOld now h = (old_champion h.reason ≡ none) ⊎ (h.at < now)

abbrev pub All : (StageRecord → Type 0) → List StageRecord → Type 0
All P [] = Unit
All P (h ∷ hs) = P h × All P hs

-- The records of a strategy's versions
abbrev pub OfStrategy : String → (StageRecord → Type 0) → Dict Key VersionState → Type 0
OfStrategy id P [] = Unit
OfStrategy id P ((k, v) ∷ d) =
    ((v.info.strategy_id == id) ≡ true → All P v.history) × OfStrategy id P d

pub All-snoc :
    (P : StageRecord → Type 0) (hs : List StageRecord) (r : StageRecord)
    → All P hs
    → P r
    → All P (hs ++ r ∷ [])
All-snoc P [] r a p = (p, tt)
All-snoc P (h ∷ hs) r a p = (a.0, All-snoc P hs r a.1 p)

All-map :
    (P Q : StageRecord → Type 0) (f : (h : StageRecord) → P h → Q h) (hs : List StageRecord)
    → All P hs
    → All Q hs
All-map P Q f [] a = tt
All-map P Q f (h ∷ hs) a = (f h a.0, All-map P Q f hs a.1)

pub OfStrategy-map :
    (id : String) (P Q : StageRecord → Type 0) (f : (h : StageRecord) → P h → Q h)
    (d : Dict Key VersionState)
    → OfStrategy id P d
    → OfStrategy id Q d
OfStrategy-map id P Q f [] a = tt
OfStrategy-map id P Q f ((k, v) ∷ d) a =
    (λ e. All-map P Q f v.history (a.0 e), OfStrategy-map id P Q f d a.1)

OfStrategy-if :
    (id : String) (P : StageRecord → Type 0) (b : Bool) (d e : Dict Key VersionState)
    → OfStrategy id P d
    → OfStrategy id P e
    → OfStrategy id P (if b then d else e)
OfStrategy-if id P true d e x y = x
OfStrategy-if id P false d e x y = y

pub OfStrategy-insert :
    (id : String) (P : StageRecord → Type 0) (k : Key) (v : VersionState)
    (d : Dict Key VersionState)
    → All P v.history
    → OfStrategy id P d
    → OfStrategy id P (insert k v d)
OfStrategy-insert id P k v [] a o = (λ e. a, tt)
OfStrategy-insert id P k v ((j, w) ∷ d) a o =
    OfStrategy-if id P (j == k) ((j, v) ∷ d) ((j, w) ∷ insert k v d) (λ e. a, o.1)
      (o.0, OfStrategy-insert id P k v d a o.1)

pub OfStrategy-lookup :
    (id : String) (P : StageRecord → Type 0) (k : Key) (v : VersionState)
    (d : Dict Key VersionState)
    → lookup k d ≡ some v
    → (v.info.strategy_id == id) ≡ true
    → OfStrategy id P d
    → All P v.history
OfStrategy-lookup id P k v [] h e o = cc
OfStrategy-lookup id P k v ((j, w) ∷ d) h e o = elim (Bool-cases (j == k)) [
  | inl same ↦
      subst (λ x. (x.info.strategy_id == id) ≡ true → All P x.history)
        (some_inj (sym (ap (λ b. if b then some w else lookup k d) same) ∙ h)) o.0 e
  | inr other ↦
      OfStrategy-lookup id P k v d (sym (ap (λ b. if b then some w else lookup k d) other) ∙ h) e
        o.1
]
