-- ===== src/Lifecycle/Registry/PaperCalls.antt =====
-- The methods of the registry, one at a time, on a version that is `demo_only`.
use kometa.Prelude.{
  ◌≡◌, refl, sym, ◌∙◌, ap, inl, inr, Bool, true, false, String, Option, none, some, ◌==◌, string_eq,
  pair_eq, if◌then◌else◌, Result, ok, err, arith, Option-cases, Bool-cases, some_inj,
}
use mathlib.Core.Path.{subst}
use kometa.Prelude.Dict.{Dict, lookup, insert, lookup-insert, has_key}
use kometa.Core.Time.{Datetime}
use kometa.Core.Models.{Stage, shadow, retired, demo_only, candidate, micro, live, scaled, stage_eq}
use kometa.Lifecycle.Ladder.{
  VersionState, VersionInfo, BacktestProfile, Key, key_of, Actor, Metric, legal, allowed, is_owner,
  has_profile, money_stage,
}
use kometa.Lifecycle.Registry.{
  Registry, Failure, value_error, strategy_version, profile_of, Method, get, found, transition,
  guarded, illegal, record_change, stage_record, after, write, apply, change, first_state,
  with_profile, moved, set_profile, submit_candidate, maybe_profile, raise, ◌then◌, set_book,
  logged,
}
use kometa.Lifecycle.Registry.Moves.{legal_for, get-some, get-none, record_change_lem}
use kometa.Lifecycle.Registry.History.{IsSound, write-put-Grows}

paper_step :
    (q o : Bool) (frm to : Stage)
    → money_stage frm ≡ false
    → legal_for true q o frm to ≡ true
    → money_stage to ≡ false
unfolding allowed money_stage
paper_step q o candidate to h l = ground arith
paper_step q o shadow to h l = ground arith
paper_step q o micro to h l = ground arith
paper_step q o live to h l = ground arith
paper_step q o scaled to h l = ground arith
paper_step q o retired to h l = ground arith
paper_step q o demo_only to h l = ground arith

-- a `demo_only` version outside the money stages
abbrev pub IsPaper : VersionState → Type 0
IsPaper v = (v.info.paper_only ≡ true) × (money_stage v.stage ≡ false)

legal-IsPaper :
    (v : VersionState) (to : Stage) (actor : Actor)
    → IsPaper v
    → legal v to actor ≡ true
    → money_stage to ≡ false
unfolding legal
legal-IsPaper v to actor (paper, outside) l =
    paper_step (has_profile v) (is_owner actor) v.stage to outside
      (ap (λ p. legal_for p (has_profile v) (is_owner actor) v.stage to) (sym paper) ∙ l)

-- The version is stored, and is such a version.
abbrev pub HasPaper : Key → Dict Key VersionState → Type 0
HasPaper k d = (v : VersionState) × (lookup k d ≡ some v) × IsPaper v

put-HasPaper :
    (k j : Key) (v new : VersionState) (d : Dict Key VersionState)
    → lookup j d ≡ some v
    → (IsPaper v → IsPaper new)
    → HasPaper k d
    → HasPaper k (insert j new d)
put-HasPaper k j v new d h f (w, e, p) = elim (Bool-cases (j == k)) [
  | inl same ↦ (
    new,
    lookup-insert k j new d ∙ ap (λ b. if b then some new else lookup k d) same,
    f (
        subst IsPaper
          (some_inj (sym e ∙ ap (λ i. lookup i d) (sym ((pair_eq.beq_iff j k).0 same)) ∙ h)) p),
  )
  | inr apart ↦
      (w, lookup-insert k j new d ∙ ap (λ b. if b then some new else lookup k d) apart ∙ e, p)
]

-- A method that leaves the version such a version.
abbrev Keeps : {A : Type 0} → Key → Method A → Registry → Type 0
Keeps k m g = HasPaper k g.book.versions → HasPaper k (m g).1.book.versions

pub get-HasPaper :
    {B : Type 0} (k : Key) (id version : String) (g : Registry) (f : VersionState → Method B)
    → IsSound g
    → ((v : VersionState)
        → lookup (id, version) g.book.versions ≡ some v
        → key_of v ≡ (id, version)
        → Keeps k (f v) g)
    → HasPaper k g.book.versions
    → HasPaper k (after (get id version g) f).1.book.versions
get-HasPaper k id version g f s step p =
    elim (Option-cases (lookup (id, version) g.book.versions)) [
      | inl h ↦
          subst (λ o. HasPaper k (after o f).1.book.versions) (sym (get-none id version g h)) p
      | inr (v, h) ↦
          subst (λ o. HasPaper k (after o f).1.book.versions) (sym (get-some id version v g h))
            (step v h (s.keyed (id, version) v h) p)
    ]

guarded-HasPaper :
    {A : Type 0} (k : Key) (b : Bool) (now : Datetime) (m : Method A) (g : Registry)
    → (b ≡ true → Keeps k m g)
    → Keeps k (guarded b now m) g
unfolding illegal
guarded-HasPaper k true now m g step p = step refl p
guarded-HasPaper k false now m g step p = p

pub if_HasPaper :
    {A : Type 0} (k : Key) (b : Bool) (m n : Method A) (g : Registry)
    → Keeps k m g
    → Keeps k n g
    → Keeps k (if b then m else n) g
if_HasPaper k true m n g h j p = h p
if_HasPaper k false m n g h j p = j p

pub transition-HasPaper :
    (k : Key) (id version : String) (to : Stage) (reason : String) (actor : Actor)
    (metrics : Dict String Metric) (now : Datetime) (g : Registry)
    → IsSound g
    → Keeps k (transition id version to reason actor metrics now) g
unfolding transition
transition-HasPaper k id version to reason actor metrics now g s =
    get-HasPaper k id version g _ s (λ v h key.
      guarded-HasPaper k (legal v to actor) now (record_change v to reason actor metrics now) g
        (λ l p.
          let known = ap (λ j. lookup j g.book.versions) key ∙ h in
          subst (λ x. HasPaper k x.1.book.versions)
            (sym (record_change_lem v v to reason actor metrics now g known))
            (put-HasPaper k (key_of v) v (moved (stage_record v to reason actor metrics now) v)
              g.book.versions known (λ q. (q.0, legal-IsPaper v to actor q l)) p)))

pub set_profile-HasPaper :
    (k : Key) (p : BacktestProfile) (g : Registry) → IsSound g → Keeps k (set_profile p) g
unfolding set_profile write apply
set_profile-HasPaper k p g s =
    get-HasPaper k p.strategy_id p.strategy_version g (λ v. write (profile_of p)) s
      (λ v h key has.
        subst
          (λ o.
            HasPaper k
              (set_book (change (p.strategy_id, p.strategy_version) (with_profile p) o g.book)
                (logged (profile_of p) g)).1.book.versions)
          (sym h)
          (put-HasPaper k (p.strategy_id, p.strategy_version) v (with_profile p v) g.book.versions h
            (λ q. q) has))

after-HasPaper :
    {A B : Type 0} (k : Key) (o : Result Failure A × Registry) (f : A → Method B)
    → HasPaper k o.1.book.versions
    → ((a : A) → Keeps k (f a) o.1)
    → HasPaper k (after o f).1.book.versions
after-HasPaper k (ok a, g) f p step = step a p
after-HasPaper k (err e, g) f p step = p

found-HasPaper : (k : Key) (o : Option VersionState) (g : Registry) → Keeps k (found o) g
found-HasPaper k none g p = p
found-HasPaper k (some v) g p = p

maybe_profile-HasPaper :
    (k : Key) (p : Option BacktestProfile) (g : Registry) → IsSound g → Keeps k (maybe_profile p) g
maybe_profile-HasPaper k none g s p = p
maybe_profile-HasPaper k (some prof) g s p = set_profile-HasPaper k prof g s p

-- a version under a name that is not there is another one
new-HasPaper :
    (k j : Key) (new : VersionState) (d : Dict Key VersionState)
    → has_key j d ≡ false
    → HasPaper k d
    → HasPaper k (insert j new d)
new-HasPaper k j new d h (w, e, p) = elim (Bool-cases (j == k)) [
  | inl same ↦
      elim (true≢false
        (sym (ap known (ap (λ i. lookup i d) ((pair_eq.beq_iff j k).0 same) ∙ e)) ∙ h)) [ ]
  | inr apart ↦
      (w, lookup-insert k j new d ∙ ap (λ b. if b then some new else lookup k d) apart ∙ e, p)
]
  where
    known : Option VersionState → Bool
    known o = elim o [ none ↦ false | some v ↦ true ]

    true≢false : ◌≡◌ {A = Bool} true false → ⊥
    true≢false q = cc

new_or_raise :
    (k : Key) (b : Bool) (n : Method VersionState) (g : Registry)
    → (b ≡ false → Keeps k n g)
    → Keeps k (if b then raise value_error else n) g
new_or_raise k true n g step p = p
new_or_raise k false n g step p = step refl p

pub submit-HasPaper :
    (k : Key) (info : VersionInfo) (p : Option BacktestProfile) (now : Datetime) (g : Registry)
    → IsSound g
    → Keeps k (submit_candidate info p now) g
unfolding submit_candidate get write apply
submit-HasPaper k info p now g s =
    new_or_raise k (has_key (info.strategy_id, info.version) g.book.versions)
      (write (strategy_version info now) then λ u.
        maybe_profile p then λ w. get info.strategy_id info.version)
      g
      (λ absent has.
        let g1 = (write (strategy_version info now) g).1 in
        after-HasPaper k (maybe_profile p g1) (λ w. get info.strategy_id info.version)
          (maybe_profile-HasPaper k p g1
            (write-put-Grows (strategy_version info now) (info.strategy_id, info.version)
              (first_state info now) g refl refl s).sound
            (new-HasPaper k (info.strategy_id, info.version) (first_state info now) g.book.versions
              absent has))
          (λ w. found-HasPaper k _ _))
