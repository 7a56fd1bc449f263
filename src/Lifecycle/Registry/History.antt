-- ===== src/Lifecycle/Registry/History.antt =====
-- The ledger of the registry: how a call changes it, against the state that its replay gives.
use kometa.Prelude.{
  ◌≡◌, refl, sym, ◌∙◌, ap, inl, inr, String, some, List, [], ◌∷◌, ◌++◌, ◌==◌, string_eq, pair_eq,
  if◌then◌else◌, ok, ◌>>=◌, Bool-cases, some_inj, ok-injective, >>=-eq-ok,
}
use mathlib.Core.Path.{subst}
use kometa.Prelude.Dict.{Dict, lookup, insert, lookup-insert}
use kometa.Core.Time.{Datetime}
use kometa.Core.Models.{Stage, stage_eq}
use kometa.Lifecycle.Ladder.{VersionState, StageRecord, Key, key_of, Actor, Metric, LadderAlert}
use kometa.Lifecycle.Registry.{
  Registry, Book, no_book, Entry, stage_change, swap_test, alarm, record_change, stage_record,
  write, set_book, logged, apply, change, replay, put, moved, record_swap_test,
}
use kometa.Lifecycle.Registry.Moves.{record_change_lem}

abbrev pub IsKnown : Key → Registry → Type 0
IsKnown k g = (v : VersionState) × (lookup k g.book.versions ≡ some v)

-- The state is the replay of the ledger, and each version is stored under its own name.
pub record IsSound (g : Registry) : Type 0 where
  pub replayed : replay g.ledger no_book ≡ ok g.book
  pub keyed : (k : Key) (v : VersionState) → lookup k g.book.versions ≡ some v → key_of v ≡ k

-- What a call leaves: a sound registry, whose ledger extends the one before.
pub record Grows (g g' : Registry) : Type 0 where
  pub sound : IsSound g'
  pub extends : (more : List Entry) × (g'.ledger ≡ g.ledger ++ more)
  pub known : (k : Key) → IsKnown k g → IsKnown k g'

append_nil : (xs : List Entry) → xs ≡ xs ++ []
append_nil [] = refl
append_nil (x ∷ xs) = ap (◌∷◌ x) (append_nil xs)

append_assoc : (xs ys zs : List Entry) → (xs ++ ys) ++ zs ≡ xs ++ (ys ++ zs)
append_assoc [] ys zs = refl
append_assoc (x ∷ xs) ys zs = ap (◌∷◌ x) (append_assoc xs ys zs)

pub Grows-refl : (g : Registry) → IsSound g → Grows g g
Grows-refl g s = record { sound = s; extends = ([], append_nil g.ledger); known = λ k h. h }

pub Grows-trans : (f g h : Registry) → Grows f g → Grows g h → Grows f h
Grows-trans f g h a b = record {
  sound = b.sound;
  extends = (
    a.extends.0 ++ b.extends.0,
    b.extends.1
        ∙ ap (λ xs. xs ++ b.extends.0) a.extends.1
        ∙ append_assoc f.ledger a.extends.0 b.extends.0,
  );
  known = λ k x. b.known k (a.known k x);
}

replay-append :
    (es : List Entry) (e : Entry) (b c d : Book)
    → replay es b ≡ ok c
    → apply e c ≡ ok d
    → replay (es ++ e ∷ []) b ≡ ok d
unfolding replay
replay-append [] e b c d h k = ap (λ o. o >>= replay []) (ap (apply e) (ok-injective h) ∙ k)
replay-append (x ∷ es) e b c d h k =
    let (b', p, q) = >>=-eq-ok (apply x b) (replay es) h in
    ap (λ o. o >>= replay (es ++ e ∷ [])) p ∙ replay-append es e b' c d q k

IsKnown-put :
    (k j : Key) (v : VersionState) (g : Registry) (xs : List Entry)
    → IsKnown j g
    → IsKnown j (record g { ledger = xs; book = put k v g.book })
IsKnown-put k j v g xs (w, h) = elim (Bool-cases (k == j)) [
  | inl e ↦ (
    v,
    lookup-insert j k v g.book.versions
        ∙ ap (λ b. if b then some v else lookup j g.book.versions) e,
  )
  | inr e ↦ (
    w,
    lookup-insert j k v g.book.versions
        ∙ ap (λ b. if b then some v else lookup j g.book.versions) e
        ∙ h,
  )
]

keyed_put :
    (k : Key) (v : VersionState) (d : Dict Key VersionState)
    → key_of v ≡ k
    → ((j : Key) (w : VersionState) → lookup j d ≡ some w → key_of w ≡ j)
    → (j : Key) (w : VersionState) → lookup j (insert k v d) ≡ some w
    → key_of w ≡ j
keyed_put k v d key keyed j w h = elim (Bool-cases (k == j)) [
  | inl e ↦
      ap key_of (
        sym (
          some_inj
            (ap (λ b. if b then some v else lookup j d) (sym e) ∙ sym (lookup-insert j k v d) ∙ h)))
      ∙ key
      ∙ (pair_eq.beq_iff k j).0 e
  | inr e ↦
      keyed j w
        (ap (λ b. if b then some v else lookup j d) (sym e) ∙ sym (lookup-insert j k v d) ∙ h)
]

-- One record that stores `v` under its name.
put-Grows :
    (e : Entry) (k : Key) (v : VersionState) (g : Registry)
    → apply e g.book ≡ ok (put k v g.book)
    → key_of v ≡ k
    → IsSound g
    → Grows g (record g { ledger = g.ledger ++ e ∷ []; book = put k v g.book })
put-Grows e k v g h key s = record {
  sound = record {
    replayed = replay-append g.ledger e no_book g.book (put k v g.book) s.replayed h;
    keyed = keyed_put k v g.book.versions key s.keyed;
  };
  extends = (e ∷ [], refl);
  known = λ j. IsKnown-put k j v g (g.ledger ++ e ∷ []);
}

pub write-put-Grows :
    (e : Entry) (k : Key) (v : VersionState) (g : Registry)
    → apply e g.book ≡ ok (put k v g.book)
    → key_of v ≡ k
    → IsSound g
    → Grows g (write e g).1
unfolding write
write-put-Grows e k v g h key s =
    subst (λ o. Grows g (set_book o (logged e g)).1) (sym h) (put-Grows e k v g h key s)

pub swap_test-Grows :
    (payload : String) (g : Registry) → IsSound g → Grows g (record_swap_test payload g).1
unfolding record_swap_test write apply
swap_test-Grows payload g s = record {
  sound = record {
    replayed = replay-append g.ledger (swap_test payload) no_book g.book _ s.replayed refl;
    keyed = s.keyed;
  };
  extends = (swap_test payload ∷ [], refl);
  known = λ j h. h;
}

pub record_change-Grows :
    (v : VersionState) (to : Stage) (reason : String) (actor : Actor) (metrics : Dict String Metric)
    (now : Datetime) (g : Registry)
    → IsKnown (key_of v) g
    → IsSound g
    → Grows g (record_change v to reason actor metrics now g).1
unfolding apply
record_change-Grows v to reason actor metrics now g (w, h) s =
    subst (λ x. Grows g x.1) (sym (record_change_lem v w to reason actor metrics now g h))
      (record {
        sound = record { replayed = base.sound.replayed; keyed = base.sound.keyed };
        extends = base.extends;
        known = base.known;
      })
  where
    rec : StageRecord
    rec = stage_record v to reason actor metrics now

    base : Grows g (record g {
      ledger = g.ledger ++ stage_change rec ∷ [];
      book = put (key_of v) (moved rec w) g.book;
    })
    base =
        put-Grows (stage_change rec) (key_of v) (moved rec w) g
          (ap (λ o. change (key_of v) (moved rec) o g.book) h) (s.keyed (key_of v) w h) s

pub alarm-Grows : (a : LadderAlert) (g : Registry) → IsSound g → Grows g (alarm a g)
alarm-Grows a g s = record {
  sound = record { replayed = s.replayed; keyed = s.keyed };
  extends = ([], append_nil g.ledger);
  known = λ k h. h;
}
