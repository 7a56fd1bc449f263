-- ===== src/Execution/Kept.antt =====
-- The tracked orders of packages/execution/src/autotrader/execution/journal.py while the order manager
-- works on them, before against after.
use kometa.Execution.Later.{AsTight, AsTight-refl, Later, Later-refl, Later-trans}
use Prim.{Unit, tt}
use mathlib.Core.Path.{subst}
use kometa.Prelude.{
  false, ◌⊎◌, ◌≡◌, arith, refl, sym, ap, ◌∙◌, inl, inr, true, String, Option, some, none, [], ◌∷◌,
  ◌==◌, string_eq, Bool, Bool-cases, if◌then◌else◌, some_inj,
}
use kometa.Prelude.Dict.{Dict, lookup, insert, lookup-insert}
use kometa.Execution.Journal.{TrackedOrder, first_order}
use kometa.Execution.World.{adjust}

-- `d` has the order `t`, later
unfoldable pub Found : String → TrackedOrder → Dict String TrackedOrder → Type 0
Found coid t d = (u : TrackedOrder) × ((lookup coid d ≡ some u) × Later t u)

-- Each order stands under its own name, once.
unfoldable pub Keyed : Dict String TrackedOrder → Type 0
Keyed [] = Unit {0}
Keyed ((k, o) ∷ d) = (o.client_order_id ≡ k) × ((lookup k d ≡ none) × Keyed d)

-- The orders of `d` are all there in `e`, later; orders under their names stay under their names.
pub record Kept (d e : Dict String TrackedOrder) : Type 0 where
  pub found : (coid : String) (t : TrackedOrder) → lookup coid d ≡ some t → Found coid t e
  pub keyed : Keyed d → Keyed e

pub Kept-refl : (d : Dict String TrackedOrder) → Kept d d
unfolding Found
Kept-refl d = record { found = λ coid t h. (t, (h, Later-refl t)); keyed = λ h. h }

later_still :
    (coid : String) (t : TrackedOrder) (d e : Dict String TrackedOrder)
    → Found coid t d
    → Kept d e
    → Found coid t e
unfolding Found
later_still coid t d e (u, (h, l)) k =
    let (y, (f, m)) = k.found coid u h in (y, (f, Later-trans t u y l m))

pub Kept-trans : (c d e : Dict String TrackedOrder) → Kept c d → Kept d e → Kept c e
Kept-trans c d e h k = record {
  found = λ coid t f. later_still coid t d e (h.found coid t f) k;
  keyed = λ f. k.keyed (h.keyed f);
}

cons_found :
    (i : String) (v x : TrackedOrder) (d e : Dict String TrackedOrder)
    → Later v x
    → ((coid : String) (t : TrackedOrder) → lookup coid d ≡ some t → Found coid t e)
    → (coid : String) (t : TrackedOrder) → lookup coid ((i, v) ∷ d) ≡ some t
    → Found coid t ((i, x) ∷ e)
unfolding Found
cons_found i v x d e l k j t h = elim (Bool-cases (i == j)) [
  | inl b ↦ (
    x,
    (
      ap (λ c. if c then some x else lookup j e) b,
      subst (λ y. Later y x) (some_inj (sym (ap (λ c. if c then some v else lookup j d) b) ∙ h)) l,
    ),
  )
  | inr b ↦
      let (u, (f, m)) = k j t (sym (ap (λ c. if c then some v else lookup j d) b) ∙ h) in
      (u, (ap (λ c. if c then some x else lookup j e) b ∙ f, m))
]

lookup-adjust-none :
    (j k : String) (f : TrackedOrder → TrackedOrder) (d : Dict String TrackedOrder)
    → lookup j d ≡ none
    → lookup j (adjust k f d) ≡ none
lookup-adjust-none j k f [] h = h
lookup-adjust-none j k f ((i, v) ∷ d) h = ground (arith, lookup-adjust-none j k f d)

adjust_found :
    (k : String) (f : TrackedOrder → TrackedOrder) (d : Dict String TrackedOrder)
    → ((t : TrackedOrder) → lookup k d ≡ some t → Later t (f t))
    → (coid : String) (t : TrackedOrder) → lookup coid d ≡ some t
    → Found coid t (adjust k f d)
adjust_found k f [] l = (Kept-refl []).found
adjust_found k f ((i, v) ∷ d) l = elim (Bool-cases (i == k)) [
  | inl e ↦
      subst
        (λ c.
          (coid : String) (t : TrackedOrder)
          → lookup coid ((i, v) ∷ d) ≡ some t
          → Found coid t (if c then (i, f v) ∷ d else (i, v) ∷ adjust k f d))
        (sym e)
        (cons_found i v (f v) d d (l v (ap (λ c. if c then some v else lookup k d) e))
          (Kept-refl d).found)
  | inr e ↦
      subst
        (λ c.
          (coid : String) (t : TrackedOrder)
          → lookup coid ((i, v) ∷ d) ≡ some t
          → Found coid t (if c then (i, f v) ∷ d else (i, v) ∷ adjust k f d))
        (sym e)
        (cons_found i v v d (adjust k f d) (Later-refl v)
          (adjust_found k f d (λ t h. l t (ap (λ c. if c then some v else lookup k d) e ∙ h))))
]

adjust-Keyed :
    (k : String) (f : TrackedOrder → TrackedOrder) (d : Dict String TrackedOrder)
    → ((t : TrackedOrder) → lookup k d ≡ some t → Later t (f t))
    → Keyed d
    → Keyed (adjust k f d)
unfolding Keyed
adjust-Keyed k f [] l h = h
adjust-Keyed k f ((i, v) ∷ d) l h = elim (Bool-cases (i == k)) [
  | inl e ↦
      subst (λ c. Keyed (if c then (i, f v) ∷ d else (i, v) ∷ adjust k f d)) (sym e)
        ((l v (ap (λ c. if c then some v else lookup k d) e)).same_key ∙ h.0, (h.1.0, h.1.1))
  | inr e ↦
      subst (λ c. Keyed (if c then (i, f v) ∷ d else (i, v) ∷ adjust k f d)) (sym e)
        (
          h.0,
          (
            lookup-adjust-none i k f d h.1.0,
            adjust-Keyed k f d (λ t g. l t (ap (λ c. if c then some v else lookup k d) e ∙ g))
                h.1.1,
          ),
        )
]

pub adjust-Kept :
    (k : String) (f : TrackedOrder → TrackedOrder) (d : Dict String TrackedOrder)
    → ((t : TrackedOrder) → lookup k d ≡ some t → Later t (f t))
    → Kept d (adjust k f d)
adjust-Kept k f d l = record { found = adjust_found k f d l; keyed = adjust-Keyed k f d l }

IsThere : {A : Type 0} → Option A → Type 0
IsThere none = ⊥
IsThere (some t) = Unit {0}

pub none-some : {A : Type 0} (t : A) → none ≡ some t → ⊥
unfolding IsThere
none-some t h = subst IsThere (sym h) tt

insert_found :
    (k : String) (v : TrackedOrder) (d : Dict String TrackedOrder)
    → lookup k d ≡ none
    → (coid : String) (t : TrackedOrder) → lookup coid d ≡ some t
    → Found coid t (insert k v d)
unfolding Found
insert_found k v d h j t e = elim (Bool-cases (k == j)) [
  | inl b ↦
      elim (none-some t (sym h ∙ (ap (λ x. lookup x d) ((string_eq.beq_iff k j).0 b) ∙ e))) [ ]
  | inr b ↦ (
    t,
    (lookup-insert j k v d ∙ (ap (λ c. if c then some v else lookup j d) b ∙ e), Later-refl t),
  )
]

insert-Keyed :
    (k : String) (v : TrackedOrder) (d : Dict String TrackedOrder)
    → lookup k d ≡ none
    → v.client_order_id ≡ k
    → Keyed d
    → Keyed (insert k v d)
unfolding Keyed
insert-Keyed k v [] h e g = (e, (refl, tt))
insert-Keyed k v ((i, x) ∷ d) h e g = elim (Bool-cases (i == k)) [
  | inl b ↦ elim (none-some x (sym h ∙ ap (λ c. if c then some x else lookup k d) b)) [ ]
  | inr b ↦
      subst (λ c. Keyed (if c then (i, v) ∷ d else (i, x) ∷ insert k v d)) (sym b)
        (
          g.0,
          (
            ground (
              arith,
              string_eq.beq_iff i k,
              string_eq.beq_iff k i,
              lookup-insert i k v d,
              g.1.0,
              b,
            ),
            insert-Keyed k v d (sym (ap (λ c. if c then some x else lookup k d) b) ∙ h) e g.1.1,
          ),
        )
]

pub insert-Kept :
    (k : String) (v : TrackedOrder) (d : Dict String TrackedOrder)
    → lookup k d ≡ none
    → v.client_order_id ≡ k
    → Kept d (insert k v d)
insert-Kept k v d h e = record { found = insert_found k v d h; keyed = insert-Keyed k v d h e }

-- The order that a search of the journal finds stands under its own name.
pub lookup-first_order :
    (p : TrackedOrder → Bool) (d : Dict String TrackedOrder) (t : TrackedOrder)
    → Keyed d
    → first_order p d ≡ some t
    → lookup t.client_order_id d ≡ some t
unfolding Keyed
lookup-first_order p [] t h e = elim (none-some t e) [ ]
lookup-first_order p ((k, o) ∷ d) t h e = elim (Bool-cases (p o)) [
  | inl b ↦ head_here (some_inj (sym (ap (λ c. if c then some o else first_order p d) b) ∙ e))
  | inr b ↦
      past_head
        (lookup-first_order p d t h.1.1
          (sym (ap (λ c. if c then some o else first_order p d) b) ∙ e))
        (Bool-cases (k == t.client_order_id))
]
  where
    head_here : o ≡ t → lookup t.client_order_id ((k, o) ∷ d) ≡ some t
    head_here q =
        ap (λ c. if c then some o else lookup t.client_order_id d)
          ((string_eq.beq_iff k t.client_order_id).1 (sym h.0 ∙ ap (λ x. x.client_order_id) q))
        ∙ ap (λ x. some x) q

    past_head :
        lookup t.client_order_id d ≡ some t
        → ((k == t.client_order_id) ≡ true) ⊎ ((k == t.client_order_id) ≡ false)
        → lookup t.client_order_id ((k, o) ∷ d) ≡ some t
    past_head r (inl c) =
        elim (none-some t (
          sym h.1.0 ∙ (ap (λ x. lookup x d) ((string_eq.beq_iff k t.client_order_id).0 c) ∙ r))) [ ]
    past_head r (inr c) = ap (λ x. if x then some o else lookup t.client_order_id d) c ∙ r

pub if_Later :
    (b : Bool) (t u v : TrackedOrder) → Later t u → Later t v → Later t (if b then u else v)
if_Later true t u v h k = h
if_Later false t u v h k = k

-- The move of a tracked order in place, from its state or its place at the broker to another.
pub moved :
    (t u : TrackedOrder)
    → u.client_order_id ≡ t.client_order_id
    → u.intent_id ≡ t.intent_id
    → u.side ≡ t.side
    → u.symbol ≡ t.symbol
    → u.magic ≡ t.magic
    → u.sl ≡ t.sl
    → Later t u
moved t u a b c d e f = record {
  same_key = a;
  same_intent = b;
  same_side = c;
  same_symbol = d;
  same_magic = e;
  stop = subst (λ x. AsTight t.side t.sl x) (sym f) (AsTight-refl t.side t.sl);
}
