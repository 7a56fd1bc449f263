-- ===== src/Core/Ledger/Chain.antt =====
-- The chain of a ledger: appends, and records that were changed.
use kometa.Prelude.{
  ℕ, ◌+◌, ◌<◌, ◌≡◌, ◌≢◌, ◌⊎◌, if◌then◌else◌, refl, sym, ◌∙◌, ap, inl, inr, true, String, Option,
  none, some, List, [], ◌∷◌, ◌++◌, ok, err, ◌==◌, nat_eq, string_eq, arith, Bool-cases, beq_refl,
  length,
}
use mathlib.Core.Path.{subst}
use kometa.Core.Time.{Datetime}
use kometa.Core.Ledger.{
  LedgerEnv, Ledger, Line, Body, genesis, file_size, last_of, last_hash, cached, next_line, append,
  foreign, fits, walk, verify_chain, broken_at,
}

file_size-append :
    (k : LedgerEnv) (xs ys : List Line) → file_size k (xs ++ ys) ≡ file_size k xs + file_size k ys
unfolding file_size
file_size-append k [] ys = omega arith
file_size-append k (x ∷ xs) ys = omega (arith, file_size-append k xs ys)

append_nil : (xs : List Line) → xs ≡ xs ++ []
append_nil [] = refl
append_nil (x ∷ xs) = ap (◌∷◌ x) (append_nil xs)

append_assoc : (xs ys zs : List Line) → (xs ++ ys) ++ zs ≡ xs ++ (ys ++ zs)
append_assoc [] ys zs = refl
append_assoc (x ∷ xs) ys zs = ap (◌∷◌ x) (append_assoc xs ys zs)

last_of-append : (p : String) (xs : List Line) (l : Line) → last_of p (xs ++ l ∷ []) ≡ l.hash
unfolding last_of
last_of-append p [] l = refl
last_of-append p (x ∷ xs) l = last_of-append x.hash xs l

module _ (k : LedgerEnv) where
  -- The cached hash is that of a file which the present one extends.
  abbrev pub Cached : List Line → Option (ℕ × String) → Type 0
  Cached lines none = genesis ≡ genesis
  Cached lines (some (n, h)) =
      (old : List Line) × (new : List Line) × (lines ≡ old ++ new)
      × (n ≡ file_size k old)
      × (h ≡ last_of genesis old)

  walk-append :
      (p : String) (n m : ℕ) (xs : List Line) (l : Line)
      → walk k p n xs ≡ ok m
      → fits k (last_of p xs) l ≡ true
      → walk k p n (xs ++ l ∷ []) ≡ ok (m + 1)
  unfolding walk last_of
  walk-append p n m [] l h f = ground arith
  walk-append p n m (x ∷ xs) l h f = elim (Bool-cases (fits k p x)) [
    | inl e ↦ rw e (walk-append x.hash (n + 1) m xs l (rw e at h) f)
    | inr e ↦ ground arith
  ]

  fits_parts :
      (p : String) (l : Line) → fits k p l ≡ true → (l.prev_hash ≡ p) × (l.hash ≡ k.link p l.body)
  fits_parts p l h =
      ground (arith, string_eq.beq_iff l.prev_hash p, string_eq.beq_iff l.hash (k.link p l.body))

  walk_parts :
      (p : String) (n m : ℕ) (l : Line) (ls : List Line)
      → walk k p n (l ∷ ls) ≡ ok m
      → (fits k p l ≡ true) × (walk k l.hash (n + 1) ls ≡ ok m)
  unfolding walk
  walk_parts p n m l ls h = elim (Bool-cases (fits k p l)) [
    | inl e ↦ (e, rw e at h)
    | inr e ↦ ground arith
  ]

  -- another record that fits as well, in a chain that goes on from it
  fits_same :
      (p : String) (l forged next : Line)
      → (k.link p forged.body ≡ k.link p l.body → forged.body ≡ l.body)
      → fits k p l ≡ true
      → fits k l.hash next ≡ true
      → fits k p forged ≡ true
      → fits k forged.hash next ≡ true
      → forged ≡ l
  fits_same p l forged next no_collision a b c d =
      let (prev, hash) = fits_parts p l a in
      let (prev', hash') = fits_parts p forged c in
      let same : forged.hash ≡ l.hash =
        sym (fits_parts forged.hash next d).0 ∙ (fits_parts l.hash next b).0 in
      let bodies = no_collision (sym hash' ∙ same ∙ hash) in
      λ i. record { body = bodies i; prev_hash = (prev' ∙ sym prev) i; hash = same i }

  -- The walk breaks at the record with the number i, or at the one after it.
  abbrev pub BreaksNear : String → ℕ → List Line → ℕ → Type 0
  BreaksNear p n ls i =
      (walk k p n ls ≡ err (broken_at i)) ⊎ (walk k p n ls ≡ err (broken_at (i + 1)))

  replaced_head :
      (p : String) (n m : ℕ) (after : List Line) (l next forged : Line)
      → (k.link p forged.body ≡ k.link p l.body → forged.body ≡ l.body)
      → walk k p n (l ∷ next ∷ after) ≡ ok m
      → forged ≢ l
      → BreaksNear p n (forged ∷ next ∷ after) n
  unfolding walk
  replaced_head p n m after l next forged no_collision h other =
      let (a, rest) = walk_parts p n m l (next ∷ after) h in
      let (b, tail) = walk_parts l.hash (n + 1) m next after rest in
      elim (Bool-cases (fits k p forged)) [
        | inr c ↦
            inl (
              ap (λ t. if t then walk k forged.hash (n + 1) (next ∷ after) else err (broken_at n))
                c)
        | inl c ↦ elim (Bool-cases (fits k forged.hash next)) [
          | inl d ↦ elim (other (fits_same p l forged next no_collision a b c d)) [ ]
          | inr d ↦ inr (
              ap (λ t. if t then walk k forged.hash (n + 1) (next ∷ after) else err (broken_at n)) c
              ∙ ap (λ t. if t then walk k next.hash (n + 1 + 1) after else err (broken_at (n + 1)))
                  d)
        ]
      ]

  BreaksNear-cons :
      (p : String) (n i j : ℕ) (x : Line) (ls : List Line)
      → fits k p x ≡ true
      → i ≡ j
      → BreaksNear x.hash (n + 1) ls i
      → BreaksNear p n (x ∷ ls) j
  unfolding walk
  BreaksNear-cons p n i j x ls e same (inl b) = inl (
      ap (λ t. if t then walk k x.hash (n + 1) ls else err (broken_at n)) e
      ∙ b
      ∙ ap (λ a. err (broken_at a)) same)
  BreaksNear-cons p n i j x ls e same (inr b) = inr (
      ap (λ t. if t then walk k x.hash (n + 1) ls else err (broken_at n)) e
      ∙ b
      ∙ ap (λ a. err (broken_at (a + 1))) same)

  -- In a verified chain, a record that is not the last is replaced by any other one, its own hash and
  -- its link to the record before made anew as well: the walk breaks at that record or at the next
  -- one, where the hash tells the two contents apart.
  pub walk-replaced :
      (p : String) (n m : ℕ) (before after : List Line) (l next forged : Line)
      → ((q : String) → k.link q forged.body ≡ k.link q l.body → forged.body ≡ l.body)
      → walk k p n (before ++ l ∷ next ∷ after) ≡ ok m
      → forged ≢ l
      → BreaksNear p n (before ++ forged ∷ next ∷ after) (n + length before)
  walk-replaced p n m [] after l next forged no_collision h other =
      subst (BreaksNear p n (forged ∷ next ∷ after)) (plus_zero n)
        (replaced_head p n m after l next forged (no_collision p) h other)
    where
      plus_zero : (n : ℕ) → n ≡ n + 0
      plus_zero n = omega arith
  walk-replaced p n m (x ∷ before) after l next forged no_collision h other =
      let (e, rest) = walk_parts p n m x (before ++ l ∷ next ∷ after) h in
      BreaksNear-cons p n (n + 1 + length before) (n + length (x ∷ before)) x
        (before ++ forged ∷ next ∷ after) e (omega arith)
        (walk-replaced x.hash (n + 1) m before after l next forged no_collision rest other)

  module _ (positive : (l : Line) → 0 < k.size_of l) where
    size_zero : (xs : List Line) → file_size k xs ≡ 0 → xs ≡ []
    unfolding file_size
    size_zero [] h = refl
    size_zero (x ∷ xs) h = elim (absurd_of (positive x)) [ ]
      where
        absurd_of : 0 < k.size_of x → ⊥
        absurd_of q = omega arith

    cached_lem :
        (lines : List Line) (tail : Option (ℕ × String))
        → Cached lines tail
        → cached (file_size k lines) (last_of genesis lines) tail ≡ last_of genesis lines
    cached_lem lines none c = refl
    cached_lem lines (some (n, h)) (old, new, whole, size, hash) =
        elim (Bool-cases (n == file_size k lines)) [
          | inr e ↦ rw e refl
          | inl e ↦ rw e (
              hash
              ∙ ap (last_of genesis)
                  (sym (whole ∙ ap (λ ys. old ++ ys) (nothing e) ∙ sym (append_nil old))))
        ]
      where
        nothing : (n == file_size k lines) ≡ true → new ≡ []
        nothing e = size_zero new (
            omega (
              arith,
              (nat_eq.beq_iff n (file_size k lines)).0 e,
              ap (file_size k) whole,
              file_size-append k old new,
              size,
            ))

    last_hash-Cached :
        (g : Ledger) → Cached g.lines g.tail → last_hash k g ≡ last_of genesis g.lines
    unfolding last_hash
    last_hash-Cached g c = cached_lem g.lines g.tail c

    Cached-grows :
        (lines : List Line) (l : Line) (tail : Option (ℕ × String))
        → Cached lines tail
        → Cached (lines ++ l ∷ []) tail
    Cached-grows lines l none c = refl
    Cached-grows lines l (some (n, h)) (old, new, whole, size, hash) = (
      old,
      new ++ l ∷ [],
      ap (λ ys. ys ++ l ∷ []) whole ∙ append_assoc old new (l ∷ []),
      size,
      hash,
    )

-- An append to the file: by this ledger object, or by another process that follows the same code.
pub data Write : Type 0 where
  own : (kind payload : String) → Datetime → Write
  other : Body → Write

unfoldable pub perform : LedgerEnv → Write → Ledger → Ledger
perform k (own kind payload now) g = (append k kind payload now g).1
perform k (other body) g = foreign (next_line k (last_of genesis g.lines) body) g

unfoldable pub perform_all : LedgerEnv → List Write → Ledger → Ledger
perform_all k [] g = g
perform_all k (w ∷ ws) g = perform_all k ws (perform k w g)

abbrev pub new_ledger : List Line → Ledger
new_ledger lines = record { lines = lines; tail = none }

fits_next : (k : LedgerEnv) (p : String) (b : Body) → fits k p (next_line k p b) ≡ true
fits_next k p b = ground (arith, beq_refl p, beq_refl (k.link p b))

verified_next :
    (k : LedgerEnv) (p : String) (m : ℕ) (b : Body) (lines : List Line)
    → walk k genesis 0 lines ≡ ok m
    → p ≡ last_of genesis lines
    → walk k genesis 0 (lines ++ next_line k p b ∷ []) ≡ ok (m + 1)
verified_next k p m b lines h e =
    walk-append k genesis 0 m lines (next_line k p b) h
      (ap (λ q. fits k q (next_line k p b)) (sym e) ∙ fits_next k p b)

-- From a verified file, any appends by this ledger object and by other processes, in any order, leave a
-- file that `verify` accepts with one more record for each. Every line has some bytes, and the cached
-- tail, if there is one, is that of a part from the start of the file.
pub perform_all-verify_chain :
    (k : LedgerEnv) (positive : (l : Line) → 0 < k.size_of l) (ws : List Write) (m : ℕ) (g : Ledger)
    → verify_chain k g ≡ ok m
    → Cached k g.lines g.tail
    → verify_chain k (perform_all k ws g) ≡ ok (m + length ws)
unfolding verify_chain perform_all perform append
perform_all-verify_chain k positive [] m g h c = h ∙ ap ok (omega arith)
perform_all-verify_chain k positive (own kind payload now ∷ ws) m g h c =
    perform_all-verify_chain k positive ws (m + 1) (append k kind payload now g).1
      (verified_next k (last_hash k g) m _ g.lines h (last_hash-Cached k positive g c))
      (
        g.lines
            ++ next_line k (last_hash k g) (record { kind = kind; at = now; payload = payload })
              ∷ [],
        [],
        append_nil _,
        refl,
        sym (last_of-append genesis g.lines _),
      )
    ∙ ap ok (omega arith)
perform_all-verify_chain k positive (other body ∷ ws) m g h c =
    perform_all-verify_chain k positive ws (m + 1) (perform k (other body) g)
      (verified_next k (last_of genesis g.lines) m body g.lines h refl)
      (Cached-grows k positive g.lines (next_line k (last_of genesis g.lines) body) g.tail c)
    ∙ ap ok (omega arith)
