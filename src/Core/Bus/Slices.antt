-- ===== src/Core/Bus/Slices.antt =====
-- Parts of lists, and a dictionary after an assignment, as the bus needs them.
use kometa.Prelude.Dict.{Dict, lookup, lookup-insert, insert, get_or}
use kometa.Prelude.{
  Option, none, some, Eq, inr, inl, Bool-cases, ℕ, ◌+◌, ◌≤◌, ◌≡◌, ◌∙◌, refl, sym, ap, zero, suc,
  List, [], ◌∷◌, ◌++◌, arith, length, take, drop, if◌then◌else◌, ◌==◌,
}

module _ {A : Type 0} where
  pub append_nil : (xs : List A) → xs ++ [] ≡ xs
  append_nil [] = refl
  append_nil (x ∷ xs) = ap (λ r. x ∷ r) (append_nil xs)

  pub append_assoc : (xs ys zs : List A) → (xs ++ ys) ++ zs ≡ xs ++ (ys ++ zs)
  append_assoc [] ys zs = refl
  append_assoc (x ∷ xs) ys zs = ap (λ r. x ∷ r) (append_assoc xs ys zs)

  pub take_append : (c : ℕ) (xs ys : List A) → c ≤ length xs → take c (xs ++ ys) ≡ take c xs
  take_append zero xs ys h = refl
  take_append (suc c) [] ys h = elim (past_end h) [ ]
    where
      past_end : suc c ≤ 0 → ⊥
      past_end h = omega arith
  take_append (suc c) (x ∷ xs) ys h = ap (λ r. x ∷ r) (take_append c xs ys (omega arith))

  take_all : (n : ℕ) (xs : List A) → take (length (take n xs)) xs ≡ take n xs
  take_all zero xs = refl
  take_all (suc n) [] = refl
  take_all (suc n) (x ∷ xs) = ap (λ r. x ∷ r) (take_all n xs)

  abbrev nothing : List A
  nothing = []

  pub take_none : (n : ℕ) → take n nothing ≡ []
  take_none zero = refl
  take_none (suc n) = refl

  pub take_more :
      (c n : ℕ) (xs : List A)
      → take (c + length (take n (drop c xs))) xs ≡ take c xs ++ take n (drop c xs)
  take_more zero n xs = ap (λ i. take i xs) (zero_plus (length (take n xs))) ∙ take_all n xs
    where
      zero_plus : (l : ℕ) → 0 + l ≡ l
      zero_plus l = omega arith
  take_more (suc c) n [] = take_none (suc c + length (take n nothing)) ∙ sym (take_none n)
  take_more (suc c) n (x ∷ xs) =
      ap (λ i. take i (x ∷ xs)) (suc_plus c (length (take n (drop c xs))))
      ∙ ap (λ r. x ∷ r) (take_more c n xs)
    where
      suc_plus : (c l : ℕ) → suc c + l ≡ suc (c + l)
      suc_plus c l = omega arith

  pub drop_past : (c : ℕ) (xs : List A) → length xs ≤ c → drop c xs ≡ []
  drop_past zero [] h = refl
  drop_past zero (x ∷ xs) h = elim (past_end h) [ ]
    where
      past_end : suc (length xs) ≤ 0 → ⊥
      past_end h = omega arith
  drop_past (suc c) [] h = refl
  drop_past (suc c) (x ∷ xs) h = drop_past c xs (omega arith)

  pub length-take : (n : ℕ) (xs : List A) → length (take n xs) ≤ length xs
  length-take zero xs = omega arith
  length-take (suc n) [] = omega arith
  length-take (suc n) (x ∷ xs) = omega (arith, length-take n xs)

pub get_or-insert :
    {K V : Type 0} ⦃e : Eq K⦄ (j k : K) (v default : V) (d : Dict K V)
    → get_or j default (insert k v d) ≡ (if k == j then v else get_or j default d)
get_or-insert {V} j k v default d = elim (Bool-cases (k == j)) [
  | inl h ↦
      ap value (lookup-insert j k v d ∙ ap (λ c. if c then some v else lookup j d) h)
      ∙ sym (ap (λ c. if c then v else get_or j default d) h)
  | inr h ↦
      ap value (lookup-insert j k v d ∙ ap (λ c. if c then some v else lookup j d) h)
      ∙ sym (ap (λ c. if c then v else get_or j default d) h)
]
  where
    value : Option V → V
    value o = elim o [ none ↦ default | some w ↦ w ]
