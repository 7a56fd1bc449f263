-- ===== src/Execution/Quotes.antt =====
-- `QuoteBook` of packages/execution/src/autotrader/execution/quotes.py. The age limit is in
-- microseconds.
use kometa.Prelude.{
  ℕ, ◌-◌, ◌≤◌, ◌≡◌, ◌∙◌, inl, inr, Bool, true, String, Option, none, some, List, [], ◌∷◌, ◌++◌, ltb,
  leb, leb→le, ◌==◌, string_eq, if◌then◌else◌, arith, Option-cases, Bool-cases, beq_refl,
}
use kometa.Prelude.Dict.{Dict, lookup, insert, lookup-insert}
use kometa.Core.Time.{Datetime}
use kometa.Core.Broker.{Quote}

abbrev pub Quotes : Type 0
Quotes = Dict String Quote

-- `prev is None or q.time >= prev.time`
abbrev pub supersedes : Quote → Option Quote → Bool
supersedes q none = true
supersedes q (some prev) = leb prev.time q.time

unfoldable pub update : Quote → Quotes → Quotes
update q d = if supersedes q (lookup q.symbol d) then insert q.symbol q d else d

abbrev if_fresh : Datetime → ℕ → Option Quote → Option Quote
if_fresh now max_age none = none
if_fresh now max_age (some q) = if ltb max_age (now - q.time) then none else some q

unfoldable pub fresh_quote : String → Datetime → ℕ → Quotes → Option Quote
fresh_quote symbol now max_age d = if_fresh now max_age (lookup symbol d)

unfoldable pub update_all : List Quote → Quotes → Quotes
update_all [] d = d
update_all (q ∷ qs) d = update_all qs (update q d)

lookup-update :
    (symbol : String) (q : Quote) (d : Quotes)
    → lookup symbol (update q d) ≡ (
        if q.symbol == symbol
        then (if supersedes q (lookup symbol d) then some q else lookup symbol d)
        else lookup symbol d)
unfolding update
lookup-update symbol q d = ground (
  arith,
  string_eq.beq_iff q.symbol symbol,
  lookup-insert symbol q.symbol q d,
  Option-cases (lookup q.symbol d),
)

-- An update leaves a quote of its symbol that is no older than the update's and the one before.
update_newer :
    (symbol : String) (q r : Quote) (d : Quotes)
    → lookup symbol d ≡ some r
    → (s : Quote) × (lookup symbol (update q d) ≡ some s) × (r.time ≤ s.time)
update_newer symbol q r d h = elim (Bool-cases (q.symbol == symbol)) [
  | inr e ↦ (r, lookup-update symbol q d ∙ ground (arith, h), omega arith)
  | inl e ↦ elim (Bool-cases (leb r.time q.time)) [
    | inl f ↦ (q, lookup-update symbol q d ∙ ground (arith, h), leb→le r.time q.time f)
    | inr f ↦ (r, lookup-update symbol q d ∙ ground (arith, h), omega arith)
  ]
]

update_all_newer :
    (symbol : String) (qs : List Quote) (r : Quote) (d : Quotes)
    → lookup symbol d ≡ some r
    → (s : Quote) × (lookup symbol (update_all qs d) ≡ some s) × (r.time ≤ s.time)
unfolding update_all
update_all_newer symbol [] r d h = (r, h, omega arith)
update_all_newer symbol (q ∷ qs) r d h =
    let (s, found, newer) = update_newer symbol q r d h in
    let (t, held, newest) = update_all_newer symbol qs s (update q d) found in
    (t, held, omega arith)

updated :
    (q : Quote) (d : Quotes)
    → (s : Quote) × (lookup q.symbol (update q d) ≡ some s) × (q.time ≤ s.time)
updated q d = elim (Option-cases (lookup q.symbol d)) [
  | inl e ↦ (q, lookup-update q.symbol q d ∙ ground (arith, e, beq_refl q.symbol), omega arith)
  | inr (r, e) ↦ elim (Bool-cases (leb r.time q.time)) [
    | inl f ↦ (q, lookup-update q.symbol q d ∙ ground (arith, e, beq_refl q.symbol), omega arith)
    | inr f ↦ (r, lookup-update q.symbol q d ∙ ground (arith, e, beq_refl q.symbol), ground arith)
  ]
]

-- The book never steps back: once a quote has come, in whatever order with others, the book holds a
-- quote of its symbol that is no older.
pub update_all_newest :
    (before after : List Quote) (q : Quote) (d : Quotes)
    → (s : Quote) × (lookup q.symbol (update_all (before ++ q ∷ after) d) ≡ some s)
      × (q.time ≤ s.time)
unfolding update_all
update_all_newest [] after q d =
    let (r, found, newer) = updated q d in
    let (s, held, newest) = update_all_newer q.symbol after r (update q d) found in
    (s, held, omega arith)
update_all_newest (p ∷ before) after q d = update_all_newest before after q (update p d)
