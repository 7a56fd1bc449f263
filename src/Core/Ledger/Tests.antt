-- ===== src/Core/Ledger/Tests.antt =====
-- A chain of two records, and one of them forged.
use kometa.Prelude.{◌+◌, ◌≡◌, ◌≢◌, ap, String, refl, arith, [], ◌∷◌, ok}
use kometa.Core.Ledger.{LedgerEnv, Line, Body, genesis, verify_chain, next_line, walk}
use kometa.Core.Ledger.Chain.{
  own, other, perform_all, new_ledger, perform_all-verify_chain, walk-replaced, BreaksNear,
}

abbrev env : LedgerEnv
env = record { link = λ prev body. body.payload; size_of = λ l. 1 }

abbrev trial : Body
trial = record { kind = "trial"; at = 5; payload = "a" }

abbrev first : Line
first = next_line env genesis trial

abbrev second : Line
second = next_line env "a" (record trial { payload = "b" })

abbrev third : Line
third = next_line env "b" (record trial { payload = "c" })

-- another content, with a hash of its own
abbrev forged : Line
forged = next_line env "a" (record trial { payload = "better" })

verified : verify_chain env (new_ledger (first ∷ [])) ≡ ok 1
unfolding verify_chain walk
verified = refl

perform_all-verify_chain_example :
    verify_chain env
      (perform_all env (own "trial" "b" 6 ∷ other trial ∷ []) (new_ledger (first ∷ [])))
    ≡ ok (1 + 2)
perform_all-verify_chain_example =
    perform_all-verify_chain env (λ l. omega arith) (own "trial" "b" 6 ∷ other trial ∷ []) 1
      (new_ledger (first ∷ [])) verified refl

chain_verified : walk env genesis 0 (first ∷ second ∷ third ∷ []) ≡ ok 3
unfolding walk
chain_verified = refl

told_apart :
    (q : String) → env.link q forged.body ≡ env.link q second.body → forged.body ≡ second.body
told_apart q e = cc

other_content : forged ≢ second
other_content e = better_b (ap (λ l. l.hash) e)
  where
    better_b : ◌≡◌ {A = String} "better" "b" → ⊥
    better_b e = cc

walk-replaced_example : BreaksNear env genesis 0 (first ∷ forged ∷ third ∷ []) (0 + 1)
walk-replaced_example =
    walk-replaced env genesis 0 3 (first ∷ []) [] second third forged told_apart chain_verified
      other_content
