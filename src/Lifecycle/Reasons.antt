-- ===== src/Lifecycle/Reasons.antt =====
-- The texts of a swap's reasons in packages/lifecycle/src/autotrader/lifecycle/registry.py, and how
-- `last_swap` reads the old champion's version back from one. White space is that of ASCII.
use Prim.Native.Char.{Char, code}
use Prim.Native.String.{◌++◌}
use text.Mathlib.TextLemmas.{nil-append, cons-append}
use kometa.Prelude.{
  ◌≡◌, ◌∙◌, ap, refl, Bool, true, false, ◌&&◌, ◌||◌, String, Option, none, some, nat_beq, leb,
  arith, if◌then◌else◌,
}

abbrev pub swap_in : String
swap_in = "swap: replaces"

abbrev pub swap_out : String
swap_out = "swap: replaced by"

abbrev pub rollback_mark : String
rollback_mark = "rollback:"

-- `s.startswith(p)`, and then `s[len(p):]`
abbrev pub drop_prefix : String → String → Option String
drop_prefix String.[] s = some s
drop_prefix (String.◌∷◌ c p) String.[] = none
drop_prefix (String.◌∷◌ c p) (String.◌∷◌ d s) =
    let rest = drop_prefix p s in if nat_beq (code c) (code d) then rest else none

-- `s.split(":")[0]`
abbrev pub before_colon : String → String
before_colon String.[] = String.[]
before_colon (String.◌∷◌ c s) =
    let rest = before_colon s in if nat_beq (code c) b':' then String.[] else String.◌∷◌ c rest

abbrev is_space : Char → Bool
is_space c = nat_beq (code c) 32 || (leb 9 (code c) && leb (code c) 13)

abbrev lstrip : String → String
lstrip String.[] = String.[]
lstrip (String.◌∷◌ c s) = let rest = lstrip s in if is_space c then rest else String.◌∷◌ c s

-- a character before a text that has been stripped at its end
abbrev keep_last : Char → String → String
keep_last c String.[] = if is_space c then String.[] else String.◌∷◌ c String.[]
keep_last c (String.◌∷◌ d s) = String.◌∷◌ c (String.◌∷◌ d s)

abbrev rstrip : String → String
rstrip String.[] = String.[]
rstrip (String.◌∷◌ c s) = keep_last c (rstrip s)

-- `s.strip()`
abbrev pub strip : String → String
strip s = rstrip (lstrip s)

abbrev read_old : Option String → Option String
read_old none = none
read_old (some rest) = some (strip (before_colon rest))

-- the old champion's version in a reason, if it is a swap's
unfoldable pub old_champion : String → Option String
old_champion reason = read_old (drop_prefix swap_in reason)

-- `f"{SWAP_IN} {champion}: {reason}"`
abbrev pub swap_in_reason : String → String → String
swap_in_reason champion reason = swap_in ++ (" " ++ (champion ++ (":" ++ (" " ++ reason))))

-- `f"{SWAP_OUT} {challenger}; kept in shadow for rollback"`
abbrev pub swap_out_reason : String → String
swap_out_reason challenger = swap_out ++ (" " ++ (challenger ++ "; kept in shadow for rollback"))

abbrev pub has_colon : String → Bool
has_colon String.[] = false
has_colon (String.◌∷◌ c s) = nat_beq (code c) b':' || has_colon s

drop_prefix-append : (p s : String) → drop_prefix p (p ++ s) ≡ some s
drop_prefix-append String.[] s = ap some (nil-append s)
drop_prefix-append (String.◌∷◌ c p) s =
    ap (drop_prefix (String.◌∷◌ c p)) (cons-append c p s) ∙ ground (arith, drop_prefix-append p s)

before_colon-append : (s t : String) → has_colon s ≡ false → before_colon (s ++ (":" ++ t)) ≡ s
before_colon-append String.[] t h = ap before_colon (nil-append _ ∙ cons-append _ _ t)
before_colon-append (String.◌∷◌ c s) t h =
    ap before_colon (cons-append c s _) ∙ ground (arith, before_colon-append s t)

-- A version name that has no colon and no white space at its ends.
abbrev pub IsClean : String → Type 0
IsClean v = (has_colon v ≡ false) × (strip v ≡ v)

-- The version of the old champion can be read back from the reason of a swap.
pub old_champion-swap_in_reason :
    (v reason : String) → IsClean v → old_champion (swap_in_reason v reason) ≡ some v
unfolding old_champion
old_champion-swap_in_reason v reason (no_colon, stripped) =
    ap read_old (drop_prefix-append swap_in (" " ++ named))
    ∙ ap (λ s. some (strip (before_colon s)))
        (cons-append _ String.[] named ∙ ap (λ s. String.◌∷◌ (" ") s) (nil-append named))
    ∙ ap (λ s. some (strip (String.◌∷◌ (" ") s))) (before_colon-append v (" " ++ reason) no_colon)
    ∙ ap some stripped
  where
    named : String
    named = v ++ (":" ++ (" " ++ reason))

-- whether the two differ at some character, before either ends
abbrev differ : String → String → Bool
differ String.[] t = false
differ (String.◌∷◌ c s) String.[] = false
differ (String.◌∷◌ c s) (String.◌∷◌ d t) =
    let rest = differ s t in if nat_beq (code c) (code d) then rest else true

drop_prefix-differ : (p q s : String) → differ p q ≡ true → drop_prefix p (q ++ s) ≡ none
drop_prefix-differ String.[] q s h = cc
drop_prefix-differ (String.◌∷◌ c p) String.[] s h = cc
drop_prefix-differ (String.◌∷◌ c p) (String.◌∷◌ d q) s h =
    ap (drop_prefix (String.◌∷◌ c p)) (cons-append d q s) ∙ ground (arith, drop_prefix-differ p q s)

-- The reason of the old champion's record is not that of a swap.
pub old_champion-swap_out_reason : (v : String) → old_champion (swap_out_reason v) ≡ none
unfolding old_champion
old_champion-swap_out_reason v =
    ap read_old
      (drop_prefix-differ swap_in swap_out (" " ++ (v ++ "; kept in shadow for rollback")) refl)
