-- ===== src/Risk/State/Store.antt =====
-- `StateStore` of packages/risk/src/autotrader/risk/state.py: the state file with its embedded hash.
-- The file is its text, absent before the first save; Core/Codec holds the parameters.
use Prim.Native.String.{◌++◌}
use kometa.Prelude.{
  ◌≡◌, ◌⊎◌, ◌∙◌, sym, ap, refl, inl, inr, Bool-cases, Result, true, false, ok-injective, ok, err,
  ◌>>=◌, String, Option, none, some, ◌==◌, string_eq, if◌then◌else◌,
}
use kometa.Core.Codec.{Codec}
use kometa.Risk.State.{RiskState, initial_state}
use kometa.Core.Models.{full_halt}

-- A file that cannot be read loads as FULL_HALT, with the error as the reason.
abbrev pub unreadable : String → RiskState
unreadable why = record initial_state { halt = full_halt; halt_reason = why }

module _ (c : Codec RiskState) where
  open c use {Json, Text, dump, validate, digest, render, parse}

  -- `StateStore.save`
  unfoldable pub save : RiskState → Option Text
  save s = some (render (dump s) (digest (dump s)))

  -- the handler of `except (ValueError, KeyError, TypeError)`
  or_unreadable : Result String RiskState → RiskState
  or_unreadable (err e) = unreadable ("risk state unreadable: " ++ e)
  or_unreadable (ok s) = s

  check_digest : Json × String → Result String RiskState
  check_digest (body, h) = if digest body == h then validate body else err "state hash mismatch"

  -- `StateStore.load`
  unfoldable pub load : Option Text → RiskState
  unfolding or_unreadable check_digest
  load none = initial_state
  load (some text) = or_unreadable (parse text >>= check_digest)

  -- the state is what the libraries made of a content that has the hash beside it
  abbrev pub IsChecked : Text → RiskState → Type 0
  IsChecked text s = (body : Json) × (parse text ≡ ok (body, digest body)) × (validate body ≡ ok s)

  -- or nothing is, and the gate is in a full halt
  abbrev pub IsClosed : Text → RiskState → Type 0
  IsClosed text s = ((t : RiskState) → IsChecked text t → ⊥) × (s.halt ≡ full_halt)

  validated-IsChecked :
      (text : Text) (body : Json) (r : Result String RiskState)
      → parse text ≡ ok (body, digest body)
      → validate body ≡ r
      → IsChecked text (or_unreadable r) ⊎ IsClosed text (or_unreadable r)
  unfolding or_unreadable
  validated-IsChecked text body (ok s) e v = inl (body, e, v)
  validated-IsChecked text body (err why) e v = inr (none_checked, refl)
    where
      none_checked : (t : RiskState) → IsChecked text t → ⊥
      none_checked t (other, e', v') =
          let same = ok-injective (sym e' ∙ e) in
          err-not-ok (sym v ∙ ap validate (sym (ap (λ x. x.0) same)) ∙ v')
        where
          err-not-ok : ◌≡◌ {A = Result String RiskState} (err why) (ok t) → ⊥
          err-not-ok x = cc

  read-IsChecked :
      (text : Text) (r : Result String (Json × String))
      → parse text ≡ r
      → IsChecked text (or_unreadable (r >>= check_digest))
        ⊎ IsClosed text (or_unreadable (r >>= check_digest))
  unfolding or_unreadable check_digest
  read-IsChecked text (err why) e = inr (none_checked, refl)
    where
      none_checked : (t : RiskState) → IsChecked text t → ⊥
      none_checked t (other, e', v') = err-not-ok (sym e ∙ e')
        where
          err-not-ok :
              ◌≡◌ {A = Result String (Json × String)} (err why) (ok (other, digest other)) → ⊥
          err-not-ok x = cc
  read-IsChecked text (ok (body, h)) e = elim (Bool-cases (digest body == h)) [
    | inl same ↦ rw same (
        validated-IsChecked text body (validate body)
          (e ∙ ap (λ x. ok (body, x)) (sym ((string_eq.beq_iff (digest body) h).0 same))) refl)
    | inr other ↦ rw other (mismatch other)
  ]
    where
      none_checked : (digest body == h) ≡ false → (t : RiskState) → IsChecked text t → ⊥
      none_checked differs t (other, e', v') =
          let same = ok-injective (sym e' ∙ e) in
          true-ne-false (
            sym (
              (string_eq.beq_iff (digest body) h).1
                (ap digest (sym (ap (λ x. x.0) same)) ∙ ap (λ x. x.1) same))
            ∙ differs)
        where
          true-ne-false : true ≡ false → ⊥
          true-ne-false x = cc

      mismatch :
          (digest body == h) ≡ false
          → IsChecked text (unreadable ("risk state unreadable: " ++ "state hash mismatch"))
            ⊎ IsClosed text (unreadable ("risk state unreadable: " ++ "state hash mismatch"))
      mismatch differs = inr (none_checked differs, refl)

  -- Whatever is in the state file, the state that is loaded is what the libraries validate of a content
  -- whose hash is the one beside it; or the file has no such content, and a full halt is loaded.
  pub load-IsClosed :
      (text : Text) → IsChecked text (load (some text)) ⊎ IsClosed text (load (some text))
  unfolding load
  load-IsClosed text = read-IsChecked text (parse text) refl
