-- ===== src/Core/Bus/Decoding.antt =====
-- The messages that a read of the bus decodes, where decoding gives back what was encoded.
use Prim.{Unit, tt}
use kometa.Prelude.Dict.{Dict, lookup, lookup-insert, insert}
use kometa.Prelude.{
  Option, none, some, some_inj, ok, err, Result, String, ℕ, zero, suc, ◌≡◌, ◌∙◌, refl, sym, ap,
  List, [], ◌∷◌, map, take, drop, ◌++◌, length, if◌then◌else◌, ◌==◌, nat_eq, Bool-cases, inl, inr,
}
use kometa.Core.Bus.{decode_all, decode_or, with_head}

abbrev pub messages : {Msg : Type 0} → List (ℕ × Msg) → List Msg
messages out = map (λ x. x.1) out

-- `log` says which message has a number.
module _ {Raw Msg : Type 0} (encode : Msg → Raw) (log : ℕ → Option Msg) where
  -- stored messages, and the messages that were sent
  abbrev pub Told : List (ℕ × Raw) → List Msg → Type 0
  Told [] [] = Unit
  Told [] (m ∷ ms) = ⊥
  Told (row ∷ rows) [] = ⊥
  Told ((mid, raw) ∷ rows) (m ∷ ms) = (log mid ≡ some m) × (raw ≡ encode m) × Told rows ms

  abbrev pub Known : Dict ℕ Msg → Type 0
  Known known = (mid : ℕ) (m : Msg) → lookup mid known ≡ some m → log mid ≡ some m

  pub Told-take :
      (n : ℕ) (rows : List (ℕ × Raw)) (ms : List Msg)
      → Told rows ms
      → Told (take n rows) (take n ms)
  Told-take zero rows ms h = tt
  Told-take (suc n) [] [] h = tt
  Told-take (suc n) [] (m ∷ ms) h = elim h [ ]
  Told-take (suc n) (row ∷ rows) [] h = elim h [ ]
  Told-take (suc n) (row ∷ rows) (m ∷ ms) (a, b, h) = (a, b, Told-take n rows ms h)

  pub Told-drop :
      (n : ℕ) (rows : List (ℕ × Raw)) (ms : List Msg)
      → Told rows ms
      → Told (drop n rows) (drop n ms)
  Told-drop zero rows ms h = h
  Told-drop (suc n) [] [] h = tt
  Told-drop (suc n) [] (m ∷ ms) h = elim h [ ]
  Told-drop (suc n) (row ∷ rows) [] h = elim h [ ]
  Told-drop (suc n) (row ∷ rows) (m ∷ ms) (a, b, h) = Told-drop n rows ms h

  pub Told-length : (rows : List (ℕ × Raw)) (ms : List Msg) → Told rows ms → length rows ≡ length ms
  Told-length [] [] h = refl
  Told-length [] (m ∷ ms) h = elim h [ ]
  Told-length (row ∷ rows) [] h = elim h [ ]
  Told-length (row ∷ rows) (m ∷ ms) (a, b, h) = ap suc (Told-length rows ms h)

  pub Told-snoc :
      (rows : List (ℕ × Raw)) (ms : List Msg) (mid : ℕ) (m : Msg)
      → Told rows ms
      → log mid ≡ some m
      → Told (rows ++ (mid, encode m) ∷ []) (ms ++ m ∷ [])
  Told-snoc [] [] mid m h e = (e, refl, tt)
  Told-snoc [] (n ∷ ms) mid m h e = elim h [ ]
  Told-snoc (row ∷ rows) [] mid m h e = elim h [ ]
  Told-snoc (row ∷ rows) (n ∷ ms) mid m (a, b, h) e = (a, b, Told-snoc rows ms mid m h e)

  Known-insert :
      (mid : ℕ) (m : Msg) (known : Dict ℕ Msg)
      → log mid ≡ some m
      → Known known
      → Known (insert mid m known)
  Known-insert mid m known e h i n at = elim (Bool-cases (mid == i)) [
    | inl same ↦
        ap log (sym ((nat_eq.beq_iff mid i).0 same))
        ∙ e
        ∙ sym (ap (λ b. if b then some m else lookup i known) same)
        ∙ sym (lookup-insert i mid m known)
        ∙ at
    | inr other ↦ h i n (
        sym (ap (λ b. if b then some m else lookup i known) other)
        ∙ sym (lookup-insert i mid m known)
        ∙ at)
  ]

  module _ (decode : Raw → Result String Msg) (back : (m : Msg) → decode (encode m) ≡ ok m) where
    decode_row :
        (raw : Raw) (m : Msg) (o : Option Msg)
        → raw ≡ encode m
        → ((n : Msg) → o ≡ some n → n ≡ m)
        → decode_or (decode raw) o ≡ ok m
    decode_row raw m none e h = ap decode e ∙ back m
    decode_row raw m (some n) e h = ap ok (h n refl)

    -- what the loop over a batch hands out
    pub record Decoded (batch : List (ℕ × Raw)) (ms : List Msg) (known : Dict ℕ Msg) : Type 0 where
      pub out : List (ℕ × Msg)
      pub known_after : Dict ℕ Msg
      pub result : decode_all decode batch known ≡ (ok out, known_after)
      pub are : messages out ≡ ms
      pub keeps : Known known_after

    pub decode_all-Decoded :
        (batch : List (ℕ × Raw)) (ms : List Msg) (known : Dict ℕ Msg)
        → Told batch ms
        → Known known
        → Decoded batch ms known
    decode_all-Decoded [] [] known h c = record {
      out = [];
      known_after = known;
      result = refl;
      are = refl;
      keeps = c;
    }
    decode_all-Decoded [] (m ∷ ms) known h c = elim h [ ]
    decode_all-Decoded (row ∷ batch) [] known h c = elim h [ ]
    decode_all-Decoded ((mid, raw) ∷ batch) (m ∷ ms) known (a, b, h) c =
        let rest =
          decode_all-Decoded batch ms (insert mid m known) h (Known-insert mid m known a c) in
        record {
          out = (mid, m) ∷ rest.out;
          known_after = rest.known_after;
          result =
              ap
                (λ r. elim r [
                  | ok msg ↦ with_head mid msg (decode_all decode batch (insert mid msg known))
                  | err e ↦ (err e, known)
                ])
                (decode_row raw m (lookup mid known) b (λ n at. some_inj (sym (c mid n at) ∙ a)))
              ∙ ap (with_head mid m) rest.result;
          are = ap (λ r. m ∷ r) rest.are;
          keeps = rest.keeps;
        }

-- a log that knows more
pub Told-later :
    {Raw Msg : Type 0} (encode : Msg → Raw) (log later : ℕ → Option Msg)
    → ((mid : ℕ) (m : Msg) → log mid ≡ some m → later mid ≡ some m)
    → (rows : List (ℕ × Raw)) (ms : List Msg) → Told encode log rows ms
    → Told encode later rows ms
Told-later encode log later f [] [] h = tt
Told-later encode log later f [] (m ∷ ms) h = elim h [ ]
Told-later encode log later f (row ∷ rows) [] h = elim h [ ]
Told-later encode log later f ((mid, raw) ∷ rows) (m ∷ ms) (a, b, h) =
    (f mid m a, b, Told-later encode log later f rows ms h)
