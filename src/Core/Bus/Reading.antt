-- ===== src/Core/Bus/Reading.antt =====
-- What a read of packages/core/src/autotrader/core/bus.py gives a group, and what it leaves.
use mathlib.Core.Path.{subst}
use kometa.Prelude.{
  Option, ok, leb→le, true, leb, inr, inl, Bool-cases, ℕ, ◌+◌, ◌≤◌, ◌≡◌, ◌∙◌, refl, sym, ap, String,
  List, [], Result, arith, length, take, drop, nat_eq, string_eq, pair_eq, if◌then◌else◌, ◌==◌,
}
use kometa.Core.Bus.{Bus, take_batch, rows, cursor_of, batch_of, read}
use kometa.Core.Bus.Slices.{take_none, drop_past, get_or-insert}
use kometa.Core.Bus.Decoding.{
  messages, Told, Known, Told-take, Told-drop, Told-length, Decoded, decode_all-Decoded,
}

module _ {Raw Msg : Type 0} (encode : Msg → Raw) (decode : Raw → Result String Msg) where
  -- what a read gives and leaves
  pub record HasRead (log : ℕ → Option Msg) (next : List Msg) (reader : String × String)
      (b : Bus Raw Msg) (o : Result String (List (ℕ × Msg)) × Bus Raw Msg) : Type 0 where
    pub out : List (ℕ × Msg)
    pub result : o.0 ≡ ok out
    pub are : messages out ≡ next
    pub keeps : Known encode log o.1.decoded
    pub same_streams : o.1.streams ≡ b.streams
    pub same_seq : o.1.seq ≡ b.seq
    pub cursors :
        (k : String × String)
        → cursor_of k o.1
          ≡ (if reader == k then cursor_of reader b + length next else cursor_of k b)

  module _ (back : (m : Msg) → decode (encode m) ≡ ok m) (log : ℕ → Option Msg) (sent : List Msg)
      (reader : String × String) (count : ℕ) (b : Bus Raw Msg)
      (told : Told encode log (rows reader.0 b) sent) (known : Known encode log b.decoded) where
    abbrev next : List Msg
    next = take count (drop (cursor_of reader b) sent)

    nothing-HasRead :
        leb (length (rows reader.0 b)) (cursor_of reader b) ≡ true
        → HasRead log next reader b (ok [], b)
    nothing-HasRead e = record {
      out = [];
      result = refl;
      are = sym empty;
      keeps = known;
      same_streams = refl;
      same_seq = refl;
      cursors = λ k. elim (Bool-cases (reader == k)) [
        | inl same ↦
            ap (λ r. cursor_of r b) (sym ((pair_eq.beq_iff reader k).0 same))
            ∙ plus_none (cursor_of reader b) next empty
            ∙ sym (ap (λ c. if c then cursor_of reader b + length next else cursor_of k b) same)
        | inr other ↦
            sym (ap (λ c. if c then cursor_of reader b + length next else cursor_of k b) other)
      ];
    }
      where
        empty : next ≡ []
        empty =
            ap (take count) (
              drop_past (cursor_of reader b) sent (
                subst (λ n. n ≤ cursor_of reader b)
                  (Told-length encode log (rows reader.0 b) sent told) (leb→le _ _ e)))
            ∙ take_none count

        plus_none : (n : ℕ) (xs : List Msg) → xs ≡ [] → n ≡ n + length xs
        plus_none n xs e = omega (arith, ap length e)

    batch-HasRead : HasRead log next reader b (take_batch decode reader (batch_of reader count b) b)
    batch-HasRead = record {
      out = d.out;
      result = ap (λ r. r.0) d.result;
      are = d.are;
      keeps = subst (λ r. Known encode log r.1) (sym d.result) d.keeps;
      same_streams = refl;
      same_seq = refl;
      cursors = λ k.
          get_or-insert k reader (cursor_of reader b + length (batch_of reader count b)) 0 b.cursors
          ∙ ap (λ n. if reader == k then cursor_of reader b + n else cursor_of k b)
              (Told-length encode log (batch_of reader count b) next batch_told);
    }
      where
        batch_told : Told encode log (batch_of reader count b) next
        batch_told =
            Told-take encode log count (drop (cursor_of reader b) (rows reader.0 b))
              (drop (cursor_of reader b) sent)
              (Told-drop encode log (cursor_of reader b) (rows reader.0 b) sent told)

        d : Decoded encode log decode back (batch_of reader count b) next b.decoded
        d =
            decode_all-Decoded encode log decode back (batch_of reader count b) next b.decoded
              batch_told known

    pub read-HasRead : HasRead log next reader b (read decode reader count b)
    unfolding read
    read-HasRead = elim (Bool-cases (leb (length (rows reader.0 b)) (cursor_of reader b))) [
      | inl e ↦
          subst (λ c. HasRead log next reader b (if c then (ok [], b) else taken)) (sym e)
            (nothing-HasRead e)
      | inr e ↦
          subst (λ c. HasRead log next reader b (if c then (ok [], b) else taken)) (sym e)
            batch-HasRead
    ]
      where
        taken : Result String (List (ℕ × Msg)) × Bus Raw Msg
        taken = take_batch decode reader (batch_of reader count b) b
