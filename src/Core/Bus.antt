-- ===== src/Core/Bus.antt =====
-- The bus between the services, packages/core/src/autotrader/core/bus.py: the in-memory bus with its
-- consumer groups, without the delivery loop. JSON is a parameter: `encode` and `decode`.
pub mod Slices
pub mod Decoding
pub mod Reading
pub mod Holding
pub mod Groups
mod Tests
use kometa.Prelude.{
  ℕ, ◌+◌, zero, suc, Bool, true, false, String, Option, none, some, List, [], ◌∷◌, ◌++◌, Result, ok,
  err, length, take, drop, leb, nat_eq, string_eq, pair_eq, if◌then◌else◌,
}
use kometa.Prelude.Dict.{Dict, lookup, insert, remove, get_or}

-- `InMemoryBus`; a message id is its sequence number, and `Raw` what a message is stored as.
pub record Bus (Raw Msg : Type 0) : Type 0 where
  pub streams : Dict String (List (ℕ × Raw))
  pub cursors : Dict (String × String) ℕ
  pub pending : Dict (String × String) (Dict ℕ Raw)
  pub seq : ℕ
  pub decoded : Dict ℕ Msg

abbrev pub empty_bus : {Raw Msg : Type 0} → Bus Raw Msg
empty_bus = record { streams = []; cursors = []; pending = []; seq = 0; decoded = [] }

abbrev pub hold : {Raw : Type 0} → List (ℕ × Raw) → Dict ℕ Raw → Dict ℕ Raw
hold [] pend = pend
hold ((mid, raw) ∷ batch) pend = hold batch (insert mid raw pend)

abbrev pub drop_all : {Raw : Type 0} → List ℕ → Dict ℕ Raw → Dict ℕ Raw
drop_all [] pend = pend
drop_all (mid ∷ mids) pend = drop_all mids (remove mid pend)

abbrev pub decode_or : {Msg : Type 0} → Result String Msg → Option Msg → Result String Msg
decode_or r none = r
decode_or r (some msg) = ok msg

abbrev pub with_head :
    {Msg : Type 0}
    → ℕ
    → Msg
    → Result String (List (ℕ × Msg)) × Dict ℕ Msg
    → Result String (List (ℕ × Msg)) × Dict ℕ Msg
with_head mid msg (ok out, known) = (ok ((mid, msg) ∷ out), known)
with_head mid msg (err e, known) = (err e, known)

module _ {Raw Msg : Type 0} where
  -- the messages of a stream
  abbrev pub rows : String → Bus Raw Msg → List (ℕ × Raw)
  rows stream b = get_or stream [] b.streams

  unfoldable pub publish : (Msg → Raw) → String → Msg → Bus Raw Msg → ℕ × Bus Raw Msg
  publish encode stream msg b =
      let mid = suc b.seq in
      (
        mid,
        record b {
          seq = mid;
          streams = insert stream (rows stream b ++ ((mid, encode msg) ∷ [])) b.streams;
        },
      )

  abbrev pub cursor_of : String × String → Bus Raw Msg → ℕ
  cursor_of k b = get_or k 0 b.cursors

  -- what a read of a group takes
  abbrev pub batch_of : String × String → ℕ → Bus Raw Msg → List (ℕ × Raw)
  batch_of (stream, group) count b = take count (drop (cursor_of (stream, group) b) (rows stream b))

  -- the loop over the batch: the messages, or what `decode` raises, and the messages decoded so far
  abbrev pub decode_all :
      (Raw → Result String Msg)
      → List (ℕ × Raw)
      → Dict ℕ Msg
      → Result String (List (ℕ × Msg)) × Dict ℕ Msg
  decode_all decode [] known = (ok [], known)
  decode_all decode ((mid, raw) ∷ batch) known = elim (decode_or (decode raw) (lookup mid known)) [
    | ok msg ↦ with_head mid msg (decode_all decode batch (insert mid msg known))
    | err e ↦ (err e, known)
  ]

  -- a read that finds something: the cursor moves and the batch is pending, also when `decode` raises
  abbrev pub take_batch :
      (Raw → Result String Msg)
      → String × String
      → List (ℕ × Raw)
      → Bus Raw Msg
      → Result String (List (ℕ × Msg)) × Bus Raw Msg
  take_batch decode k batch b =
      let (out, known) = decode_all decode batch b.decoded in
      (
        out,
        record b {
          cursors = insert k (cursor_of k b + length batch) b.cursors;
          pending = insert k (hold batch (get_or k [] b.pending)) b.pending;
          decoded = known;
        },
      )

  unfoldable pub read :
      (Raw → Result String Msg)
      → String × String
      → ℕ
      → Bus Raw Msg
      → Result String (List (ℕ × Msg)) × Bus Raw Msg
  read decode (stream, group) count b =
      if leb (length (rows stream b)) (cursor_of (stream, group) b)
      then (ok [], b)
      else take_batch decode (stream, group) (batch_of (stream, group) count b) b

  unfoldable pub ack : String × String → List ℕ → Bus Raw Msg → Bus Raw Msg
  ack k mids b = record b { pending = insert k (drop_all mids (get_or k [] b.pending)) b.pending }
