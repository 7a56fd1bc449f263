-- ===== src/Core/Ledger.antt =====
-- `JsonlLedger` of packages/core/src/autotrader/core/ledger.py: a file of records, each with the hash of
-- the one before. `link prev body` is `sha256_hex(prev + canonical_json(body))`, and `size_of` the bytes
-- of a record's line; both are parameters. The lock of the file makes an append one step.
pub mod Chain
mod Tests
use kometa.Prelude.{
  ℕ, ◌+◌, zero, suc, Bool, true, false, ◌&&◌, String, Option, none, some, List, [], ◌∷◌, ◌++◌,
  Result, ok, err, ◌==◌, nat_eq, string_eq, if◌then◌else◌,
}
use kometa.Core.Time.{Datetime}

abbrev pub genesis : String
genesis = "0000000000000000000000000000000000000000000000000000000000000000"

pub record Body : Type 0 where
  pub kind : String
  pub at : Datetime
  pub payload : String

pub record Line : Type 0 where
  pub body : Body
  pub prev_hash : String
  pub hash : String

-- What the code takes from outside.
pub record LedgerEnv : Type 0 where
  pub link : String → Body → String
  pub size_of : Line → ℕ

-- `lines` is the file, which other processes append to as well; `tail` is the size of the file and the
-- last hash after this process's own last append.
pub record Ledger : Type 0 where
  pub lines : List Line
  pub tail : Option (ℕ × String)

unfoldable pub file_size : LedgerEnv → List Line → ℕ
file_size k [] = zero
file_size k (l ∷ ls) = k.size_of l + file_size k ls

-- the hash of the last record, or `prev`
unfoldable pub last_of : String → List Line → String
last_of prev [] = prev
last_of prev (l ∷ ls) = last_of l.hash ls

abbrev pub cached : ℕ → String → Option (ℕ × String) → String
cached size read none = read
cached size read (some (n, h)) = if n == size then h else read

-- `_last_hash`
unfoldable pub last_hash : LedgerEnv → Ledger → String
last_hash k g = cached (file_size k g.lines) (last_of genesis g.lines) g.tail

abbrev pub next_line : LedgerEnv → String → Body → Line
next_line k prev body = record { body = body; prev_hash = prev; hash = k.link prev body }

abbrev pub extend : LedgerEnv → Line → Ledger → Ledger
extend k l g =
    let lines = g.lines ++ l ∷ [] in
    record { lines = lines; tail = some (file_size k lines, l.hash) }

-- `append`: the hash of the new record, and the ledger
unfoldable pub append : LedgerEnv → String → String → Datetime → Ledger → String × Ledger
append k kind payload now g =
    let l = next_line k (last_hash k g) (record { kind = kind; at = now; payload = payload }) in
    (l.hash, extend k l g)

-- an append by another process
abbrev pub foreign : Line → Ledger → Ledger
foreign l g = record g { lines = g.lines ++ l ∷ [] }

abbrev of_kind : Option String → Line → Bool
of_kind none l = true
of_kind (some kind) l = l.body.kind == kind

abbrev pub select_lines : Option String → List Line → List Line
select_lines kind [] = []
select_lines kind (l ∷ ls) =
    let rest = select_lines kind ls in if of_kind kind l then l ∷ rest else rest

-- `records`
unfoldable pub records : Option String → Ledger → List Line
records kind g = select_lines kind g.lines

-- `LedgerCorruptError`, with the number of the first bad record
pub data LedgerCorrupt : Type 0 where
  broken_at : ℕ → LedgerCorrupt

abbrev pub fits : LedgerEnv → String → Line → Bool
fits k prev l = l.prev_hash == prev && l.hash == k.link prev l.body

unfoldable pub walk : LedgerEnv → String → ℕ → List Line → Result LedgerCorrupt ℕ
walk k prev n [] = ok n
walk k prev n (l ∷ ls) =
    let rest = walk k l.hash (n + 1) ls in if fits k prev l then rest else err (broken_at n)

-- `verify`
unfoldable pub verify_chain : LedgerEnv → Ledger → Result LedgerCorrupt ℕ
verify_chain k g = walk k genesis 0 g.lines
