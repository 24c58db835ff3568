-- ===== src/Simple/Tests/Stores.antt =====
-- A store and a pool in memory, and encodings, for the tests of the simple ledger.
use Prim.Native.Char.{code}
use mathlib.Core.List.{reverse}
use cqrs_account.Prelude.{
  ℕ, zero, suc, ◌+◌, ◌≡◌, refl, sym, ◌∙◌, ap, String, if◌then◌else◌, nat_beq, Option, none, some,
  arith, List, [], ◌∷◌, map, length,
}
use cqrs_account.Outcome.{Outcome, done, Result, ok, err}
use cqrs_account.TestPlatform.{test_platform, encode, byte_text}
use cqrs_account.Simple.Store.{TransactionData, Transaction, Store, IsLog, append_new}
use cqrs_account.Simple.Postgres.{Codec, Row, Pool, insert_rows, IsTable}

-- The log, and how many calls are still to fail.
abbrev pub Memory : Type 0
Memory = List Transaction × ℕ

unfoldable pub persist_memory :
    Transaction → Memory → Outcome (Result (Unit {0}) (Unit {0}) × Memory)
persist_memory t (log, zero) = done (ok tt, (append_new t log, zero))
persist_memory t (log, suc n) = done (err tt, (log, n))

abbrev pub memory_store : Store
memory_store = record { World = Memory; Error = Unit {0}; persist = persist_memory }

abbrev pub HoldsLog : Memory → List Transaction → Type 0
HoldsLog w log = w.0 ≡ log

pub memory_store-IsLog : IsLog memory_store HoldsLog
unfolding persist_memory
memory_store-IsLog = record { on_ok = took; on_err = failed }
  where
    took :
        (t : Transaction) (w w' : Memory) (log : List Transaction)
        → HoldsLog w log
        → persist_memory t w ≡ done (ok tt, w')
        → HoldsLog w' (append_new t log)
    took t (log, zero) (log', n') k e h = ground (arith, ap (append_new t) e)
    took t (log, suc n) (log', n') k e h = absurd (ground arith)

    failed :
        (t : Transaction) (w w' : Memory) (e : Unit {0}) (log : List Transaction)
        → HoldsLog w log
        → persist_memory t w ≡ done (err e, w')
        → HoldsLog w' log
    failed t (log, zero) (log', n') e k h₁ h = absurd (ground arith)
    failed t (log, suc n) (log', n') e k h₁ h = ground arith

abbrev pub before : ℕ → Option (List ℕ) → Option (List ℕ)
before n none = none
before n (some l) = some (n ∷ l)

-- Strokes are counted up to the next mark.
unfoldable pub count : ℕ → String → Option (List ℕ)
count zero String.[] = some []
count (suc n) String.[] = none
count n (String.◌∷◌ c s) =
    let more = count (suc n) s in
    let next = count 0 s in if nat_beq (code c) (code "1") then more else before n next

count-byte_text : (n m : ℕ) (s : String) → count n (byte_text m s) ≡ before (n + m) (count 0 s)
unfolding count
count-byte_text n zero s = ap (λ (k : ℕ). before k (count 0 s)) (omega arith)
count-byte_text n (suc m) s =
    count-byte_text (suc n) m s ∙ ap (λ (k : ℕ). before k (count 0 s)) (omega arith)

pub count-encode : (l : List ℕ) → count 0 (encode l) ≡ some l
unfolding count
count-encode [] = refl
count-encode (x ∷ l) =
    count-byte_text 0 x (encode l)
    ∙ rw (count-encode l) (ap (λ (k : ℕ). some (k ∷ l)) (omega arith))

abbrev pub memory_codec : Codec
memory_codec = record {
  Bytes = TransactionData;
  serialize = λ content. some content;
  deserialize = λ b. some b;
  decode_hex = count 0;
  deserialize-serialize = λ content b h. sym h;
  decode_hex-hex_encode = count-encode;
}

-- The table, and how many calls are still to fail.
abbrev pub Disk : Type 0
Disk = List (Row TransactionData) × ℕ

unfoldable pub insert_memory : List (Row TransactionData) → Disk → Result ℕ (Unit {0}) × Disk
insert_memory rows (table, zero) = (ok (length rows), (insert_rows rows table, zero))
insert_memory rows (table, suc n) = (err tt, (table, n))

abbrev pub memory_pool : Pool TransactionData
memory_pool = record {
  World = Disk;
  Error = Unit {0};
  insert = insert_memory;
  select = λ w. map (λ (r : Row TransactionData). ok r) (reverse w.0);
}

abbrev pub table_of : Disk → List (Row TransactionData)
table_of w = w.0

pub memory_pool-IsTable : IsTable memory_pool table_of
unfolding insert_memory
memory_pool-IsTable = record { on_ok = took; on_err = failed }
  where
    took :
        (rows : List (Row TransactionData)) (w w' : Disk) (n : ℕ)
        → insert_memory rows w ≡ (ok n, w')
        → table_of w' ≡ insert_rows rows (table_of w)
    took rows (table, zero) (table', n') k h = ground arith
    took rows (table, suc n) (table', n') k h = absurd (ground arith)

    failed :
        (rows : List (Row TransactionData)) (w w' : Disk) (e : Unit {0})
        → insert_memory rows w ≡ (err e, w')
        → table_of w' ≡ table_of w
    failed rows (table, zero) (table', n') e h = absurd (ground arith)
    failed rows (table, suc n) (table', n') e h = ground arith
