-- ===== src/Simple/Postgres.antt =====
-- `PostgresStore` of `src/simple/mod.rs`. The database and the encodings are parameters, with what
-- their documentation says.
pub mod Laws
pub mod Reload
pub mod Rearranged
pub mod Durable
use cqrs_account.Prelude.{
  ℕ, zero, suc, ◌+◌, ◌≡◌, ltb, String, string_eq, Bool, true, false, ◌||◌, ◌==◌, if◌then◌else◌,
  Option, none, some, List, [], ◌∷◌, ◌++◌, map, length, take,
}
use cqrs_account.Outcome.{
  Outcome, done, panic, ◌>>=◌, expect, Result, ok, err, failed_to_serialize, failed_to_deserialize,
  invalid_transaction_id, failed_to_receive,
}
use cqrs_account.Types.{Platform, ByteArray32, hex}
use cqrs_account.Simple.Store.{TransactionData, Transaction, Store}

-- `bincode` for the contents, and `hex::decode` for the ids. What is serialized can be read back.
pub record Codec ⦃platform : Platform⦄ : Type 1 where
  pub Bytes : Type 0
  pub serialize : TransactionData → Option Bytes
  pub deserialize : Bytes → Option TransactionData
  pub decode_hex : String → Option (List ℕ)
  pub deserialize-serialize :
      (content : TransactionData) (b : Bytes)
      → serialize content ≡ some b
      → deserialize b ≡ some content
  pub decode_hex-hex_encode : (l : List ℕ) → decode_hex (platform.hex_encode l) ≡ some l

-- A row of the table `transactions`.
pub record Row (Bytes : Type 0) : Type 0 where
  pub id : String
  pub content : Bytes

-- The connection pool: the `INSERT` of `flush`, with the count of the rows that it has added, and the
-- `SELECT` of `load_all`.
pub record Pool (Bytes : Type 0) : Type 1 where
  pub World : Type 0
  pub Error : Type 0
  pub insert : List (Row Bytes) → World → Result ℕ Error × World
  pub select : World → List (Result (Row Bytes) Error)

module _ {Bytes : Type 0} where
  abbrev pub has_row : String → List (Row Bytes) → Bool
  has_row id [] = false
  has_row id (row ∷ table) = (row.id == id) || has_row id table

  -- `ON CONFLICT DO NOTHING`: a row goes in unless its key is there.
  abbrev pub insert_rows : List (Row Bytes) → List (Row Bytes) → List (Row Bytes)
  insert_rows [] table = table
  insert_rows (row ∷ rows) table =
      insert_rows rows (if has_row row.id table then table else table ++ row ∷ [])

  -- What PostgreSQL documents: a statement that fails changes nothing.
  pub record IsTable (pool : Pool Bytes) (table : pool.World → List (Row Bytes)) : Type 0 where
    pub on_ok :
        (rows : List (Row Bytes)) (w w' : pool.World) (n : ℕ)
        → pool.insert rows w ≡ (ok n, w')
        → table w' ≡ insert_rows rows (table w)
    pub on_err :
        (rows : List (Row Bytes)) (w w' : pool.World) (e : pool.Error)
        → pool.insert rows w ≡ (err e, w')
        → table w' ≡ table w

-- `[..32]` of a slice panics where it is shorter.
unfoldable pub first_32 : List ℕ → Option (List ℕ)
first_32 bytes = if ltb (length bytes) 32 then none else some (take 32 bytes)

module _ ⦃platform : Platform⦄ (codec : Codec) where
  unfoldable pub to_row : Transaction → Outcome (Row codec.Bytes)
  to_row item = expect (codec.serialize item.content) failed_to_serialize >>= λ content.
      done (record { id = hex item.id; content = content })

  -- `map` and `unzip` of `flush`.
  unfoldable pub to_rows : List Transaction → Outcome (List (Row codec.Bytes))
  unfolding to_row
  to_rows [] = done []
  to_rows (item ∷ items) = do row ← to_row item; rows ← to_rows items; done (row ∷ rows)

  -- The closure of `load_all`.
  unfoldable pub from_row : Row codec.Bytes → Outcome Transaction
  unfolding first_32
  from_row row = do
    bytes ← expect (codec.decode_hex row.id) invalid_transaction_id
    id ← expect (first_32 bytes) invalid_transaction_id
    content ← expect (codec.deserialize row.content) failed_to_deserialize
    done (record { id = record { bytes = id }; content = content })

  module _ (pool : Pool codec.Bytes) where
    unfoldable pub flush :
        List Transaction → pool.World → Outcome (Result ℕ pool.Error × pool.World)
    unfolding to_rows
    flush items w = to_rows items >>= λ rows. done (pool.insert rows w)

    -- A request in the channel: a transaction, and the number of the promise to answer.
    abbrev pub Request : Type 0
    Request = Transaction × ℕ

    -- A promise that has been kept, with what it was sent.
    abbrev pub Sent : Type 0
    Sent = ℕ × Result (Unit {0}) pool.Error

    -- `.map(|_| ())`
    abbrev pub forget : Result ℕ pool.Error → Result (Unit {0}) pool.Error
    forget (ok _) = ok tt
    forget (err e) = err e

    -- The loop of `background`, over the chunks that the channel gives.
    unfoldable pub background : List (List Request) → pool.World → Outcome (List Sent × pool.World)
    unfolding flush
    background [] w = done ([], w)
    background (chunk ∷ chunks) w = do
      (res, w) ← flush (map (λ (r : Request). r.0) chunk) w
      (sent, w) ← background chunks w
      done (map (λ (r : Request). (r.1, forget res)) chunk ++ sent, w)

    -- What the receiver of the only promise gets: an error, if the sender is gone.
    abbrev pub received : List Sent → Option (Result (Unit {0}) pool.Error)
    received [] = none
    received (answer ∷ sent) = some answer.1

    -- `persist` and `enqueue`, where the request comes into a chunk of its own, the channel being empty.
    unfoldable pub enqueue :
        Transaction → pool.World → Outcome (Result (Unit {0}) pool.Error × pool.World)
    unfolding background
    enqueue item w = do
      (sent, w) ← background (((item, 0) ∷ []) ∷ []) w
      r ← expect (received sent) failed_to_receive
      done (r, w)

    abbrev pub postgres_store : Store
    postgres_store = record { World = pool.World; Error = pool.Error; persist = enqueue }

    -- `load_all`, and what its stream gives when it is read to the end.
    unfoldable pub load_rows :
        List (Result (Row codec.Bytes) pool.Error) → Outcome (List (Result Transaction pool.Error))
    unfolding from_row
    load_rows [] = done []
    load_rows (ok row ∷ rows) = do
      item ← from_row row
      items ← load_rows rows
      done (ok item ∷ items)
    load_rows (err e ∷ rows) = do items ← load_rows rows; done (err e ∷ items)

    unfoldable pub load_all : pool.World → Outcome (List (Result Transaction pool.Error))
    unfolding load_rows
    load_all w = load_rows (pool.select w)
