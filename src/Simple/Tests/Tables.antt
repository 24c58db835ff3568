-- ===== src/Simple/Tests/Tables.antt =====
-- The theorems about the table of transactions at concrete inputs.
use mathlib.Core.List.{Permᴰ}
use cqrs_account.Prelude.{◌≡◌, refl, List, [], ◌∷◌, map, string_eq}
use cqrs_account.Outcome.{done, ok, err}
use cqrs_account.Types.{hex}
use cqrs_account.TestPlatform.{test_platform, id_of}
use cqrs_account.Simple.Store.{TransactionData, Transaction}
use cqrs_account.Simple.Postgres.{
  Row, to_row, to_rows, flush, Request, Sent, background, enqueue, postgres_store, load_all,
}
use cqrs_account.Simple.Postgres.Laws.{IsServed, background-IsServed, concat}
use cqrs_account.BTreeMap
use cqrs_account.Simple.Account
use cqrs_account.Simple.Account.{asset_eq}
use cqrs_account.Simple.Book
use cqrs_account.Simple.Book.{Ran, finished, AccountBook}
use cqrs_account.Simple.Book.Calls.{Call, deposit, transfer, run, run_all}
use cqrs_account.Simple.Book.Recorded.{recorded}
use cqrs_account.Simple.Postgres.Durable.{load_all-run_all}
use cqrs_account.Simple.Postgres.Rearranged.{Loaded}
use cqrs_account.Simple.Tests.Stores.{
  memory_codec, Disk, memory_pool, insert_memory, table_of, memory_pool-IsTable,
}

abbrev paid_in : Transaction
paid_in = record { id = id_of 1; content = TransactionData.deposit "alice" 0 1000 }

abbrev paid_on : Transaction
paid_on = record { id = id_of 2; content = TransactionData.transfer "alice" "bob" 0 400 }

abbrev released : Transaction
released = record { id = id_of 2; content = TransactionData.unlock (id_of 2) }

abbrev row_of : Transaction → Row TransactionData
row_of t = record { id = hex t.id; content = t.content }

-- The first chunk meets a failure of the database, and is asked for again later.
abbrev chunks : List (List (Request memory_codec memory_pool))
chunks =
    ((paid_in, 0) ∷ (paid_on, 1) ∷ [])
    ∷ ((paid_in, 2) ∷ [])
    ∷ ((paid_on, 3) ∷ (released, 4) ∷ [])
    ∷ []

abbrev sent : List (Sent memory_codec memory_pool)
sent = (0, err tt) ∷ (1, err tt) ∷ (2, ok tt) ∷ (3, ok tt) ∷ (4, ok tt) ∷ []

abbrev after : Disk
after = (row_of paid_in ∷ row_of paid_on ∷ [], 0)

background_run : background memory_codec memory_pool chunks ([], 1) ≡ done (sent, after)
unfolding background flush to_rows to_row insert_memory hex
background_run = refl

background-IsServed_example :
    IsServed memory_codec memory_pool
      (concat memory_codec memory_pool chunks)
      sent
      []
      (table_of after)
background-IsServed_example =
    background-IsServed memory_codec memory_pool table_of memory_pool-IsTable chunks ([], 1) after
      sent background_run

-- An account book over this table, which fails once.
abbrev book : AccountBook (postgres_store memory_codec memory_pool)
book = record { accounts = []; world = ([], 1) }

abbrev calls : List Call
calls =
    deposit (id_of 1) "alice" 0 1000
    ∷ transfer (id_of 2) "alice" "bob" 0 400
    ∷ deposit (id_of 1) "alice" 1 7
    ∷ []

abbrev closing : AccountBook (postgres_store memory_codec memory_pool)
closing = record {
  accounts =
      ("alice", record { assets = (0, 600) ∷ (1, 7) ∷ []; locked_assets = [] })
      ∷ ("bob", record { assets = (0, 400) ∷ []; locked_assets = [] })
      ∷ [];
  world = after;
}

calls_run : run_all (postgres_store memory_codec memory_pool) 2 calls book ≡ finished closing
unfolding run_all run Book.deposit Book.transfer Book.get Book.on_account Book.write_back
    Book.persist_until Book.after_attempt enqueue background flush to_rows to_row insert_memory hex
    Account.credit Account.debit BTreeMap.get BTreeMap.insert
calls_run = refl

load_all-run_all_example :
    (loaded : List (Loaded memory_codec memory_pool)) × (load_all memory_codec memory_pool after
      ≡ done loaded)
    × Permᴰ loaded (map (λ (x : Transaction). ok x) (recorded calls []))
unfolding to_rows
load_all-run_all_example =
    load_all-run_all memory_codec memory_pool table_of memory_pool-IsTable 2 calls book closing []
      refl (refl, (refl, tt)) calls_run (Permᴰ.swap refl refl)
