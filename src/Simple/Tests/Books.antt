-- ===== src/Simple/Tests/Books.antt =====
-- The theorems about the account book at concrete inputs.
use cqrs_account.Prelude.{
  ℕ, ◌+◌, ◌<◌, ◌≡◌, refl, string_eq, none, List, [], ◌∷◌, ◌++◌, arith, Bool-cases, inl, inr, ◌==◌,
}
use cqrs_account.Outcome.{done, Result, ok, err, u64_mod}
use cqrs_account.BTreeMap
use cqrs_account.BTreeMap.{IsDistinct}
use cqrs_account.Types.{ByteArray32, byte_array32_eq}
use cqrs_account.TestPlatform.{test_platform, id_of}
use cqrs_account.Simple.Account
use cqrs_account.Simple.Account.{AssetId, asset_eq, Account, Error, insufficient_funds, balance}
use cqrs_account.Simple.Laws.{total}
use cqrs_account.Simple.Changes.{nothing}
use cqrs_account.Simple.Store.{AccountId, TransactionData, Transaction}
use cqrs_account.Simple.Book
use cqrs_account.Simple.Book.{Ran, finished, Accounts, account_of, AccountBook}
use cqrs_account.Simple.Book.Calls.{Call, deposit, transfer, lock, transaction_of, run, run_all}
use cqrs_account.Simple.Book.Persist.{Fails, none_yet, fails_again}
use cqrs_account.Simple.Book.Entries.{book_total, IsValid, Keeps}
use cqrs_account.Simple.Book.Totals.{arriving, arriving_all, run_all-Keeps}
use cqrs_account.Simple.Book.Returns.{run_returns}
use cqrs_account.Simple.Book.Log.{
  refused_transfer_logged, repeated_deposit_credits, unlock_never_logged,
}
use cqrs_account.Simple.Tests.Stores.{memory_store, persist_memory, HoldsLog, memory_store-IsLog}

-- One account, a log with one transaction, and a store that fails twice.
abbrev start : AccountBook memory_store
start = record {
  accounts = ("alice", record { assets = (0, 1000) ∷ []; locked_assets = [] }) ∷ [];
  world = (record { id = id_of 1; content = TransactionData.deposit "alice" 0 1000 } ∷ [], 2);
}

abbrev day : List Call
day =
    deposit (id_of 2) "bob" 1 5
    ∷ transfer (id_of 3) "alice" "bob" 0 400
    ∷ lock (id_of 4) "bob" 0 100
    ∷ transfer (id_of 5) "bob" "alice" 0 301
    ∷ []

abbrev evening : AccountBook memory_store
evening = record {
  accounts =
      ("alice", record { assets = (0, 600) ∷ []; locked_assets = [] })
      ∷ (
        "bob",
        record {
          assets = (1, 5) ∷ (0, 300) ∷ [];
          locked_assets = (id_of 4, record { asset = 0; amount = 100 }) ∷ [];
        },
      )
      ∷ [];
  world = (
    record { id = id_of 1; content = TransactionData.deposit "alice" 0 1000 }
        ∷ record { id = id_of 2; content = TransactionData.deposit "bob" 1 5 }
        ∷ record { id = id_of 3; content = TransactionData.transfer "alice" "bob" 0 400 }
        ∷ record { id = id_of 4; content = TransactionData.lock (id_of 4) "bob" 0 100 }
        ∷ record { id = id_of 5; content = TransactionData.transfer "bob" "alice" 0 301 }
        ∷ [],
    0,
  );
}

-- What is left of `start` after one call.
abbrev left :
    List (AssetId × ℕ)
    → List (ByteArray32 × Account.Lock)
    → List (AccountId × Account)
    → List Transaction
    → AccountBook memory_store
left assets locked_assets others added = record {
  accounts = ("alice", record { assets = assets; locked_assets = locked_assets }) ∷ others;
  world = (record { id = id_of 1; content = TransactionData.deposit "alice" 0 1000 } ∷ added, 0);
}

abbrev refused : AccountBook memory_store
refused =
    left ((0, 1000) ∷ []) [] (("bob", Book.default) ∷ [])
      (record { id = id_of 9; content = TransactionData.transfer "alice" "bob" 0 1001 } ∷ [])

abbrev repeated : AccountBook memory_store
repeated = left ((0, 1000) ∷ (1, 50) ∷ []) [] [] []

abbrev lock_tx : Transaction
lock_tx = record { id = id_of 4; content = TransactionData.lock (id_of 4) "alice" 0 100 }

abbrev locked : AccountBook memory_store
locked = left ((0, 900) ∷ []) ((id_of 4, record { asset = 0; amount = 100 }) ∷ []) [] (lock_tx ∷ [])

abbrev released : AccountBook memory_store
released = left ((0, 1000) ∷ []) [] [] (lock_tx ∷ [])

day_run : run_all memory_store 3 day start ≡ finished evening
unfolding run_all run Book.deposit Book.transfer Book.lock Book.unlock Book.get Book.on_account
    Book.write_back Book.persist_until Book.after_attempt persist_memory Account.credit
    Account.debit Account.lock Account.unlock BTreeMap.get BTreeMap.insert BTreeMap.remove
    BTreeMap.contains_key
day_run = refl

refused_run :
    Book.transfer memory_store 3 (id_of 9) "alice" "bob" 0 1001 start
    ≡ finished (err insufficient_funds, refused)
unfolding run_all run Book.deposit Book.transfer Book.lock Book.unlock Book.get Book.on_account
    Book.write_back Book.persist_until Book.after_attempt persist_memory Account.credit
    Account.debit Account.lock Account.unlock BTreeMap.get BTreeMap.insert BTreeMap.remove
    BTreeMap.contains_key
refused_run = refl

repeated_run : Book.deposit memory_store 3 (id_of 1) "alice" 1 50 start ≡ finished (ok tt, repeated)
unfolding run_all run Book.deposit Book.transfer Book.lock Book.unlock Book.get Book.on_account
    Book.write_back Book.persist_until Book.after_attempt persist_memory Account.credit
    Account.debit Account.lock Account.unlock BTreeMap.get BTreeMap.insert BTreeMap.remove
    BTreeMap.contains_key
repeated_run = refl

lock_run : Book.lock memory_store 3 (id_of 4) "alice" 0 100 start ≡ finished (ok tt, locked)
unfolding run_all run Book.deposit Book.transfer Book.lock Book.unlock Book.get Book.on_account
    Book.write_back Book.persist_until Book.after_attempt persist_memory Account.credit
    Account.debit Account.lock Account.unlock BTreeMap.get BTreeMap.insert BTreeMap.remove
    BTreeMap.contains_key
lock_run = refl

unlock_run : Book.unlock memory_store 3 (id_of 4) "alice" locked ≡ finished (ok tt, released)
unfolding run_all run Book.deposit Book.transfer Book.lock Book.unlock Book.get Book.on_account
    Book.write_back Book.persist_until Book.after_attempt persist_memory Account.credit
    Account.debit Account.lock Account.unlock BTreeMap.get BTreeMap.insert BTreeMap.remove
    BTreeMap.contains_key
unlock_run = refl

start-IsValid : IsValid start.accounts
unfolding BTreeMap.get
start-IsValid = record { distinct = (refl, tt); locks = no_locks }
  where
    no_locks : (id : AccountId) → IsDistinct (account_of id start.accounts).locked_assets
    no_locks id = elim (Bool-cases ("alice" == id)) [ inl e ↦ rw e tt | inr e ↦ rw e tt ]

day_fits : (a : AssetId) → book_total a start.accounts + arriving_all memory_store 3 day a < u64_mod
unfolding BTreeMap.get
day_fits a = ground arith

run_all-Keeps_example :
    Keeps start.accounts evening.accounts (arriving_all memory_store 3 day) nothing
run_all-Keeps_example =
    run_all-Keeps memory_store 3 day start evening start-IsValid day_fits day_run

abbrev payment : Call
payment = transfer (id_of 9) "alice" "bob" 0 400

tired : Fails memory_store (transaction_of payment) 2 start.world (start.world.0, 0)
unfolding persist_memory
tired = fails_again tt refl (fails_again tt refl none_yet)

took :
    memory_store.persist (transaction_of payment) (start.world.0, 0)
    ≡ done (ok tt, (start.world.0 ++ transaction_of payment ∷ [], 0))
unfolding persist_memory
took = refl

payment_fits : (a : AssetId) → book_total a start.accounts + arriving payment a < u64_mod
unfolding BTreeMap.get
payment_fits a = ground arith

run_returns_example :
    (r : Result (Unit {0}) Error) × (book' : AccountBook memory_store) × (run memory_store 3 payment
        start
      ≡ finished (r, book'))
    × (book'.world ≡ (start.world.0 ++ transaction_of payment ∷ [], 0))
run_returns_example =
    run_returns memory_store payment start 2 3 (start.world.0, 0)
      (start.world.0 ++ transaction_of payment ∷ [], 0) start-IsValid payment_fits tired took
      (omega arith)

refused_transfer_logged_example :
    (HoldsLog refused.world (
      start.world.0
      ++ record { id = id_of 9; content = TransactionData.transfer "alice" "bob" 0 1001 } ∷ []))
    × ((id : AccountId) (a : AssetId)
        → total a (account_of id refused.accounts) ≡ total a (account_of id start.accounts))
refused_transfer_logged_example =
    refused_transfer_logged memory_store HoldsLog memory_store-IsLog 3 start refused start.world.0
      refl (id_of 9) "alice" "bob" 0 1001 insufficient_funds refl refused_run

repeated_deposit_credits_example :
    (HoldsLog repeated.world start.world.0)
    × (total 1 (account_of "alice" repeated.accounts)
        ≡ total 1 (account_of "alice" start.accounts) + 50)
unfolding BTreeMap.get
repeated_deposit_credits_example =
    repeated_deposit_credits memory_store HoldsLog memory_store-IsLog 3 start repeated start.world.0
      refl (id_of 1) "alice" 1 50 (ok tt) refl (omega arith) repeated_run

alice_fits : (a : AssetId) → total a (account_of "alice" start.accounts) < u64_mod
unfolding BTreeMap.get
alice_fits a = ground arith

unlock_never_logged_example :
    (HoldsLog released.world (
      start.world.0
      ++ record { id = id_of 4; content = TransactionData.lock (id_of 4) "alice" 0 100 } ∷ []))
    × (BTreeMap.get (id_of 4) (account_of "alice" released.accounts).locked_assets ≡ none)
    × ((a : AssetId)
        → total a (account_of "alice" released.accounts)
          ≡ total a (account_of "alice" start.accounts))
unfolding BTreeMap.get
unlock_never_logged_example =
    unlock_never_logged memory_store HoldsLog memory_store-IsLog 3 start locked released
      start.world.0 refl (id_of 4) "alice" 0 100 (ok tt) (ok tt) tt alice_fits refl lock_run
      unlock_run
