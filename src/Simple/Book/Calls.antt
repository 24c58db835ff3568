-- ===== src/Simple/Book/Calls.antt =====
-- The methods of `AccountBook` as calls, one after the other.
use cqrs_account.Prelude.{ℕ, List, [], ◌∷◌}
use cqrs_account.Types.{Platform, ByteArray32}
use cqrs_account.Simple.Account.{AssetId}
use cqrs_account.Simple.Store.{AccountId, TransactionData, Transaction, Store}
use cqrs_account.Simple.Book
use cqrs_account.Simple.Book.{Ran, finished, ◌>>=◌, AccountBook, Returns}

pub data Call : Type 0 where
  -- txid, account_id, asset, amount
  deposit : ByteArray32 → AccountId → AssetId → ℕ → Call
  -- txid, from, to, asset, amount
  transfer : ByteArray32 → AccountId → AccountId → AssetId → ℕ → Call
  -- txid, account_id, asset, amount
  lock : ByteArray32 → AccountId → AssetId → ℕ → Call
  -- txid, account_id
  unlock : ByteArray32 → AccountId → Call

-- The transaction that a call persists.
abbrev pub transaction_of : Call → Transaction
transaction_of (deposit txid id asset amount) = record {
  id = txid;
  content = TransactionData.deposit id asset amount;
}
transaction_of (transfer txid from to asset amount) = record {
  id = txid;
  content = TransactionData.transfer from to asset amount;
}
transaction_of (lock txid id asset amount) = record {
  id = txid;
  content = TransactionData.lock txid id asset amount;
}
transaction_of (unlock txid id) = record { id = txid; content = TransactionData.unlock txid }

module _ ⦃platform : Platform⦄ (store : Store) (attempts : ℕ) where
  unfoldable pub run : Call → AccountBook store → Returns store
  run (deposit txid account_id asset amount) =
      Book.deposit store attempts txid account_id asset amount
  run (transfer txid from to asset amount) = Book.transfer store attempts txid from to asset amount
  run (lock txid account_id asset amount) = Book.lock store attempts txid account_id asset amount
  run (unlock txid account_id) = Book.unlock store attempts txid account_id

  -- The calls of a client that makes one after the other, whatever they return.
  unfoldable pub run_all : List Call → AccountBook store → Ran (AccountBook store)
  run_all [] book = finished book
  run_all (call ∷ calls) book = run call book >>= λ returned. run_all calls returned.1
