-- ===== src/Simple/Book.antt =====
-- `AccountBook` of `src/simple/mod.rs`. A call runs alone in the functions here, from its start to its
-- end; the steps of calls that run at once are in `Interleaving`.
pub mod Persist
pub mod Inversion
pub mod Calls
pub mod Entries
pub mod Totals
pub mod Log
pub mod Returns
pub mod Recorded
pub mod Interleaving
use cqrs_account.Prelude.{ℕ, zero, suc, string_eq, Option, none, some, get_or, List, [], ◌∷◌}
use cqrs_account.Outcome.{Outcome, done, panic, Panic, Result, ok, err}
use cqrs_account.BTreeMap
use cqrs_account.BTreeMap.{BTreeMap}
use cqrs_account.Types.{Platform, ByteArray32}
use cqrs_account.Simple.Account
use cqrs_account.Simple.Account.{AssetId, Account, Error, Answer}
use cqrs_account.Simple.Store.{AccountId, TransactionData, Transaction, Store}

-- How far a call has come within the attempts that it is given: to its end, to a panic, or not yet
-- past the loop that retries.
pub data Ran (A : Type 0) : Type 0 where
  finished : A → Ran A
  unwound : Panic → Ran A
  retrying : Ran A

infixl 5 ◌>>=◌
abbrev pub ◌>>=◌ : {A B : Type 0} → Ran A → (A → Ran B) → Ran B
finished a >>= f = f a
unwound p >>= f = unwound p
retrying >>= f = retrying

-- `Account::default()`
abbrev pub default : Account
default = record { assets = []; locked_assets = [] }

abbrev pub Accounts : Type 0
Accounts = BTreeMap AccountId Account

-- What an account holds: nothing, until it is first used.
abbrev pub account_of : AccountId → Accounts → Account
account_of id accounts = get_or (BTreeMap.get id accounts) default

-- `AccountBook::get`: the account is in the map from then on. The `Arc` that it returns is the entry
-- itself, so an operation on it is one on the entry.
unfoldable pub get : AccountId → Accounts → Accounts
get id accounts = BTreeMap.insert id (account_of id accounts) accounts

-- What an operation leaves is the entry of its account.
unfoldable pub write_back : AccountId → Accounts → Answer → Ran (Result (Unit {0}) Error × Accounts)
write_back id accounts (done (r, account)) = finished (r, BTreeMap.insert id account accounts)
write_back id accounts (panic p) = unwound p

-- An operation on the entry of an account.
unfoldable pub on_account :
    AccountId → (Account → Answer) → Accounts → Ran (Result (Unit {0}) Error × Accounts)
unfolding write_back
on_account id operation accounts = write_back id accounts (operation (account_of id accounts))

module _ (store : Store) where
  -- What the loop does with the result of an attempt: it ends, or sleeps and tries again.
  unfoldable pub after_attempt :
      Outcome (Result (Unit {0}) store.Error × store.World)
      → (store.World → Ran store.World)
      → Ran store.World
  after_attempt (done (ok _, w)) again = finished w
  after_attempt (done (err _, w)) again = again w
  after_attempt (panic p) again = unwound p

  -- `while let Err(e) = self.store.persist(tx.clone()).await`, for so many attempts.
  unfoldable pub persist_until : ℕ → Transaction → store.World → Ran store.World
  persist_until zero tx w = retrying
  persist_until (suc attempts) tx w = after_attempt (store.persist tx w) (persist_until attempts tx)

  pub record AccountBook : Type 0 where
    pub accounts : Accounts
    pub world : store.World

  abbrev pub Returns : Type 0
  Returns = Ran (Result (Unit {0}) Error × AccountBook)

  module _ ⦃platform : Platform⦄ (attempts : ℕ) where
    unfoldable pub deposit : ByteArray32 → AccountId → AssetId → ℕ → AccountBook → Returns
    unfolding get on_account
    deposit txid account_id asset amount book = do
      let accounts = get account_id book.accounts
      w ←
          persist_until attempts
            (record { id = txid; content = TransactionData.deposit account_id asset amount })
            book.world
      (_, accounts) ← on_account account_id (Account.credit asset amount) accounts
      finished (ok tt, record { accounts = accounts; world = w })

    unfoldable pub transfer :
        ByteArray32 → AccountId → AccountId → AssetId → ℕ → AccountBook → Returns
    unfolding get on_account
    transfer txid from to asset amount book = do
      let accounts = get to (get from book.accounts)
      w ←
          persist_until attempts
            (record { id = txid; content = TransactionData.transfer from to asset amount })
            book.world
      (r, accounts) ← on_account from (Account.debit asset amount) accounts
      elim r [
        | err e ↦ finished (err e, record { accounts = accounts; world = w })
        | ok _ ↦ on_account to (Account.credit asset amount) accounts >>= λ credited.
            finished (ok tt, record { accounts = credited.1; world = w })
      ]

    unfoldable pub lock : ByteArray32 → AccountId → AssetId → ℕ → AccountBook → Returns
    unfolding get on_account
    lock txid account_id asset amount book = do
      let accounts = get account_id book.accounts
      w ←
          persist_until attempts
            (record { id = txid; content = TransactionData.lock txid account_id asset amount })
            book.world
      (r, accounts) ← on_account account_id (Account.lock txid asset amount) accounts
      finished (r, record { accounts = accounts; world = w })

    unfoldable pub unlock : ByteArray32 → AccountId → AccountBook → Returns
    unfolding get on_account
    unlock txid account_id book = do
      let accounts = get account_id book.accounts
      w ←
          persist_until attempts (record { id = txid; content = TransactionData.unlock txid })
            book.world
      (r, accounts) ← on_account account_id (Account.unlock txid) accounts
      finished (r, record { accounts = accounts; world = w })
