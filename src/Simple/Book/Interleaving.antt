-- ===== src/Simple/Book/Interleaving.antt =====
-- Calls of the account book that run at once: what each does between two of its locks and awaits is one
-- step, and the steps of the calls come in any order.
pub mod Laws
use cqrs_account.Prelude.{ℕ, ◌≡◌, List, ◌∷◌}
use cqrs_account.Outcome.{done, Result, ok, err}
use cqrs_account.Types.{Platform}
use cqrs_account.Simple.Account
use cqrs_account.Simple.Account.{AssetId, Account, Error, Answer}
use cqrs_account.Simple.Store.{AccountId, Store}
use cqrs_account.Simple.Book.{finished, Accounts, get, on_account, AccountBook}
use cqrs_account.Simple.Book.Calls.{Call, deposit, transfer, lock, unlock, transaction_of}

-- How far a call has come.
pub data Task : Type 0 where
  -- before its accounts are in the map
  called : Call → Task
  -- in the loop that persists its transaction
  persisting : Call → Task
  -- before its first operation on an account
  applying : Call → Task
  -- a transfer between its debit and its credit: to, asset, amount
  crediting : AccountId → AssetId → ℕ → Task
  returning : Result (Unit {0}) Error → Task

-- The calls of `get` at the beginning.
abbrev pub opened : Call → Accounts → Accounts
opened (deposit _ id _ _) accounts = get id accounts
opened (transfer _ from to _ _) accounts = get to (get from accounts)
opened (lock _ id _ _) accounts = get id accounts
opened (unlock _ id) accounts = get id accounts

module _ ⦃platform : Platform⦄ where
  -- The first operation, and the account that it works on.
  abbrev pub operation_of : Call → AccountId × (Account → Answer)
  operation_of (deposit _ id asset amount) = (id, Account.credit asset amount)
  operation_of (transfer _ from _ asset amount) = (from, Account.debit asset amount)
  operation_of (lock txid id asset amount) = (id, Account.lock txid asset amount)
  operation_of (unlock txid id) = (id, Account.unlock txid)

  -- What comes after it, by its result.
  abbrev pub next : Call → Result (Unit {0}) Error → Task
  next (deposit _ _ _ _) r = returning (ok tt)
  next (transfer _ _ to asset amount) (ok _) = crediting to asset amount
  next (transfer _ _ _ _ _) (err e) = returning (err e)
  next (lock _ _ _ _) r = returning r
  next (unlock _ _) r = returning r

  module _ (store : Store) where
    pub data TaskStep : AccountBook store → Task → AccountBook store → Task → Type 0 where
      enters :
          (call : Call) (accounts : Accounts) (w : store.World)
          → TaskStep
              (record { accounts = accounts; world = w })
              (called call)
              (record { accounts = opened call accounts; world = w })
              (persisting call)
      tries_again :
          (call : Call) (accounts : Accounts) (w w' : store.World) (e : store.Error)
          → store.persist (transaction_of call) w ≡ done (err e, w')
          → TaskStep
              (record { accounts = accounts; world = w })
              (persisting call)
              (record { accounts = accounts; world = w' })
              (persisting call)
      persists :
          (call : Call) (accounts : Accounts) (w w' : store.World)
          → store.persist (transaction_of call) w ≡ done (ok tt, w')
          → TaskStep
              (record { accounts = accounts; world = w })
              (persisting call)
              (record { accounts = accounts; world = w' })
              (applying call)
      operates :
          (call : Call) (accounts accounts' : Accounts) (w : store.World)
          (r : Result (Unit {0}) Error)
          → on_account (operation_of call).0 (operation_of call).1 accounts
            ≡ finished (r, accounts')
          → TaskStep
              (record { accounts = accounts; world = w })
              (applying call)
              (record { accounts = accounts'; world = w })
              (next call r)
      credits :
          (to : AccountId) (asset : AssetId) (amount : ℕ) (accounts accounts' : Accounts)
          (w : store.World) (r : Result (Unit {0}) Error)
          → on_account to (Account.credit asset amount) accounts ≡ finished (r, accounts')
          → TaskStep
              (record { accounts = accounts; world = w })
              (crediting to asset amount)
              (record { accounts = accounts'; world = w })
              (returning (ok tt))

    -- One of the tasks takes a step.
    pub data ListStep (book book' : AccountBook store) : List Task → List Task → Type 0 where
      first :
          {t t' : Task} {rest : List Task}
          → TaskStep book t book' t'
          → ListStep book book' (t ∷ rest) (t' ∷ rest)
      later :
          {t : Task} {rest rest' : List Task}
          → ListStep book book' rest rest'
          → ListStep book book' (t ∷ rest) (t ∷ rest')

    -- Any number of steps, one after the other.
    pub data Interleaving
        : AccountBook store → List Task → AccountBook store → List Task → Type 0 where
      at_rest : {book : AccountBook store} {tasks : List Task} → Interleaving book tasks book tasks
      moves :
          {book book₁ book₂ : AccountBook store} {tasks tasks₁ tasks₂ : List Task}
          → ListStep book book₁ tasks tasks₁
          → Interleaving book₁ tasks₁ book₂ tasks₂
          → Interleaving book tasks book₂ tasks₂
