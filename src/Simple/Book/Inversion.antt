-- ===== src/Simple/Book/Inversion.antt =====
-- What a call of the account book that has returned has gone through.
use cqrs_account.Prelude.{ℕ, ◌≡◌, refl, ◌⊎◌, inl, inr, arith, string_eq}
use cqrs_account.Outcome.{Panic, Result, ok, err}
use cqrs_account.Types.{Platform, ByteArray32}
use cqrs_account.Simple.Account
use cqrs_account.Simple.Account.{AssetId, Account, Error, Answer}
use cqrs_account.Simple.Store.{AccountId, TransactionData, Transaction, Store}
use cqrs_account.Simple.Book
use cqrs_account.Simple.Book.{
  Ran, finished, unwound, retrying, ◌>>=◌, Accounts, get, on_account, persist_until, AccountBook,
}

-- How far a call has come, with the equation.
pub data RanEnds {A : Type 0} (m : Ran A) : Type 0 where
  ends : (a : A) → m ≡ finished a → RanEnds m
  unwinds : (p : Panic) → m ≡ unwound p → RanEnds m
  retries : m ≡ retrying → RanEnds m

pub ran_ends : {A : Type 0} (m : Ran A) → RanEnds m
ran_ends (finished a) = ends a refl
ran_ends (unwound p) = unwinds p refl
ran_ends retrying = retries refl

module _ ⦃platform : Platform⦄ (store : Store) (attempts : ℕ) (book book' : AccountBook store)
    (r : Result (Unit {0}) Error) where
  -- The transaction has been persisted, and one operation has run on one account.
  pub record OneStep (tx : Transaction) (id : AccountId) (operation : Account → Answer)
      (r' : Result (Unit {0}) Error) : Type 0 where
    pub persisted : persist_until store attempts tx book.world ≡ finished book'.world
    pub stepped : on_account id operation (get id book.accounts) ≡ finished (r', book'.accounts)

  pub deposit_inv :
      (txid : ByteArray32) (id : AccountId) (asset : AssetId) (amount : ℕ)
      → Book.deposit store attempts txid id asset amount book ≡ finished (r, book')
      → (r' : Result (Unit {0}) Error) × OneStep
          (record { id = txid; content = TransactionData.deposit id asset amount })
          id
          (Account.credit asset amount)
          r'
        × (r ≡ ok tt)
  unfolding Book.deposit
  deposit_inv txid id asset amount h =
      elim (ran_ends (
        persist_until store attempts
          (record { id = txid; content = TransactionData.deposit id asset amount }) book.world)) [
            | ends w p ↦
                elim (ran_ends
                  (on_account id (Account.credit asset amount) (get id book.accounts))) [
                    | ends (r', accounts) q ↦ (
                      r',
                      record { persisted = ground arith; stepped = ground arith },
                      ground arith,
                    )
                    | unwinds x q ↦ absurd (ground arith)
                    | retries q ↦ absurd (ground arith)
                  ]
            | unwinds x p ↦ absurd (ground arith)
            | retries p ↦ absurd (ground arith)
          ]

  pub lock_inv :
      (txid : ByteArray32) (id : AccountId) (asset : AssetId) (amount : ℕ)
      → Book.lock store attempts txid id asset amount book ≡ finished (r, book')
      → OneStep
          (record { id = txid; content = TransactionData.lock txid id asset amount })
          id
          (Account.lock txid asset amount)
          r
  unfolding Book.lock
  lock_inv txid id asset amount h =
      elim (ran_ends (
        persist_until store attempts
          (record { id = txid; content = TransactionData.lock txid id asset amount }) book.world)) [
            | ends w p ↦
                elim (ran_ends
                  (on_account id (Account.lock txid asset amount) (get id book.accounts))) [
                    | ends (r', accounts) q ↦ record {
                      persisted = ground arith;
                      stepped = ground arith;
                    }
                    | unwinds x q ↦ absurd (ground arith)
                    | retries q ↦ absurd (ground arith)
                  ]
            | unwinds x p ↦ absurd (ground arith)
            | retries p ↦ absurd (ground arith)
          ]

  pub unlock_inv :
      (txid : ByteArray32) (id : AccountId)
      → Book.unlock store attempts txid id book ≡ finished (r, book')
      → OneStep
          (record { id = txid; content = TransactionData.unlock txid })
          id
          (Account.unlock txid)
          r
  unfolding Book.unlock
  unlock_inv txid id h =
      elim (ran_ends (
        persist_until store attempts (record { id = txid; content = TransactionData.unlock txid })
          book.world)) [
            | ends w p ↦
                elim (ran_ends (on_account id (Account.unlock txid) (get id book.accounts))) [
                  | ends (r', accounts) q ↦ record {
                    persisted = ground arith;
                    stepped = ground arith;
                  }
                  | unwinds x q ↦ absurd (ground arith)
                  | retries q ↦ absurd (ground arith)
                ]
            | unwinds x p ↦ absurd (ground arith)
            | retries p ↦ absurd (ground arith)
          ]

  -- The transaction has been persisted and the debit has run; if it was refused, nothing else has.
  pub record TwoSteps (txid : ByteArray32) (from to : AccountId) (asset : AssetId) (amount : ℕ)
      : Type 0 where
    pub persisted :
        persist_until store attempts
          (record { id = txid; content = TransactionData.transfer from to asset amount })
          book.world
        ≡ finished book'.world
    pub between : Accounts
    pub debited :
        on_account from (Account.debit asset amount) (get to (get from book.accounts))
        ≡ finished (r, between)
    pub rest :
        ((e : Error) × (r ≡ err e) × (book'.accounts ≡ between))
        ⊎ ((r ≡ ok tt)
            × (r' : Result (Unit {0}) Error) × (on_account to (Account.credit asset amount) between
                ≡ finished (r', book'.accounts)))

  pub transfer_inv :
      (txid : ByteArray32) (from to : AccountId) (asset : AssetId) (amount : ℕ)
      → Book.transfer store attempts txid from to asset amount book ≡ finished (r, book')
      → TwoSteps txid from to asset amount
  unfolding Book.transfer
  transfer_inv txid from to asset amount h =
      elim (ran_ends (
        persist_until store attempts
          (record { id = txid; content = TransactionData.transfer from to asset amount })
          book.world)) [
            | ends w p ↦
                elim (ran_ends (
                  on_account from (Account.debit asset amount) (get to (get from book.accounts)))) [
                    | ends (err e, accounts) q ↦ record {
                      persisted = ground arith;
                      between = accounts;
                      debited = ground arith;
                      rest = inl (e, ground arith, ground arith);
                    }
                    | ends (ok x, accounts) q ↦
                        elim (ran_ends (on_account to (Account.credit asset amount) accounts)) [
                          | ends (r', accounts') k ↦ record {
                            persisted = ground arith;
                            between = accounts;
                            debited = ground arith;
                            rest = inr (ground arith, r', ground arith);
                          }
                          | unwinds x k ↦ absurd (ground arith)
                          | retries k ↦ absurd (ground arith)
                        ]
                    | unwinds x q ↦ absurd (ground arith)
                    | retries q ↦ absurd (ground arith)
                  ]
            | unwinds x p ↦ absurd (ground arith)
            | retries p ↦ absurd (ground arith)
          ]
