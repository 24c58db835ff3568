-- ===== src/Simple/Book/Recorded.antt =====
-- The log of the store, over calls of the account book.
use cqrs_account.Prelude.{ℕ, ◌≡◌, arith, List, [], ◌∷◌}
use cqrs_account.Outcome.{Result}
use cqrs_account.Types.{Platform}
use cqrs_account.Simple.Account.{Error}
use cqrs_account.Simple.Store.{Transaction, Store, IsLog, append_new}
use cqrs_account.Simple.Book.{finished, persist_until, AccountBook}
use cqrs_account.Simple.Book.Calls.{
  Call, deposit, transfer, lock, unlock, transaction_of, run, run_all,
}
use cqrs_account.Simple.Book.Persist.{persist_until-Holds}
use cqrs_account.Simple.Book.Inversion.{
  ran_ends, ends, unwinds, retries, deposit_inv, lock_inv, unlock_inv, transfer_inv,
}

-- The log after the transactions of some calls: the first of each id.
abbrev pub recorded : List Call → List Transaction → List Transaction
recorded [] log = log
recorded (call ∷ calls) log = recorded calls (append_new (transaction_of call) log)

module _ ⦃platform : Platform⦄ (store : Store) (Holds : store.World → List Transaction → Type 0)
    (l : IsLog store Holds) (attempts : ℕ) where
  run-persist_until :
      (call : Call) (book book' : AccountBook store) (r : Result (Unit {0}) Error)
      → run store attempts call book ≡ finished (r, book')
      → persist_until store attempts (transaction_of call) book.world ≡ finished book'.world
  unfolding run
  run-persist_until (deposit txid id asset amount) book book' r h =
      let (r', s, e) = deposit_inv store attempts book book' r txid id asset amount h in s.persisted
  run-persist_until (transfer txid from to asset amount) book book' r h =
      (transfer_inv store attempts book book' r txid from to asset amount h).persisted
  run-persist_until (lock txid id asset amount) book book' r h =
      (lock_inv store attempts book book' r txid id asset amount h).persisted
  run-persist_until (unlock txid id) book book' r h =
      (unlock_inv store attempts book book' r txid id h).persisted

  pub run_all-Holds :
      (calls : List Call) (book book' : AccountBook store) (log : List Transaction)
      → Holds book.world log
      → run_all store attempts calls book ≡ finished book'
      → Holds book'.world (recorded calls log)
  unfolding run_all
  run_all-Holds [] book book' log k h = let e : book' ≡ book = ground arith in rw e k
  run_all-Holds (call ∷ calls) book book' log k h = elim (ran_ends (run store attempts call book)) [
    | ends (r, mid) e ↦
        run_all-Holds calls mid book' (append_new (transaction_of call) log)
          (persist_until-Holds store Holds l (transaction_of call) attempts book.world mid.world log
            k (run-persist_until call book mid r e))
          (ground arith)
    | unwinds p e ↦ absurd (ground arith)
    | retries e ↦ absurd (ground arith)
  ]
