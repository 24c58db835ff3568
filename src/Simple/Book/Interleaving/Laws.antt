-- ===== src/Simple/Book/Interleaving/Laws.antt =====
-- What all accounts of the book own together, while calls run at once.
use cqrs_account.Prelude.{ℕ, ◌+◌, ◌<◌, ◌≡◌, refl, beq_refl, arith, List, [], ◌∷◌}
use cqrs_account.Outcome.{Result, ok, err, u64_mod}
use cqrs_account.Types.{Platform}
use cqrs_account.Simple.Account
use cqrs_account.Simple.Account.{AssetId, asset_eq, Error}
use cqrs_account.Simple.Changes.{at, nothing, debit-Changes, lock-Changes}
use cqrs_account.Simple.Store.{Store}
use cqrs_account.Simple.Book.{finished, Accounts, account_of, get, on_account, AccountBook}
use cqrs_account.Simple.Book.Calls.{Call, deposit, transfer, lock, unlock}
use cqrs_account.Simple.Book.Entries.{book_total, IsValid, stepped-Keeps, get-Keeps}
use cqrs_account.Simple.Book.Totals.{arriving, credited-Keeps, unlocked-Keeps}
use cqrs_account.Simple.Book.Interleaving.{
  Task, called, persisting, applying, crediting, returning, opened, operation_of, next, TaskStep,
  enters, tries_again, persists, operates, credits, ListStep, first, later, Interleaving, at_rest,
  moves,
}

-- What a task has still to bring into the accounts: a deposit that is not yet made, or what a transfer
-- has debited and not yet credited.
abbrev pub owed : Task → AssetId → ℕ
owed (called call) = arriving call
owed (persisting call) = arriving call
owed (applying call) = arriving call
owed (crediting _ asset amount) = at asset amount
owed (returning _) = nothing

abbrev pub owed_all : List Task → AssetId → ℕ
owed_all [] a = 0
owed_all (t ∷ tasks) a = owed t a + owed_all tasks a

-- The book is valid, and nothing is lost or made between two moments.
pub record IsBalanced (accounts accounts' : Accounts) (before after : AssetId → ℕ) : Type 0 where
  pub valid : IsValid accounts'
  pub totals : (a : AssetId) → book_total a accounts' + after a ≡ book_total a accounts + before a

module _ ⦃platform : Platform⦄ where
  opened-IsBalanced :
      (call : Call) (accounts : Accounts) (coming : AssetId → ℕ)
      → IsValid accounts
      → IsBalanced accounts (opened call accounts) coming coming
  opened-IsBalanced (deposit _ id _ _) accounts coming v =
      let g = get-Keeps id accounts v in
      record { valid = g.valid; totals = λ a. omega (arith, g.totals a) }
  opened-IsBalanced (lock _ id _ _) accounts coming v =
      let g = get-Keeps id accounts v in
      record { valid = g.valid; totals = λ a. omega (arith, g.totals a) }
  opened-IsBalanced (unlock _ id) accounts coming v =
      let g = get-Keeps id accounts v in
      record { valid = g.valid; totals = λ a. omega (arith, g.totals a) }
  opened-IsBalanced (transfer _ from to _ _) accounts coming v =
      let g = get-Keeps from accounts v in
      let k = get-Keeps to (get from accounts) g.valid in
      record { valid = k.valid; totals = λ a. omega (arith, g.totals a, k.totals a) }

  operated-IsBalanced :
      (call : Call) (accounts accounts' : Accounts) (r : Result (Unit {0}) Error)
      → IsValid accounts
      → ((a : AssetId) → book_total a accounts + arriving call a < u64_mod)
      → on_account (operation_of call).0 (operation_of call).1 accounts ≡ finished (r, accounts')
      → IsBalanced accounts accounts' (arriving call) (owed (next call r))
  operated-IsBalanced (deposit txid id asset amount) accounts accounts' r v f h =
      let k =
        credited-Keeps id asset amount accounts accounts' r v
          (ground (arith, f asset, beq_refl asset)) h in
      record { valid = k.valid; totals = k.totals }
  operated-IsBalanced (lock txid id asset amount) accounts accounts' r v f h =
      let k =
        stepped-Keeps id (Account.lock txid asset amount) accounts accounts' r nothing nothing v
          (λ account. lock-Changes txid asset amount (account_of id accounts) account r) h in
      record { valid = k.valid; totals = k.totals }
  operated-IsBalanced (unlock txid id) accounts accounts' r v f h =
      let k = unlocked-Keeps id txid accounts accounts' r v (λ a. omega (arith, f a)) h in
      record { valid = k.valid; totals = k.totals }
  operated-IsBalanced (transfer txid from to asset amount) accounts accounts' (ok x) v f h =
      let k =
        stepped-Keeps from (Account.debit asset amount) accounts accounts' (ok x) nothing
          (at asset amount) v
          (λ account. debit-Changes asset amount (account_of from accounts) account (ok x)) h in
      record { valid = k.valid; totals = k.totals }
  operated-IsBalanced (transfer txid from to asset amount) accounts accounts' (err x) v f h =
      let k =
        stepped-Keeps from (Account.debit asset amount) accounts accounts' (err x) nothing nothing v
          (λ account. debit-Changes asset amount (account_of from accounts) account (err x)) h in
      record { valid = k.valid; totals = k.totals }

  module _ (store : Store) where
    TaskStep-IsBalanced :
        {book book' : AccountBook store} {t t' : Task}
        → TaskStep store book t book' t'
        → IsValid book.accounts
        → ((a : AssetId) → book_total a book.accounts + owed t a < u64_mod)
        → IsBalanced book.accounts book'.accounts (owed t) (owed t')
    TaskStep-IsBalanced (enters call accounts w) v f =
        opened-IsBalanced call accounts (arriving call) v
    TaskStep-IsBalanced (tries_again call accounts w w' e h) v f = record {
      valid = v;
      totals = λ a. refl;
    }
    TaskStep-IsBalanced (persists call accounts w w' h) v f = record {
      valid = v;
      totals = λ a. refl;
    }
    TaskStep-IsBalanced (operates call accounts accounts' w r h) v f =
        operated-IsBalanced call accounts accounts' r v f h
    TaskStep-IsBalanced (credits to asset amount accounts accounts' w r h) v f =
        let k =
          credited-Keeps to asset amount accounts accounts' r v
            (ground (arith, f asset, beq_refl asset)) h in
        record { valid = k.valid; totals = k.totals }

    ListStep-IsBalanced :
        {book book' : AccountBook store} {tasks tasks' : List Task}
        → ListStep store book book' tasks tasks'
        → IsValid book.accounts
        → ((a : AssetId) → book_total a book.accounts + owed_all tasks a < u64_mod)
        → IsBalanced book.accounts book'.accounts (owed_all tasks) (owed_all tasks')
    ListStep-IsBalanced (first s) v f =
        let k = TaskStep-IsBalanced s v (λ a. omega (arith, f a)) in
        record { valid = k.valid; totals = λ a. omega (arith, k.totals a) }
    ListStep-IsBalanced (later s) v f =
        let k = ListStep-IsBalanced s v (λ a. omega (arith, f a)) in
        record { valid = k.valid; totals = λ a. omega (arith, k.totals a) }

    -- However the steps of calls come one after the other, while none panics: the book stays valid, and
    -- what all accounts own together of an asset and what the calls have still to bring into them is the
    -- same at the end as at the beginning, if it is in `u64` there.
    pub Interleaving-IsBalanced :
        {book book' : AccountBook store} {tasks tasks' : List Task}
        → Interleaving store book tasks book' tasks'
        → IsValid book.accounts
        → ((a : AssetId) → book_total a book.accounts + owed_all tasks a < u64_mod)
        → IsBalanced book.accounts book'.accounts (owed_all tasks) (owed_all tasks')
    Interleaving-IsBalanced at_rest v f = record { valid = v; totals = λ a. refl }
    Interleaving-IsBalanced (moves s more) v f =
        let k = ListStep-IsBalanced s v f in
        let k' = Interleaving-IsBalanced more k.valid (λ a. omega (arith, f a, k.totals a)) in
        record { valid = k'.valid; totals = λ a. omega (arith, k.totals a, k'.totals a) }
