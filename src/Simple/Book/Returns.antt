-- ===== src/Simple/Book/Returns.antt =====
-- The calls of the account book, over a store that fails a number of times.
use cqrs_account.Prelude.{
  string_eq, ℕ, ◌+◌, ◌-◌, ◌<◌, ◌≡◌, refl, ◌∙◌, ap, ◌⊎◌, arith, Bool-cases, ltb, inl, inr, beq_refl,
}
use cqrs_account.Outcome.{done, Result, ok, err, u64_mod}
use cqrs_account.BTreeMap
use cqrs_account.Types.{Platform, ByteArray32, byte_array32_eq}
use cqrs_account.Simple.Account
use cqrs_account.Simple.Account.{
  AssetId, asset_eq, Account, Error, insufficient_funds, Answer, balance,
}
use cqrs_account.Simple.Laws.{unlock_conserves}
use cqrs_account.Simple.Changes.{at, nothing, debit-Changes}
use cqrs_account.Simple.Store.{AccountId, Store}
use cqrs_account.Simple.Book
use cqrs_account.Simple.Book.{
  finished, Accounts, account_of, get, write_back, on_account, AccountBook,
}
use cqrs_account.Simple.Book.Calls.{Call, deposit, transfer, lock, unlock, transaction_of, run}
use cqrs_account.Simple.Book.Persist.{Fails, persist_until_returns}
use cqrs_account.Simple.Book.Entries.{
  book_total, IsValid, account_le, balance_le, get-Keeps, stepped-Keeps,
}
use cqrs_account.Simple.Book.Totals.{arriving}

Result-cases : (r : Result (Unit {0}) Error) → ((x : Error) × (r ≡ err x)) ⊎ (r ≡ ok tt)
Result-cases (err x) = inl (x, refl)
Result-cases (ok tt) = inr refl

-- An operation on an account that does not panic.
abbrev Completes : AccountId → (Account → Answer) → Accounts → Type 0
Completes id operation accounts =
    (r : Result (Unit {0}) Error) × (accounts' : Accounts) × (on_account id operation accounts
      ≡ finished (r, accounts'))

module _ ⦃platform : Platform⦄ (id : AccountId) (accounts : Accounts) where
  completes :
      (operation : Account → Answer) (r : Result (Unit {0}) Error) (account : Account)
      → operation (account_of id accounts) ≡ done (r, account)
      → Completes id operation accounts
  unfolding on_account write_back
  completes operation r account h =
      (r, BTreeMap.insert id account accounts, ap (write_back id accounts) h)

  credit-Completes :
      (asset : AssetId) (amount : ℕ)
      → balance asset (account_of id accounts) + amount < u64_mod
      → Completes id (Account.credit asset amount) accounts
  unfolding Account.credit
  credit-Completes asset amount f =
      completes (Account.credit asset amount) (ok tt)
        (Account.with_balance asset (balance asset (account_of id accounts) + amount)
          (account_of id accounts))
        (ground arith)

  debit-Completes :
      (asset : AssetId) (amount : ℕ) → Completes id (Account.debit asset amount) accounts
  unfolding Account.debit
  debit-Completes asset amount =
      elim (Bool-cases (ltb (balance asset (account_of id accounts)) amount)) [
        | inl e ↦
            completes (Account.debit asset amount) (err insufficient_funds)
              (Account.with_balance asset (balance asset (account_of id accounts))
                (account_of id accounts))
              (rw e refl)
        | inr e ↦
            completes (Account.debit asset amount) (ok tt)
              (Account.with_balance asset (balance asset (account_of id accounts) - amount)
                (account_of id accounts))
              (rw e refl)
      ]

  lock-Completes :
      (txid : ByteArray32) (asset : AssetId) (amount : ℕ)
      → Completes id (Account.lock txid asset amount) accounts
  unfolding Account.lock
  lock-Completes txid asset amount =
      let account = account_of id accounts in
      elim (Bool-cases (BTreeMap.contains_key txid account.locked_assets)) [
        | inl e ↦ completes (Account.lock txid asset amount) (ok tt) account (rw e refl)
        | inr e ↦ elim (Bool-cases (ltb (balance asset account) amount)) [
          | inl e' ↦
              completes (Account.lock txid asset amount) (err insufficient_funds)
                (Account.with_balance asset (balance asset account) account) (rw (e, e') refl)
          | inr e' ↦
              completes (Account.lock txid asset amount) (ok tt)
                (record (Account.with_balance asset (balance asset account - amount) account) {
                  locked_assets =
                      BTreeMap.insert txid (record { asset = asset; amount = amount })
                        account.locked_assets;
                })
                (rw (e, e') refl)
        ]
      ]

  unlock-Completes :
      (txid : ByteArray32)
      → IsValid accounts
      → ((a : AssetId) → book_total a accounts < u64_mod)
      → Completes id (Account.unlock txid) accounts
  unlock-Completes txid v f =
      let (account, e, _, _) =
        unlock_conserves txid (account_of id accounts) (v.locks id)
          (λ a. omega (arith, account_le a id accounts, f a)) in
      completes (Account.unlock txid) (ok tt) account e

module _ ⦃platform : Platform⦄ (store : Store) where
  -- The store fails a number of times and then takes the transaction of the call; the attempts are
  -- more than the failures, and the book is valid and stays in `u64`. Then the call returns.
  pub run_returns :
      (call : Call) (book : AccountBook store) (n attempts : ℕ) (w₁ w₂ : store.World)
      → IsValid book.accounts
      → ((a : AssetId) → book_total a book.accounts + arriving call a < u64_mod)
      → Fails store (transaction_of call) n book.world w₁
      → store.persist (transaction_of call) w₁ ≡ done (ok tt, w₂)
      → n < attempts
      → (r : Result (Unit {0}) Error) × (book' : AccountBook store) × (run store attempts call book
          ≡ finished (r, book'))
        × (book'.world ≡ w₂)
  unfolding run Book.deposit Book.transfer Book.lock Book.unlock
  run_returns (deposit txid id asset amount) book n attempts w₁ w₂ v f fails works lt =
      let p =
        persist_until_returns store (transaction_of (deposit txid id asset amount)) n attempts
          book.world w₁ w₂ fails works lt in
      let g = get-Keeps id book.accounts v in
      let (r, accounts, e) = credit-Completes id (get id book.accounts) asset amount (
        ground (
          arith,
          balance_le asset id (get id book.accounts),
          g.totals asset,
          f asset,
          beq_refl asset,
        )) in
      (ok tt, record { accounts = accounts; world = w₂ }, rw (p, e) refl, refl)
  run_returns (lock txid id asset amount) book n attempts w₁ w₂ v f fails works lt =
      let p =
        persist_until_returns store (transaction_of (lock txid id asset amount)) n attempts
          book.world w₁ w₂ fails works lt in
      let (r, accounts, e) = lock-Completes id (get id book.accounts) txid asset amount in
      (r, record { accounts = accounts; world = w₂ }, rw (p, e) refl, refl)
  run_returns (unlock txid id) book n attempts w₁ w₂ v f fails works lt =
      let p =
        persist_until_returns store (transaction_of (unlock txid id)) n attempts book.world w₁ w₂
          fails works lt in
      let g = get-Keeps id book.accounts v in
      let (r, accounts, e) =
        unlock-Completes id (get id book.accounts) txid g.valid
          (λ a. omega (arith, g.totals a, f a)) in
      (r, record { accounts = accounts; world = w₂ }, rw (p, e) refl, refl)
  run_returns (transfer txid from to asset amount) book n attempts w₁ w₂ v f fails works lt =
      let p =
        persist_until_returns store (transaction_of (transfer txid from to asset amount)) n attempts
          book.world w₁ w₂ fails works lt in
      let g = get-Keeps from book.accounts v in
      let k = get-Keeps to (get from book.accounts) g.valid in
      let accounts = get to (get from book.accounts) in
      let (r, between, e) = debit-Completes from accounts asset amount in
      elim (Result-cases r) [
        | inl (x, is) ↦ (err x, record { accounts = between; world = w₂ }, rw (p, e, is) refl, refl)
        | inr is ↦
            let e = e ∙ ap (λ (r : Result (Unit {0}) Error). finished (r, between)) is in
            let d =
              stepped-Keeps from (Account.debit asset amount) accounts between (ok tt) nothing
                (at asset amount) k.valid
                (λ account. debit-Changes asset amount (account_of from accounts) account (ok tt))
                e in
            let (r, accounts', e') = credit-Completes to between asset amount (
              ground (
                arith,
                balance_le asset to between,
                d.totals asset,
                k.totals asset,
                g.totals asset,
                f asset,
                beq_refl asset,
              )) in
            (ok tt, record { accounts = accounts'; world = w₂ }, rw (p, e, e') refl, refl)
      ]
