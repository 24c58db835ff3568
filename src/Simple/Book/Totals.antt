-- ===== src/Simple/Book/Totals.antt =====
-- What all accounts of the book own together, over any calls.
use cqrs_account.Prelude.{
  beq_refl, string_eq, ℕ, ◌+◌, ◌<◌, ◌≡◌, refl, arith, ◌⊎◌, inl, inr, List, [], ◌∷◌,
}
use cqrs_account.Outcome.{Result, ok, err, u64_mod}
use cqrs_account.Types.{Platform, ByteArray32, byte_array32_eq}
use cqrs_account.Simple.Account
use cqrs_account.Simple.Account.{AssetId, asset_eq, Account, Error, Answer, balance}
use cqrs_account.Simple.Changes.{
  at, nothing, paid, credit-Changes, debit-Changes, lock-Changes, unlock-Changes,
}
use cqrs_account.Simple.Store.{AccountId, Store}
use cqrs_account.Simple.Book.{finished, Accounts, account_of, get, on_account, AccountBook}
use cqrs_account.Simple.Book.Inversion.{
  ran_ends, ends, unwinds, retries, deposit_inv, lock_inv, unlock_inv, transfer_inv,
}
use cqrs_account.Simple.Book.Calls.{Call, deposit, transfer, lock, unlock, run, run_all}
use cqrs_account.Simple.Book.Entries.{
  book_total, IsValid, account_le, balance_le, Keeps, stepped-Keeps, get-Keeps, get-then,
}

-- What a call brings into the book.
abbrev pub arriving : Call → AssetId → ℕ
arriving (deposit _ _ asset amount) = at asset amount
arriving _ = nothing

module _ ⦃platform : Platform⦄ where
  pub credited-Keeps :
      (id : AccountId) (asset : AssetId) (amount : ℕ) (accounts accounts' : Accounts)
      (r : Result (Unit {0}) Error)
      → IsValid accounts
      → book_total asset accounts + amount < u64_mod
      → on_account id (Account.credit asset amount) accounts ≡ finished (r, accounts')
      → Keeps accounts accounts' (at asset amount) nothing
  credited-Keeps id asset amount accounts accounts' r v f h =
      stepped-Keeps id (Account.credit asset amount) accounts accounts' r (at asset amount) nothing
        v
        (λ account e.
          (credit-Changes asset amount (account_of id accounts) account r
            (omega (arith, balance_le asset id accounts, f)) e).0)
        h

  pub unlocked-Keeps :
      (id : AccountId) (txid : ByteArray32) (accounts accounts' : Accounts)
      (r : Result (Unit {0}) Error)
      → IsValid accounts
      → ((a : AssetId) → book_total a accounts < u64_mod)
      → on_account id (Account.unlock txid) accounts ≡ finished (r, accounts')
      → Keeps accounts accounts' nothing nothing
  unlocked-Keeps id txid accounts accounts' r v f h =
      stepped-Keeps id (Account.unlock txid) accounts accounts' r nothing nothing v
        (λ account e.
          (unlock-Changes txid (account_of id accounts) account r (v.locks id)
            (λ a. omega (arith, account_le a id accounts, f a)) e).0)
        h

  -- The two halves of a transfer, or the first alone, where it is refused.
  paid-Keeps :
      (from to : AccountId) (asset : AssetId) (amount : ℕ) (accounts between accounts' : Accounts)
      (r : Result (Unit {0}) Error)
      → IsValid accounts
      → book_total asset accounts < u64_mod
      → on_account from (Account.debit asset amount) accounts ≡ finished (r, between)
      → ((e : Error) × (r ≡ err e) × (accounts' ≡ between))
        ⊎ ((r ≡ ok tt)
            × (r' : Result (Unit {0}) Error) × (on_account to (Account.credit asset amount) between
                ≡ finished (r', accounts')))
      → Keeps accounts accounts' nothing nothing
  paid-Keeps from to asset amount accounts between accounts' r v f h rest =
      let d =
        stepped-Keeps from (Account.debit asset amount) accounts between r nothing
          (paid r asset amount) v
          (λ account e. debit-Changes asset amount (account_of from accounts) account r e) h in
      elim rest [
        | inl (e, refused, k) ↦ record {
          valid = rw k d.valid;
          totals = λ a. rw k (ground (arith, d.totals a, refused));
        }
        | inr (funded, r', k) ↦
            let c =
              credited-Keeps to asset amount between accounts' r' d.valid
                (ground (arith, d.totals asset, funded, beq_refl asset)) k in
            record { valid = c.valid; totals = λ a. ground (arith, c.totals a, d.totals a, funded) }
      ]

module _ ⦃platform : Platform⦄ (store : Store) (attempts : ℕ) where
  -- A call that returns keeps the book valid, and all accounts together own of each asset what they
  -- owned before and what the call brings, whether it succeeds or is refused, if that stays in `u64`.
  pub run-Keeps :
      (call : Call) (book book' : AccountBook store) (r : Result (Unit {0}) Error)
      → IsValid book.accounts
      → ((a : AssetId) → book_total a book.accounts + arriving call a < u64_mod)
      → run store attempts call book ≡ finished (r, book')
      → Keeps book.accounts book'.accounts (arriving call) nothing
  unfolding run
  run-Keeps (deposit txid id asset amount) book book' r v f h =
      let (r', s, e) = deposit_inv store attempts book book' r txid id asset amount h in
      get-then id book.accounts book'.accounts (at asset amount) nothing v λ v'.
        credited-Keeps id asset amount (get id book.accounts) book'.accounts r' v'
          (ground (arith, (get-Keeps id book.accounts v).totals asset, f asset, beq_refl asset))
          s.stepped
  run-Keeps (lock txid id asset amount) book book' r v f h =
      get-then id book.accounts book'.accounts nothing nothing v λ v'.
        stepped-Keeps id (Account.lock txid asset amount) (get id book.accounts) book'.accounts r
          nothing nothing v'
          (λ account.
            lock-Changes txid asset amount (account_of id (get id book.accounts)) account r)
          (lock_inv store attempts book book' r txid id asset amount h).stepped
  run-Keeps (unlock txid id) book book' r v f h =
      get-then id book.accounts book'.accounts nothing nothing v λ v'.
        unlocked-Keeps id txid (get id book.accounts) book'.accounts r v'
          (λ a. omega (arith, (get-Keeps id book.accounts v).totals a, f a))
          (unlock_inv store attempts book book' r txid id h).stepped
  run-Keeps (transfer txid from to asset amount) book book' r v f h =
      let t = transfer_inv store attempts book book' r txid from to asset amount h in
      let g = get-Keeps from book.accounts v in
      get-then from book.accounts book'.accounts nothing nothing v λ v'.
        get-then to (get from book.accounts) book'.accounts nothing nothing v' λ v''.
          paid-Keeps from to asset amount (get to (get from book.accounts)) t.between book'.accounts
            r v''
            (omega (
              arith,
              g.totals asset,
              (get-Keeps to (get from book.accounts) v').totals asset,
              f asset,
            ))
            t.debited t.rest

  abbrev pub arriving_all : List Call → AssetId → ℕ
  arriving_all [] a = 0
  arriving_all (call ∷ calls) a = arriving call a + arriving_all calls a

  -- Over any calls that return, whatever they return, all accounts together own of each asset what
  -- they owned before and what was deposited, if that stays in `u64`; the book stays valid.
  pub run_all-Keeps :
      (calls : List Call) (book book' : AccountBook store)
      → IsValid book.accounts
      → ((a : AssetId) → book_total a book.accounts + arriving_all calls a < u64_mod)
      → run_all store attempts calls book ≡ finished book'
      → Keeps book.accounts book'.accounts (arriving_all calls) nothing
  unfolding run_all
  run_all-Keeps [] book book' v f h =
      let e : book' ≡ book = ground arith in rw e (record { valid = v; totals = λ a. refl })
  run_all-Keeps (call ∷ calls) book book' v f h = elim (ran_ends (run store attempts call book)) [
    | ends (r, mid) e ↦
        let k = run-Keeps call book mid r v (λ a. omega (arith, f a)) e in
        let rest =
          run_all-Keeps calls mid book' k.valid (λ a. omega (arith, f a, k.totals a))
            (ground arith) in
        record { valid = rest.valid; totals = λ a. omega (arith, k.totals a, rest.totals a) }
    | unwinds p e ↦ absurd (ground arith)
    | retries e ↦ absurd (ground arith)
  ]
