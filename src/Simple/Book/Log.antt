-- ===== src/Simple/Book/Log.antt =====
-- The accounts of the book against the log of its store.
use cqrs_account.Prelude.{
  string_eq, ℕ, ◌+◌, ◌<◌, ◌≡◌, refl, if◌then◌else◌, ◌==◌, true, false, none, arith, Bool-cases, inl,
  inr, List, [], ◌∷◌, ◌++◌, beq_refl,
}
use cqrs_account.Outcome.{done, Result, err, u64_mod}
use cqrs_account.BTreeMap
use cqrs_account.BTreeMap.{get-insert, IsDistinct}
use cqrs_account.Types.{Platform, ByteArray32, byte_array32_eq}
use cqrs_account.Simple.Account
use cqrs_account.Simple.Account.{
  AssetId, asset_eq, Account, Error, Answer, balance, insufficient_funds,
}
use cqrs_account.Simple.Laws.{total, unlock_conserves}
use cqrs_account.Simple.Changes.{credit-Changes, debit-Changes, lock-Changes}
use cqrs_account.Simple.Store.{
  AccountId, TransactionData, Transaction, Store, IsLog, has_id, append_new,
}
use cqrs_account.Simple.Book
use cqrs_account.Simple.Book.{finished, Accounts, account_of, get, on_account, AccountBook}
use cqrs_account.Simple.Book.Persist.{persist_until-Holds}
use cqrs_account.Simple.Book.Inversion.{deposit_inv, transfer_inv, lock_inv, unlock_inv}
use cqrs_account.Simple.Book.Entries.{on_account-finished}

account_of-insert :
    (i j : AccountId) (account : Account) (accounts : Accounts)
    → account_of j (BTreeMap.insert i account accounts)
      ≡ (if i == j then account else account_of j accounts)
account_of-insert i j account accounts = ground (arith, get-insert i j account accounts)

account_of-get :
    (i j : AccountId) (accounts : Accounts) → account_of j (get i accounts) ≡ account_of j accounts
unfolding get
account_of-get i j accounts =
    ground (arith, account_of-insert i j (account_of i accounts) accounts, string_eq.reflects i j)

append_new_new :
    (t : Transaction) (log : List Transaction)
    → has_id t.id log ≡ false
    → append_new t log ≡ log ++ t ∷ []
append_new_new t log new = rw new refl

append_new_old :
    (t : Transaction) (log : List Transaction) → has_id t.id log ≡ true → append_new t log ≡ log
append_new_old t log old = rw old refl

module _ ⦃platform : Platform⦄ (store : Store) (Holds : store.World → List Transaction → Type 0)
    (l : IsLog store Holds) (attempts : ℕ) (book book' : AccountBook store) (log : List Transaction)
    (holds : Holds book.world log) where
  -- A transfer under a new id that is refused stands in the log all the same, while every account
  -- owns what it owned before.
  pub refused_transfer_logged :
      (txid : ByteArray32) (from to : AccountId) (asset : AssetId) (amount : ℕ) (e : Error)
      → has_id txid log ≡ false
      → Book.transfer store attempts txid from to asset amount book ≡ finished (err e, book')
      → Holds book'.world (
          log ++ record { id = txid; content = TransactionData.transfer from to asset amount } ∷ [])
        × ((id : AccountId) (a : AssetId)
            → total a (account_of id book'.accounts) ≡ total a (account_of id book.accounts))
  refused_transfer_logged txid from to asset amount e new h =
      let t = transfer_inv store attempts book book' (err e) txid from to asset amount h in
      let tx : Transaction = record {
        id = txid;
        content = TransactionData.transfer from to asset amount;
      } in
      let accounts = get to (get from book.accounts) in
      let (account, d, k) =
        on_account-finished from (Account.debit asset amount) accounts t.between (err e)
          t.debited in
      let c = debit-Changes asset amount (account_of from accounts) account (err e) d in
      elim t.rest [
        | inl (e', r, same) ↦ (
          rw (append_new_new tx log new) at (
              persist_until-Holds store Holds l tx attempts book.world book'.world log holds
                t.persisted),
          λ id a.
              rw (same, k)
                (ground (
                  arith,
                  c.totals a,
                  account_of-insert from id account accounts,
                  string_eq.reflects from id,
                  account_of-get to id (get from book.accounts),
                  account_of-get from id book.accounts,
                )),
        )
        | inr (r, _, _) ↦ absurd (ground arith)
      ]

  -- A deposit under an id that the log has already leaves the log as it is, and the account gains the
  -- amount again, if the balance stays in `u64`.
  pub repeated_deposit_credits :
      (txid : ByteArray32) (id : AccountId) (asset : AssetId) (amount : ℕ)
      (r : Result (Unit {0}) Error)
      → has_id txid log ≡ true
      → balance asset (account_of id book.accounts) + amount < u64_mod
      → Book.deposit store attempts txid id asset amount book ≡ finished (r, book')
      → Holds book'.world log
        × (total asset (account_of id book'.accounts)
            ≡ total asset (account_of id book.accounts) + amount)
  repeated_deposit_credits txid id asset amount r old f h =
      let (r', s, e) = deposit_inv store attempts book book' r txid id asset amount h in
      let tx : Transaction = record {
        id = txid;
        content = TransactionData.deposit id asset amount;
      } in
      let accounts = get id book.accounts in
      let (account, d, k) =
        on_account-finished id (Account.credit asset amount) accounts book'.accounts r' s.stepped in
      let same = account_of-get id id book.accounts in
      let (c, good) =
        credit-Changes asset amount (account_of id accounts) account r' (rw same f) d in
      (
        rw (append_new_old tx log old) at (
            persist_until-Holds store Holds l tx attempts book.world book'.world log holds
              s.persisted),
        rw k (
            ground (
              arith,
              c.totals asset,
              account_of-insert id id account accounts,
              beq_refl id,
              same,
              beq_refl asset,
            )),
      )

only_step-done :
    (id : AccountId) (operation : Account → Answer) (accounts accounts' : Accounts)
    (r : Result (Unit {0}) Error)
    → on_account id operation (get id accounts) ≡ finished (r, accounts')
    → operation (account_of id accounts) ≡ done (r, account_of id accounts')
only_step-done id operation accounts accounts' r h =
    let (account, e, k) = on_account-finished id operation (get id accounts) accounts' r h in
    rw
      (
        k,
        account_of-insert id id account (get id accounts),
        beq_refl id,
        ← account_of-get id id accounts,
      )
      e

has_id-last : (t : Transaction) (items : List Transaction) → has_id t.id (items ++ t ∷ []) ≡ true
has_id-last t [] = rw (beq_refl t.id) refl
has_id-last t (x ∷ items) = rw (has_id-last t items) (ground arith)

has_id-append_new :
    (t : Transaction) (items : List Transaction) → has_id t.id (append_new t items) ≡ true
has_id-append_new t items = elim (Bool-cases (has_id t.id items)) [
  | inl e ↦ rw e e
  | inr e ↦ rw e (has_id-last t items)
]

module _ ⦃platform : Platform⦄ (store : Store) (Holds : store.World → List Transaction → Type 0)
    (l : IsLog store Holds) (attempts : ℕ) (book book' book'' : AccountBook store)
    (log : List Transaction) (holds : Holds book.world log) where
  -- An unlock of a lock that the log has, under the id of that lock, as the program asks for it: when
  -- both have returned, the log has the lock and not the unlock, while the account holds no lock of the
  -- id, if its locks have distinct ids and what it owns is in `u64`.
  pub unlock_never_logged :
      (txid : ByteArray32) (id : AccountId) (asset : AssetId) (amount : ℕ)
      (r r' : Result (Unit {0}) Error)
      → IsDistinct (account_of id book.accounts).locked_assets
      → ((a : AssetId) → total a (account_of id book.accounts) < u64_mod)
      → has_id txid log ≡ false
      → Book.lock store attempts txid id asset amount book ≡ finished (r, book')
      → Book.unlock store attempts txid id book' ≡ finished (r', book'')
      → Holds book''.world
          (log ++ record { id = txid; content = TransactionData.lock txid id asset amount } ∷ [])
        × (BTreeMap.get txid (account_of id book''.accounts).locked_assets ≡ none)
        × ((a : AssetId)
            → total a (account_of id book''.accounts) ≡ total a (account_of id book.accounts))
  unlock_never_logged txid id asset amount r r' d f new h h' =
      let s = lock_inv store attempts book book' r txid id asset amount h in
      let s' = unlock_inv store attempts book' book'' r' txid id h' in
      let tx : Transaction = record {
        id = txid;
        content = TransactionData.lock txid id asset amount;
      } in
      let tx' : Transaction = record { id = txid; content = TransactionData.unlock txid } in
      let locked =
        persist_until-Holds store Holds l tx attempts book.world book'.world log holds
          s.persisted in
      let unlocked =
        persist_until-Holds store Holds l tx' attempts book'.world book''.world (append_new tx log)
          locked s'.persisted in
      let o =
        only_step-done id (Account.lock txid asset amount) book.accounts book'.accounts r
          s.stepped in
      let o' =
        only_step-done id (Account.unlock txid) book'.accounts book''.accounts r' s'.stepped in
      let c =
        lock-Changes txid asset amount (account_of id book.accounts) (account_of id book'.accounts)
          r o in
      let (account, e, same, gone) =
        unlock_conserves txid (account_of id book'.accounts) (c.distinct d)
          (λ a. omega (arith, c.totals a, f a)) in
      let k : account_of id book''.accounts ≡ account = ground (arith, o', e) in
      (
        rw
            (
              append_new_old tx' (append_new tx log) (has_id-append_new tx log),
              append_new_new tx log new,
            )
            at unlocked,
        rw k gone,
        λ a. rw k (omega (arith, same a, c.totals a)),
      )
