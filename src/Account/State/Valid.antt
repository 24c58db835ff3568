-- ===== src/Account/State/Valid.antt =====
-- The invariant of an account's state, and what the balance and transaction-id helpers of
-- `src/account/aggregate.rs` do under it.
use cqrs_account.Prelude.{
  ℕ, ◌+◌, ◌-◌, ◌≤◌, ◌<◌, ◌≡◌, String, none, some, arith, string_eq, ◌==◌, if◌then◌else◌,
}
use cqrs_account.Outcome.{
  done, panic, u64_mod, balance_should_not_overflow, balance_should_not_be_negative,
}
use cqrs_account.BTreeMap
use cqrs_account.BTreeMap.{BTreeMap, get-insert, get-remove, IsDistinct}
use cqrs_account.BTreeMap.Sum.{sum}
use cqrs_account.Types.{Platform, ByteArray32}
use cqrs_account.Account.Processed.{ProcessedTransactions, get_timestamp}
use cqrs_account.Account.Processed.Laws.{
  IsValid as IsValidProcessed, Inserted, Removed, insert_lem, remove_lem,
}
use cqrs_account.Account.State.{
  BankAccountState, ReservedFunds, balance, add_balance, sub_balance, save_txid, remove_txid,
}

-- `amount` at `asset`, and 0 at any other asset.
abbrev pub at : String → ℕ → String → ℕ
at asset amount a = if asset == a then amount else 0

abbrev pub funds_of : String → ReservedFunds → ℕ
funds_of a r = at r.asset r.amount a

-- What the locks hold of an asset.
abbrev pub reserved : String → BankAccountState → ℕ
reserved a state = sum (funds_of a) state.reserving

-- The balance of `asset` set to `b`.
abbrev pub with_balance : String → ℕ → BankAccountState → BankAccountState
with_balance asset b state = record state { assets = BTreeMap.insert asset b state.assets }

pub balance-with_balance :
    (asset a : String) (b : ℕ) (state : BankAccountState)
    → balance a (with_balance asset b state) ≡ (if asset == a then b else balance a state)
balance-with_balance asset a b state = ground (arith, get-insert asset a b state.assets)

module _ (asset : String) (amount : ℕ) (state : BankAccountState) where
  pub add_balance-done :
      balance asset state + amount < u64_mod
      → add_balance asset amount state
        ≡ done (with_balance asset (balance asset state + amount) state)
  unfolding add_balance
  add_balance-done h = ground arith

  pub add_balance-panic :
      ¬ (balance asset state + amount < u64_mod)
      → add_balance asset amount state ≡ panic balance_should_not_overflow
  unfolding add_balance
  add_balance-panic h = ground arith

  pub sub_balance-done :
      amount ≤ balance asset state
      → sub_balance asset amount state
        ≡ done (with_balance asset (balance asset state - amount) state)
  unfolding sub_balance
  sub_balance-done h = ground arith

  pub sub_balance-panic :
      ¬ (amount ≤ balance asset state)
      → sub_balance asset amount state ≡ panic balance_should_not_be_negative
  unfolding sub_balance
  sub_balance-panic h = ground arith

module _ ⦃platform : Platform⦄ where
  -- The processed transactions are valid, no lock stands twice, and every balance is a `u64`.
  pub record IsValid (state : BankAccountState) : Type 0 where
    pub processed : IsValidProcessed state.processed_transactions
    pub distinct : IsDistinct state.reserving
    pub bounded : (a : String) → balance a state < u64_mod

  pub save_txid_lem :
      (txid : ByteArray32) (ts : ℕ) (state : BankAccountState)
      → IsValidProcessed state.processed_transactions
      → get_timestamp state.processed_transactions txid ≡ none
      → ts + state.processed_transactions.ttl < u64_mod
      → (p : ProcessedTransactions) × (save_txid txid ts state
          ≡ done (record state { processed_transactions = p }))
        × Inserted txid ts state.processed_transactions p
  unfolding save_txid
  save_txid_lem txid ts state v h f =
      let (p, e, i) = insert_lem txid ts state.processed_transactions v h f in (p, ground arith, i)

  pub remove_txid_lem :
      (txid : ByteArray32) (ts : ℕ) (state : BankAccountState)
      → IsValidProcessed state.processed_transactions
      → get_timestamp state.processed_transactions txid ≡ some ts
      → (p : ProcessedTransactions) × (remove_txid txid state
          ≡ done (record state { processed_transactions = p }))
        × Removed txid state.processed_transactions p
  unfolding remove_txid
  remove_txid_lem txid ts state v h =
      let (p, e, r) = remove_lem txid ts state.processed_transactions v h in (p, ground arith, r)
