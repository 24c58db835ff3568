-- ===== src/Account/State.antt =====
-- `Account`, `BankAccountState` and `ReservedFunds` of `src/account/aggregate.rs`.
pub mod Valid
use cqrs_account.Prelude.{string_eq, ℕ, String, Bool, ◌&&◌, get_or}
use cqrs_account.Outcome.{
  Outcome, done, panic, expect, checked_add, checked_sub, ◌>>=◌, ok, err, txid_already_exists,
  txid_does_not_exist, balance_should_not_overflow, balance_should_not_be_negative,
}
use cqrs_account.BTreeMap
use cqrs_account.BTreeMap.{BTreeMap}
use cqrs_account.Types.{Platform, ByteArray32}
use cqrs_account.Account.Processed
use cqrs_account.Account.Processed.{ProcessedTransactions}

pub record ReservedFunds : Type 0 where
  pub asset : String
  pub amount : ℕ

pub record BankAccountState : Type 0 where
  pub account_id : String
  pub assets : BTreeMap String ℕ
  pub reserving : BTreeMap String ReservedFunds
  pub processed_transactions : ProcessedTransactions

pub data Account : Type 0 where
  uninitialized : Account
  in_service : BankAccountState → Account
  disabled : BankAccountState → Account
  closed : Account

unfoldable pub is_empty : BankAccountState → Bool
is_empty state = BTreeMap.is_empty state.assets && BTreeMap.is_empty state.reserving

-- `*state.assets.get(&asset).unwrap_or(&0)`
abbrev pub balance : String → BankAccountState → ℕ
balance asset state = get_or (BTreeMap.get asset state.assets) 0

-- `let balance = state.assets.entry(asset).or_insert(0);` and the checked update of `*balance`.
unfoldable pub add_balance : String → ℕ → BankAccountState → Outcome BankAccountState
add_balance asset amount state =
    expect (checked_add (balance asset state) amount) balance_should_not_overflow >>= λ b.
    done (record state { assets = BTreeMap.insert asset b state.assets })

unfoldable pub sub_balance : String → ℕ → BankAccountState → Outcome BankAccountState
sub_balance asset amount state =
    expect (checked_sub (balance asset state) amount) balance_should_not_be_negative >>= λ b.
    done (record state { assets = BTreeMap.insert asset b state.assets })

module _ ⦃platform : Platform⦄ where
  unfoldable pub save_txid : ByteArray32 → ℕ → BankAccountState → Outcome BankAccountState
  save_txid txid timestamp state =
      Processed.insert txid timestamp state.processed_transactions >>= λ inserted. elim inserted [
        | ok p ↦ done (record state { processed_transactions = p })
        | err _ ↦ panic txid_already_exists
      ]

  unfoldable pub remove_txid : ByteArray32 → BankAccountState → Outcome BankAccountState
  remove_txid txid state =
      let removed = Processed.remove txid state.processed_transactions in
      expect removed.0 txid_does_not_exist >>= λ _.
      done (record state { processed_transactions = removed.1 })
