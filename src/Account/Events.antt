-- ===== src/Account/Events.antt =====
-- `src/account/events.rs`: the events and the errors, with the source's constructors.
pub mod Build
mod Names
use cqrs_account.Prelude.{ℕ, String, ◌++◌}
use cqrs_account.Types.{ByteArray32}

pub data LifecycleEvent : Type 0 where
  -- account_id
  opened : String → LifecycleEvent
  disabled enabled closed : LifecycleEvent

pub data TransactionEvent : Type 0 where
  -- asset, amount
  deposited withdrew : String → ℕ → TransactionEvent
  -- to_account, asset, amount
  debited debit_reversed : String → String → ℕ → TransactionEvent
  -- from_account, asset, amount
  credited credit_reversed : String → String → ℕ → TransactionEvent
  -- asset, amount
  funds_locked funds_unlocked : String → ℕ → TransactionEvent
  -- to_account, send_asset, send_amount, receive_asset, receive_amount
  settled : String → String → ℕ → String → ℕ → TransactionEvent

pub data AccountEvent : Type 0 where
  lifecycle : LifecycleEvent → AccountEvent
  -- timestamp, txid, event
  transaction : ℕ → ByteArray32 → TransactionEvent → AccountEvent

pub data AccountError : Type 0 where
  insufficient_funds account_not_found account_already_exists account_not_disabled : AccountError
  account_not_in_service account_not_empty lock_not_found invalid_transaction : AccountError
  duplicate_lock transaction_not_found : AccountError
  -- the timestamp at which the transaction was processed
  duplicate_transaction : ℕ → AccountError
