-- ===== src/Account/Commands.antt =====
-- `src/account/commands.rs`: the commands, with the source's constructors.
pub mod Build
use cqrs_account.Prelude.{ℕ, String}
use cqrs_account.Types.{ByteArray32}

pub data LifecycleCommand : Type 0 where
  -- account_id
  open_account : String → LifecycleCommand
  disable enable close : LifecycleCommand

pub data TransactionCommand : Type 0 where
  -- asset, amount
  deposit withdraw : String → ℕ → TransactionCommand
  -- to_account, asset, amount
  debit reverse_debit : String → String → ℕ → TransactionCommand
  -- from_account, asset, amount
  credit reverse_credit : String → String → ℕ → TransactionCommand
  -- asset, amount
  lock_funds : String → ℕ → TransactionCommand
  unlock_funds : TransactionCommand
  -- to_account, receive_asset, receive_amount
  settle : String → String → ℕ → TransactionCommand

pub data AccountCommand : Type 0 where
  lifecycle : LifecycleCommand → AccountCommand
  -- timestamp, txid, command
  transaction : ℕ → ByteArray32 → TransactionCommand → AccountCommand
