-- ===== src/Account/Commands/Build.antt =====
-- The associated functions of `AccountCommand`, `src/account/commands.rs`.
use cqrs_account.Prelude.{ℕ, String}
use cqrs_account.Types.{ByteArray32}
use cqrs_account.Account.Commands.{
  LifecycleCommand, TransactionCommand, AccountCommand, lifecycle, transaction,
}

unfoldable pub account_opened : String → AccountCommand
account_opened account_id = lifecycle (LifecycleCommand.open_account account_id)

unfoldable pub account_disabled : AccountCommand
account_disabled = lifecycle LifecycleCommand.disable

unfoldable pub account_enabled : AccountCommand
account_enabled = lifecycle LifecycleCommand.enable

unfoldable pub account_closed : AccountCommand
account_closed = lifecycle LifecycleCommand.close

unfoldable pub deposited : ByteArray32 → ℕ → String → ℕ → AccountCommand
deposited txid timestamp asset amount =
    transaction timestamp txid (TransactionCommand.deposit asset amount)

unfoldable pub withdrew : ByteArray32 → ℕ → String → ℕ → AccountCommand
withdrew txid timestamp asset amount =
    transaction timestamp txid (TransactionCommand.withdraw asset amount)

unfoldable pub debit : ByteArray32 → ℕ → String → String → ℕ → AccountCommand
debit txid timestamp to_account asset amount =
    transaction timestamp txid (TransactionCommand.debit to_account asset amount)

unfoldable pub reverse_debit : ByteArray32 → ℕ → String → String → ℕ → AccountCommand
reverse_debit txid timestamp to_account asset amount =
    transaction timestamp txid (TransactionCommand.reverse_debit to_account asset amount)

unfoldable pub credit : ByteArray32 → ℕ → String → String → ℕ → AccountCommand
credit txid timestamp from_account asset amount =
    transaction timestamp txid (TransactionCommand.credit from_account asset amount)

unfoldable pub reverse_credit : ByteArray32 → ℕ → String → String → ℕ → AccountCommand
reverse_credit txid timestamp from_account asset amount =
    transaction timestamp txid (TransactionCommand.reverse_credit from_account asset amount)

unfoldable pub lock_funds : ByteArray32 → ℕ → String → ℕ → AccountCommand
lock_funds txid timestamp asset amount =
    transaction timestamp txid (TransactionCommand.lock_funds asset amount)

unfoldable pub unlock_funds : ByteArray32 → AccountCommand
unlock_funds txid = transaction 0 txid TransactionCommand.unlock_funds

unfoldable pub settle : ByteArray32 → String → String → ℕ → AccountCommand
settle txid to_account receive_asset receive_amount =
    transaction 0 txid (TransactionCommand.settle to_account receive_asset receive_amount)
