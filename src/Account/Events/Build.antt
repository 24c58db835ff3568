-- ===== src/Account/Events/Build.antt =====
-- The associated functions of `AccountEvent`, `src/account/events.rs`.
use cqrs_account.Prelude.{ℕ, String}
use cqrs_account.Types.{ByteArray32}
use cqrs_account.Account.Events.{
  LifecycleEvent, TransactionEvent, AccountEvent, lifecycle, transaction,
}

unfoldable pub account_opened : String → AccountEvent
account_opened account_id = lifecycle (LifecycleEvent.opened account_id)

unfoldable pub account_disabled : AccountEvent
account_disabled = lifecycle LifecycleEvent.disabled

unfoldable pub account_enabled : AccountEvent
account_enabled = lifecycle LifecycleEvent.enabled

unfoldable pub account_closed : AccountEvent
account_closed = lifecycle LifecycleEvent.closed

unfoldable pub deposited : ByteArray32 → ℕ → String → ℕ → AccountEvent
deposited txid timestamp asset amount =
    transaction timestamp txid (TransactionEvent.deposited asset amount)

unfoldable pub debited : ByteArray32 → ℕ → String → String → ℕ → AccountEvent
debited txid timestamp to_account asset amount =
    transaction timestamp txid (TransactionEvent.debited to_account asset amount)

unfoldable pub debit_reversed : ByteArray32 → ℕ → String → String → ℕ → AccountEvent
debit_reversed txid timestamp to_account asset amount =
    transaction timestamp txid (TransactionEvent.debit_reversed to_account asset amount)

unfoldable pub credited : ByteArray32 → ℕ → String → String → ℕ → AccountEvent
credited txid timestamp from_account asset amount =
    transaction timestamp txid (TransactionEvent.credited from_account asset amount)

unfoldable pub credit_reversed : ByteArray32 → ℕ → String → String → ℕ → AccountEvent
credit_reversed txid timestamp from_account asset amount =
    transaction timestamp txid (TransactionEvent.credit_reversed from_account asset amount)

unfoldable pub withdrew : ByteArray32 → ℕ → String → ℕ → AccountEvent
withdrew txid timestamp asset amount =
    transaction timestamp txid (TransactionEvent.withdrew asset amount)

unfoldable pub funds_locked : ByteArray32 → ℕ → String → ℕ → AccountEvent
funds_locked txid timestamp asset amount =
    transaction timestamp txid (TransactionEvent.funds_locked asset amount)

unfoldable pub funds_unlocked : ByteArray32 → ℕ → String → ℕ → AccountEvent
funds_unlocked txid timestamp asset amount =
    transaction timestamp txid (TransactionEvent.funds_unlocked asset amount)

unfoldable pub settlement : ByteArray32 → ℕ → String → String → ℕ → String → ℕ → AccountEvent
settlement txid timestamp to_account send_asset send_amount receive_asset receive_amount =
    transaction timestamp txid
      (TransactionEvent.settled to_account send_asset send_amount receive_asset receive_amount)
