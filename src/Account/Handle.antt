-- ===== src/Account/Handle.antt =====
-- `Aggregate::handle` for `Account`, `src/account/aggregate.rs`. The services that it is passed are
-- not used by the source.
use cqrs_account.Prelude.{ℕ, String, string_eq, none, some, List, [], ◌∷◌, ltb, if◌then◌else◌}
use cqrs_account.Outcome.{Result, ok, err}
use cqrs_account.BTreeMap
use cqrs_account.Types.{Platform, ByteArray32, hex}
use cqrs_account.Account.Commands.{AccountCommand, LifecycleCommand, TransactionCommand}
use cqrs_account.Account.Events.{
  AccountEvent, AccountError, insufficient_funds, account_not_found, account_already_exists,
  account_not_disabled, account_not_in_service, account_not_empty, lock_not_found, duplicate_lock,
  duplicate_transaction, transaction_not_found,
}
use cqrs_account.Account.Events.Build
use cqrs_account.Account.Processed.{get_timestamp}
use cqrs_account.Account.State.{
  Account, BankAccountState, uninitialized, in_service, disabled, closed, is_empty, balance,
}

abbrev pub Reply : Type 0
Reply = Result (List AccountEvent) AccountError

close_state : BankAccountState → Reply
close_state state = if is_empty state then ok (Build.account_closed ∷ []) else err account_not_empty

unfoldable pub handle_lifecycle : Account → LifecycleCommand → Reply
unfolding close_state
handle_lifecycle uninitialized (LifecycleCommand.open_account id) =
    ok (Build.account_opened id ∷ [])
handle_lifecycle closed (LifecycleCommand.open_account id) = ok (Build.account_opened id ∷ [])
handle_lifecycle _ (LifecycleCommand.open_account id) = err account_already_exists
handle_lifecycle (in_service _) LifecycleCommand.disable = ok (Build.account_disabled ∷ [])
handle_lifecycle _ LifecycleCommand.disable = err account_not_in_service
handle_lifecycle (disabled _) LifecycleCommand.enable = ok (Build.account_enabled ∷ [])
handle_lifecycle _ LifecycleCommand.enable = err account_not_disabled
handle_lifecycle uninitialized LifecycleCommand.close = err account_not_found
handle_lifecycle closed LifecycleCommand.close = err account_not_found
handle_lifecycle (in_service state) LifecycleCommand.close = close_state state
handle_lifecycle (disabled state) LifecycleCommand.close = close_state state

module _ ⦃platform : Platform⦄ where
  -- The guard of the commands that carry a new transaction id.
  unless_processed : BankAccountState → ByteArray32 → Reply → Reply
  unless_processed state txid reply = elim (get_timestamp state.processed_transactions txid) [
    | some timestamp ↦ err (duplicate_transaction timestamp)
    | none ↦ reply
  ]

  -- The guard of the commands that undo a transaction: its stored timestamp goes into the event.
  if_processed : BankAccountState → ByteArray32 → (ℕ → Reply) → Reply
  if_processed state txid reply = elim (get_timestamp state.processed_transactions txid) [
    | some timestamp ↦ reply timestamp
    | none ↦ err transaction_not_found
  ]

  if_funded : BankAccountState → String → ℕ → Reply → Reply
  if_funded state asset amount reply =
      if ltb (balance asset state) amount then err insufficient_funds else reply

  -- The commands of an account in service.
  unfoldable pub handle_transaction :
      BankAccountState → ℕ → ByteArray32 → TransactionCommand → Reply
  unfolding unless_processed if_processed if_funded
  handle_transaction state timestamp txid (TransactionCommand.deposit asset amount) =
      unless_processed state txid (ok (Build.deposited txid timestamp asset amount ∷ []))
  handle_transaction state timestamp txid (TransactionCommand.withdraw asset amount) =
      unless_processed state txid
        (if_funded state asset amount (ok (Build.withdrew txid timestamp asset amount ∷ [])))
  handle_transaction state timestamp txid (TransactionCommand.credit from_account asset amount) =
      unless_processed state txid
        (ok (Build.credited txid timestamp from_account asset amount ∷ []))
  handle_transaction state _ txid (TransactionCommand.reverse_credit from_account asset amount) =
      if_processed state txid
        λ timestamp. ok (Build.credit_reversed txid timestamp from_account asset amount ∷ [])
  handle_transaction state _ txid (TransactionCommand.reverse_debit to_account asset amount) =
      if_processed state txid
        λ timestamp. ok (Build.debit_reversed txid timestamp to_account asset amount ∷ [])
  handle_transaction state timestamp txid (TransactionCommand.debit to_account asset amount) =
      unless_processed state txid (
        if_funded state asset amount
          (ok (Build.debited txid timestamp to_account asset amount ∷ [])))
  handle_transaction state timestamp txid (TransactionCommand.lock_funds asset amount) =
      if BTreeMap.contains_key (hex txid) state.reserving
      then err duplicate_lock
      else if_funded state asset amount (ok (Build.funds_locked txid timestamp asset amount ∷ []))
  handle_transaction state timestamp txid TransactionCommand.unlock_funds =
      elim (BTreeMap.get (hex txid) state.reserving) [
        | some locked ↦ ok (Build.funds_unlocked txid timestamp locked.asset locked.amount ∷ [])
        | none ↦ err lock_not_found
      ]
  handle_transaction state timestamp txid
        (TransactionCommand.settle to_account receive_asset receive_amount) =
      unless_processed state txid (elim (BTreeMap.get (hex txid) state.reserving) [
        | none ↦ err lock_not_found
        | some locked ↦ ok (
            Build.settlement txid timestamp to_account locked.asset locked.amount receive_asset
              receive_amount
            ∷ [])
      ])

  unfoldable pub handle : Account → AccountCommand → Reply
  handle account (AccountCommand.lifecycle command) = handle_lifecycle account command
  handle uninitialized (AccountCommand.transaction timestamp txid command) = err account_not_found
  handle closed (AccountCommand.transaction timestamp txid command) = err account_not_found
  handle (disabled _) (AccountCommand.transaction timestamp txid command) =
      err account_not_in_service
  handle (in_service state) (AccountCommand.transaction timestamp txid command) =
      handle_transaction state timestamp txid command
