-- ===== src/Transfer/Handle.antt =====
-- `TransferServices` and `Aggregate::handle` for `Transfer`, `src/transfer/aggregate.rs`.
use cqrs_account.Prelude.{ℕ, String, List, [], ◌∷◌}
use cqrs_account.Outcome.{Result, ok, err}
use cqrs_account.Types.{ByteArray32}
use cqrs_account.Account.Commands.Build as Command
use cqrs_account.Account.Events.{duplicate_transaction}
use cqrs_account.Service
use cqrs_account.Service.{
  AccountService, AggregateError, user_error, succeeded, failed, panicked, Flow, returned, unwound,
  Undo, TransactionGuard, Runtime, run_undo,
}
use cqrs_account.Transfer.Defs.{
  Config, TransferCommand, open_transfer, continue, TransferEvent, Transfer, TransferError,
  invalid_state, aggregate_error,
}

module _ (service : AccountService) where
  abbrev pub Guarded : Type 0
  Guarded = Flow (Result TransactionGuard TransferError) × Runtime service

  -- `undo.await; Err(TransferError::AggregateError(agg_err))`
  unfoldable pub undo_and_fail : Undo → AggregateError → Runtime service → Guarded
  undo_and_fail undo e rt =
      let (f, w) = run_undo service undo rt.world in
      (
        elim f [ returned _ ↦ returned (err (aggregate_error e)) | unwound ↦ unwound ],
        record rt { world = w },
      )

  -- The `match` on the result of `execute` in `debit` and `credit`.
  unfoldable pub guarded : Undo → Runtime service → Service.Executed → Guarded
  unfolding undo_and_fail
  guarded undo rt succeeded = (returned (ok (Service.new undo)), rt)
  guarded undo rt (failed (user_error (duplicate_transaction _))) =
      (returned (ok (Service.new undo)), rt)
  guarded undo rt (failed e) = undo_and_fail undo e rt
  guarded undo rt panicked = (unwound, rt)

  unfoldable pub debit : ByteArray32 → String → String → String → ℕ → ℕ → Runtime service → Guarded
  unfolding guarded
  debit txid from_account to_account asset amount timestamp rt =
      let undo : Undo = record {
        account = from_account;
        command = Command.reverse_debit txid timestamp to_account asset amount;
      } in
      let (r, w) =
        service.execute from_account (Command.debit txid timestamp to_account asset amount)
          rt.world in
      guarded undo (record rt { world = w }) r

  unfoldable pub credit : ByteArray32 → String → String → String → ℕ → ℕ → Runtime service → Guarded
  unfolding guarded
  credit txid from_account to_account asset amount timestamp rt =
      let undo : Undo = record {
        account = to_account;
        command = Command.reverse_credit txid timestamp from_account asset amount;
      } in
      let (r, w) =
        service.execute to_account (Command.credit txid timestamp from_account asset amount)
          rt.world in
      guarded undo (record rt { world = w }) r

  abbrev pub Handled : Type 0
  Handled = Flow (Result (List TransferEvent) TransferError) × Runtime service

  -- The guard of the debit goes out of scope: on an error of the credit, and when a panic unwinds.
  unfoldable pub dropped : TransactionGuard → Runtime service → Runtime service
  dropped guard rt = record rt { spawned = Service.drop guard rt.spawned }

  -- The second half of `Continue`, after the debit.
  unfoldable pub with_credit : Config → TransactionGuard → Runtime service → Handled
  unfolding dropped
  with_credit config debit_undo_guard rt =
      let (f, rt') =
        credit config.transfer_id config.from_account config.to_account config.asset config.amount 0
          rt in
      elim f [
        | returned (ok credit_undo_guard) ↦ (
          returned (ok (TransferEvent.finished 0 ∷ [])),
          record rt' {
            spawned =
                Service.commit debit_undo_guard (Service.commit credit_undo_guard rt'.spawned);
          },
        )
        | returned (err e) ↦ (returned (err e), dropped debit_undo_guard rt')
        | unwound ↦ (unwound, dropped debit_undo_guard rt')
      ]

  unfoldable pub handle : Transfer → TransferCommand → Runtime service → Handled
  unfolding with_credit
  handle Transfer.uninitialized (open_transfer config) rt =
      (returned (ok (TransferEvent.opened config ∷ [])), rt)
  handle _ (open_transfer config) rt =
      (returned (err (invalid_state "Transfer is already opened")), rt)
  handle (Transfer.opened config) continue rt =
      let (f, rt') =
        debit config.transfer_id config.from_account config.to_account config.asset config.amount 0
          rt in
      elim f [
        | returned (ok debit_undo_guard) ↦ with_credit config debit_undo_guard rt'
        | returned (err e) ↦ (returned (err e), rt')
        | unwound ↦ (unwound, rt')
      ]
  handle _ continue rt = (returned (err (invalid_state "State is not Opened")), rt)
