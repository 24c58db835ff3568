-- ===== src/Account/Tests.antt =====
-- The theorems about the account aggregate at concrete inputs.
pub mod Runs
pub mod Views
pub mod Early
use cqrs_account.Prelude.{
  ℕ, ◌+◌, ◌≤◌, ◌≡◌, refl, String, string_eq, true, false, some, none, List, [], ◌∷◌, arith, length,
  str_eq_refl,
}
use cqrs_account.Outcome.{done, panic, ok, err, asset_not_found_due_to_lock}
use cqrs_account.BTreeMap
use cqrs_account.Types.{Platform, hex}
use cqrs_account.TestPlatform.{test_platform, id_of}
use cqrs_account.Account.Commands.{
  AccountCommand, TransactionCommand, deposit, debit, credit, lock_funds, unlock_funds, settle,
  reverse_debit, reverse_credit, open_account, close,
}
use cqrs_account.Account.Commands.Build as Command
use cqrs_account.Account.Events.{AccountEvent, account_not_empty}
use cqrs_account.Account.Events.Build as Event
use cqrs_account.Account.Processed.{get_timestamp, insert, remove, expire}
use cqrs_account.Account.State.{
  Account, BankAccountState, uninitialized, in_service, disabled, closed, balance, add_balance,
  sub_balance, save_txid, remove_txid, is_empty,
}
use cqrs_account.Account.State.Valid.{IsValid, reserved}
use cqrs_account.Account.Handle.{handle, handle_lifecycle, handle_transaction}
use cqrs_account.Account.Apply.{apply, apply_all, apply_lifecycle, apply_transaction, receive}
use cqrs_account.Account.Effect.{Effect, lock}
use cqrs_account.Account.Effect.Accepted.{
  IsValidAccount, accepted_applies, accepted-Effect, fresh, fresh-IsValid,
}
use cqrs_account.Account.History.{
  History, wealth, received, sent, account_incoming, account_outgoing, wealth_of,
  accepted_conserves, history_balances,
}
use cqrs_account.Account.Replay.{Step, Step-Effect, known}
use cqrs_account.Account.Undo.{
  SameFunds, unlock_undoes_lock, reversal_undoes_debit, reversal_undoes_credit, reverse_debit_mints,
}
use cqrs_account.Account.Lifecycle.{Transition, active, accepted-Transition}
use cqrs_account.Account.Drained.{Steps, deposited_never_closes}
use cqrs_account.Account.View.{
  AccountView, default, update, update_all, update_transaction, upsert, add_ledger,
}
use cqrs_account.Account.View.Mirror.{Mirrors, shown}
use cqrs_account.Account.View.Gaps.{settled_stays_locked, empty_lock_breaks_view}
use cqrs_account.Account.View.Ledger.{update_all_bounds_ledger}
use Runs.{
  opened, funded, deposit-run, deposit_accepted, first_deposit, opened-IsValid, funded-IsValid,
  paid, locked, settled, debit_step, credited, credit_step, lock_step, locked-IsValid, settle_step,
}

accepted_applies_example :
    (account' : Account) × (apply_all
        (in_service opened)
        (Event.deposited (id_of 1) 1 "BTC" 1000 ∷ [])
      ≡ done account')
    × IsValidAccount account'
unfolding handle
accepted_applies_example =
    accepted_applies (in_service opened)
      (AccountCommand.transaction 1 (id_of 1) (deposit "BTC" 1000)) opened-IsValid
      (first_deposit.stamp_fits, first_deposit.fits) deposit_accepted

accepted-Effect_example : Effect opened 1 (id_of 1) (deposit "BTC" 1000) funded
accepted-Effect_example =
    accepted-Effect opened 1 (id_of 1) (deposit "BTC" 1000) opened-IsValid first_deposit.stamp_fits
      first_deposit.fits deposit_accepted deposit-run

accepted_conserves_example :
    wealth (in_service settled) "BTC" + 400 ≡ wealth (in_service locked) "BTC" + 0
unfolding handle hex BTreeMap.get
accepted_conserves_example =
    accepted_conserves (in_service locked) (in_service settled)
      (AccountCommand.transaction 7 (id_of 3) (settle "bob" "ETH" 5)) settle_step.events "BTC"
      locked-IsValid (settle_step.stamp_fits, settle_step.fits) settle_step.accepted
      settle_step.applied

opening : History uninitialized (in_service opened)
unfolding handle handle_lifecycle apply_all apply apply_lifecycle Event.account_opened
opening =
    History.next (in_service opened) (AccountCommand.lifecycle (open_account "alice"))
      (Event.account_opened "alice" ∷ []) History.start tt refl refl

-- Opened, and a deposit made.
past : History uninitialized (in_service funded)
unfolding handle
past =
    History.next (in_service funded) (AccountCommand.transaction 1 (id_of 1) (deposit "BTC" 1000))
      first_deposit.events opening (first_deposit.stamp_fits, first_deposit.fits)
      first_deposit.accepted first_deposit.applied

history_balances_example : wealth (in_service funded) "BTC" + sent past "BTC" ≡ received past "BTC"
history_balances_example = history_balances past "BTC"

unlock_undoes_lock_example :
    (state₂ : BankAccountState) × (handle_transaction locked 8 (id_of 3) unlock_funds
      ≡ ok (Event.funds_unlocked (id_of 3) 8 "BTC" 400 ∷ []))
    × (apply_all (in_service locked) (Event.funds_unlocked (id_of 3) 8 "BTC" 400 ∷ [])
        ≡ done (in_service state₂))
    × SameFunds state₂ funded
    × (state₂.processed_transactions ≡ funded.processed_transactions)
unlock_undoes_lock_example =
    unlock_undoes_lock funded locked 6 8 (id_of 3) "BTC" 400 funded-IsValid lock_step (omega arith)

reversal_undoes_debit_example :
    (state₂ : BankAccountState) × (handle_transaction paid 8
        (id_of 2)
        (reverse_debit "bob" "BTC" 300)
      ≡ ok (Event.debit_reversed (id_of 2) 5 "bob" "BTC" 300 ∷ []))
    × (apply_all (in_service paid) (Event.debit_reversed (id_of 2) 5 "bob" "BTC" 300 ∷ [])
        ≡ done (in_service state₂))
    × SameFunds state₂ funded
    × (known state₂ (id_of 2) ≡ none)
reversal_undoes_debit_example =
    reversal_undoes_debit funded paid 5 8 (id_of 2) "bob" "BTC" 300 funded-IsValid debit_step
      (omega arith)

reversal_undoes_credit_example :
    (state₂ : BankAccountState) × (handle_transaction credited 8
        (id_of 2)
        (reverse_credit "bob" "BTC" 300)
      ≡ ok (Event.credit_reversed (id_of 2) 5 "bob" "BTC" 300 ∷ []))
    × (apply_all (in_service credited) (Event.credit_reversed (id_of 2) 5 "bob" "BTC" 300 ∷ [])
        ≡ done (in_service state₂))
    × SameFunds state₂ funded
    × (known state₂ (id_of 2) ≡ none)
reversal_undoes_credit_example =
    reversal_undoes_credit funded credited 5 8 (id_of 2) "bob" "BTC" 300 funded-IsValid credit_step
      (omega arith)

reverse_debit_mints_example :
    (state₂ : BankAccountState) × Step funded 8 (id_of 1) (reverse_debit "bob" "ETH" 77) state₂
    × (wealth_of state₂ "ETH" ≡ wealth_of funded "ETH" + 77)
unfolding BTreeMap.get
reverse_debit_mints_example =
    reverse_debit_mints opened funded 1 8 (id_of 1) "bob" "BTC" "ETH" 1000 77 opened-IsValid
      first_deposit (omega arith) (omega arith)

accepted-Transition_example :
    Transition active (AccountCommand.transaction 1 (id_of 1) (deposit "BTC" 1000)) active
unfolding handle
accepted-Transition_example =
    accepted-Transition (in_service opened) (in_service funded)
      (AccountCommand.transaction 1 (id_of 1) (deposit "BTC" 1000))
      (Event.deposited (id_of 1) 1 "BTC" 1000 ∷ []) deposit_accepted deposit-run

deposited_never_closes_example :
    (handle (in_service paid) (AccountCommand.lifecycle close) ≡ err account_not_empty)
    × (handle (disabled paid) (AccountCommand.lifecycle close) ≡ err account_not_empty)
deposited_never_closes_example =
    deposited_never_closes opened funded paid 1 (id_of 1) "BTC" 1000 opened-IsValid first_deposit
      (Steps.next paid 5 (id_of 2) (debit "bob" "BTC" 300) Steps.start debit_step)
