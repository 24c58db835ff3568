-- ===== src/Account/Lifecycle.antt =====
-- The lifecycle of an account as a transition relation on its status.
use cqrs_account.Prelude.{String, subst, sym, ℕ, ◌≡◌, List, arith, string_eq}
use cqrs_account.Outcome.{done, ok}
use cqrs_account.Types.{Platform, ByteArray32}
use cqrs_account.Account.Commands.{
  AccountCommand, LifecycleCommand, TransactionCommand, open_account, disable, enable, close,
  deposit,
}
use cqrs_account.Account.Events.{AccountEvent}
use cqrs_account.Account.Events.Build
use cqrs_account.Account.State.{
  Account, BankAccountState, uninitialized, in_service, disabled, closed,
}
use cqrs_account.Account.Handle.{handle, handle_lifecycle, handle_transaction}
use cqrs_account.Account.Apply.{apply, apply_all, apply_lifecycle}

pub data Status : Type 0 where
  missing active suspended gone : Status

abbrev pub status : Account → Status
status uninitialized = missing
status (in_service _) = active
status (disabled _) = suspended
status closed = gone

-- The transitions that the bank allows, by command: no transaction is taken out of service.
pub data Transition : Status → AccountCommand → Status → Type 0 where
  opens : (id : String) → Transition missing (AccountCommand.lifecycle (open_account id)) active
  reopens : (id : String) → Transition gone (AccountCommand.lifecycle (open_account id)) active
  disables : Transition active (AccountCommand.lifecycle disable) suspended
  enables : Transition suspended (AccountCommand.lifecycle enable) active
  closes : Transition active (AccountCommand.lifecycle close) gone
  closes_disabled : Transition suspended (AccountCommand.lifecycle close) gone
  transacts :
      (ts : ℕ) (txid : ByteArray32) (c : TransactionCommand)
      → Transition active (AccountCommand.transaction ts txid c) active

module _ ⦃platform : Platform⦄ where
  apply_all-in_service :
      (state : BankAccountState) (ts : ℕ) (txid : ByteArray32) (c : TransactionCommand)
      (events : List AccountEvent) (account' : Account)
      → handle_transaction state ts txid c ≡ ok events
      → apply_all (in_service state) events ≡ done account'
      → status account' ≡ active
  unfolding handle_transaction apply_all apply Build.deposited Build.withdrew Build.debited
      Build.debit_reversed Build.credited Build.credit_reversed Build.funds_locked
      Build.funds_unlocked Build.settlement
  apply_all-in_service state ts txid (deposit _ _) events account' h e = ground arith
  apply_all-in_service state ts txid c events account' h e = ground arith

  lifecycle-Transition :
      (account account' : Account) (c : LifecycleCommand) (events : List AccountEvent)
      → handle_lifecycle account c ≡ ok events
      → apply_all account events ≡ done account'
      → Transition (status account) (AccountCommand.lifecycle c) (status account')
  unfolding handle_lifecycle apply_all apply apply_lifecycle Build.account_opened
      Build.account_disabled Build.account_enabled Build.account_closed
  lifecycle-Transition uninitialized account' (open_account id) events h e =
      subst (λ (s : Status). Transition missing (AccountCommand.lifecycle (open_account id)) s)
        (ground arith) (opens id)
  lifecycle-Transition closed account' (open_account id) events h e =
      subst (λ (s : Status). Transition gone (AccountCommand.lifecycle (open_account id)) s)
        (ground arith) (reopens id)
  lifecycle-Transition (in_service s) account' disable events h e =
      subst (λ (s : Status). Transition active (AccountCommand.lifecycle disable) s) (ground arith)
        disables
  lifecycle-Transition (disabled s) account' enable events h e =
      subst (λ (s : Status). Transition suspended (AccountCommand.lifecycle enable) s)
        (ground arith) enables
  lifecycle-Transition (in_service s) account' close events h e =
      subst (λ (s : Status). Transition active (AccountCommand.lifecycle close) s) (ground arith)
        closes
  lifecycle-Transition (disabled s) account' close events h e =
      subst (λ (s : Status). Transition suspended (AccountCommand.lifecycle close) s) (ground arith)
        closes_disabled
  lifecycle-Transition (in_service s) account' (open_account id) events h e = absurd (cc)
  lifecycle-Transition (disabled s) account' (open_account id) events h e = absurd (cc)
  lifecycle-Transition (disabled s) account' disable events h e = absurd (cc)
  lifecycle-Transition (in_service s) account' enable events h e = absurd (cc)
  lifecycle-Transition uninitialized account' c events h e = absurd (ground arith)
  lifecycle-Transition closed account' c events h e = absurd (ground arith)

  -- Whatever command is accepted, the events that it gives take the account along a transition
  -- that the bank allows for that command.
  pub accepted-Transition :
      (account account' : Account) (command : AccountCommand) (events : List AccountEvent)
      → handle account command ≡ ok events
      → apply_all account events ≡ done account'
      → Transition (status account) command (status account')
  unfolding handle
  accepted-Transition account account' (AccountCommand.lifecycle c) events h e =
      lifecycle-Transition account account' c events h e
  accepted-Transition (in_service s) account' (AccountCommand.transaction ts txid c) events h e =
      subst (λ (t : Status). Transition active (AccountCommand.transaction ts txid c) t)
        (sym (apply_all-in_service s ts txid c events account' h e)) (transacts ts txid c)
  accepted-Transition uninitialized account' (AccountCommand.transaction ts txid c) events h e =
      absurd (cc)
  accepted-Transition closed account' (AccountCommand.transaction ts txid c) events h e =
      absurd (cc)
  accepted-Transition (disabled s) account' (AccountCommand.transaction ts txid c) events h e =
      absurd (cc)
