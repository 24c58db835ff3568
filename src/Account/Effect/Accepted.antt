-- ===== src/Account/Effect/Accepted.antt =====
-- Every accepted command, by the lemma of its kind.
use cqrs_account.Prelude.{subst, [], ℕ, ◌+◌, ◌<◌, ◌≡◌, List, arith, String}
use cqrs_account.Outcome.{done, u64_mod, ok}
use cqrs_account.BTreeMap
use cqrs_account.Types.{Platform, ByteArray32}
use cqrs_account.Account.Commands.{
  AccountCommand, TransactionCommand, deposit, withdraw, debit, reverse_debit, credit,
  reverse_credit, lock_funds, unlock_funds, settle, LifecycleCommand, open_account, disable, enable,
  close,
}
use cqrs_account.Account.Events.{AccountEvent}
use cqrs_account.Account.Events.Build
use cqrs_account.Account.Processed.{new, default_ttl}
use cqrs_account.Account.Processed.Laws.{IsValid-new}
use cqrs_account.Account.State.{
  Account, BankAccountState, uninitialized, in_service, disabled, closed,
}
use cqrs_account.Account.State.Valid.{IsValid}
use cqrs_account.Account.Handle.{handle, handle_lifecycle, handle_transaction}
use cqrs_account.Account.Apply.{apply, apply_all, apply_lifecycle}
use cqrs_account.Account.Effect.{Effect, Fits}
use cqrs_account.Account.Effect.Moves.{
  Applies, deposit-Applies, withdraw-Applies, debit-Applies, credit-Applies, reverse_debit-Applies,
  reverse_credit-Applies,
}
use cqrs_account.Account.Effect.Locks.{lock_funds-Applies, unlock_funds-Applies, settle-Applies}

module _ ⦃platform : Platform⦄ where
  pub handle_transaction-Applies :
      (state : BankAccountState) (ts : ℕ) (txid : ByteArray32) (c : TransactionCommand)
      {events : List AccountEvent}
      → IsValid state
      → ts + state.processed_transactions.ttl < u64_mod
      → Fits state txid c
      → handle_transaction state ts txid c ≡ ok events
      → Applies state ts txid c events
  handle_transaction-Applies s ts txid (deposit a n) v f r h =
      deposit-Applies s ts txid v f a a n r h
  handle_transaction-Applies s ts txid (withdraw a n) v f r h =
      withdraw-Applies s ts txid v f a a n r h
  handle_transaction-Applies s ts txid (debit p a n) v f r h = debit-Applies s ts txid v f p a n r h
  handle_transaction-Applies s ts txid (credit p a n) v f r h =
      credit-Applies s ts txid v f p a n r h
  handle_transaction-Applies s ts txid (reverse_debit p a n) v f r h =
      reverse_debit-Applies s ts txid v f p a n r h
  handle_transaction-Applies s ts txid (reverse_credit p a n) v f r h =
      reverse_credit-Applies s ts txid v f p a n r h
  handle_transaction-Applies s ts txid (lock_funds a n) v f r h =
      lock_funds-Applies s ts txid v a n h
  handle_transaction-Applies s ts txid unlock_funds v f r h = unlock_funds-Applies s ts txid v r h
  handle_transaction-Applies s ts txid (settle p a n) v f r h =
      settle-Applies s ts txid v p a n f r h

  -- The effect, told of a state that the events have led to.
  pub accepted-Effect :
      (state : BankAccountState) (ts : ℕ) (txid : ByteArray32) (c : TransactionCommand)
      {events : List AccountEvent} {state' : BankAccountState}
      → IsValid state
      → ts + state.processed_transactions.ttl < u64_mod
      → Fits state txid c
      → handle_transaction state ts txid c ≡ ok events
      → apply_all (in_service state) events ≡ done (in_service state')
      → Effect state ts txid c state'
  accepted-Effect s ts txid c {state' = state'} v f r h e =
      let (s', e', x) = handle_transaction-Applies s ts txid c v f r h in
      let same : s' ≡ state' = cc in subst (λ (t : BankAccountState). Effect s ts txid c t) same x

  abbrev pub IsValidAccount : Account → Type 0
  IsValidAccount (in_service state) = IsValid state
  IsValidAccount (disabled state) = IsValid state
  IsValidAccount _ = Unit

  -- The timestamp and the amounts of a command that an account in service takes stay in `u64`.
  abbrev pub FitsAccount : Account → AccountCommand → Type 0
  FitsAccount (in_service state) (AccountCommand.transaction ts txid c) =
      (ts + state.processed_transactions.ttl < u64_mod) × Fits state txid c
  FitsAccount _ _ = Unit

  abbrev pub fresh : String → BankAccountState
  fresh id = record {
    account_id = id;
    assets = [];
    reserving = [];
    processed_transactions = new default_ttl;
  }

  pub fresh-IsValid : (id : String) → IsValid (fresh id)
  fresh-IsValid id = record {
    processed = IsValid-new default_ttl;
    distinct = tt;
    bounded = λ a. unfold BTreeMap.get in omega arith;
  }

  -- The account that a lifecycle event leaves.
  abbrev pub LifecycleApplies : Account → List AccountEvent → Type 0
  LifecycleApplies account events =
      (account' : Account) × (apply_all account events ≡ done account') × IsValidAccount account'

  pub handle_lifecycle-Applies :
      (account : Account) (c : LifecycleCommand) {events : List AccountEvent}
      → IsValidAccount account
      → handle_lifecycle account c ≡ ok events
      → LifecycleApplies account events
  unfolding handle_lifecycle apply_all apply apply_lifecycle Build.account_opened
      Build.account_disabled Build.account_enabled Build.account_closed
  handle_lifecycle-Applies uninitialized (open_account id) v h =
      (in_service (fresh id), ground arith, fresh-IsValid id)
  handle_lifecycle-Applies closed (open_account id) v h =
      (in_service (fresh id), ground arith, fresh-IsValid id)
  handle_lifecycle-Applies (in_service s) (open_account id) v h = absurd (cc)
  handle_lifecycle-Applies (disabled s) (open_account id) v h = absurd (cc)
  handle_lifecycle-Applies (in_service s) disable v h = (disabled s, ground arith, v)
  handle_lifecycle-Applies uninitialized disable v h = absurd (cc)
  handle_lifecycle-Applies closed disable v h = absurd (cc)
  handle_lifecycle-Applies (disabled s) disable v h = absurd (cc)
  handle_lifecycle-Applies (disabled s) enable v h = (in_service s, ground arith, v)
  handle_lifecycle-Applies uninitialized enable v h = absurd (cc)
  handle_lifecycle-Applies closed enable v h = absurd (cc)
  handle_lifecycle-Applies (in_service s) enable v h = absurd (cc)
  handle_lifecycle-Applies uninitialized close v h = absurd (cc)
  handle_lifecycle-Applies closed close v h = absurd (cc)
  handle_lifecycle-Applies (in_service s) close v h = (closed, ground arith, tt)
  handle_lifecycle-Applies (disabled s) close v h = (closed, ground arith, tt)

  -- A command that a valid account accepts never makes `apply` panic, if its timestamp and its amounts
  -- stay in `u64`, and the account that its events lead to is valid again.
  pub accepted_applies :
      (account : Account) (command : AccountCommand) {events : List AccountEvent}
      → IsValidAccount account
      → FitsAccount account command
      → handle account command ≡ ok events
      → (account' : Account) × (apply_all account events ≡ done account') × IsValidAccount account'
  unfolding handle
  accepted_applies account (AccountCommand.lifecycle c) v f h =
      handle_lifecycle-Applies account c v h
  accepted_applies uninitialized (AccountCommand.transaction ts txid c) v f h = absurd (cc)
  accepted_applies closed (AccountCommand.transaction ts txid c) v f h = absurd (cc)
  accepted_applies (disabled s) (AccountCommand.transaction ts txid c) v f h = absurd (cc)
  accepted_applies (in_service s) (AccountCommand.transaction ts txid c) v f h =
      let (s', e, x) = handle_transaction-Applies s ts txid c v f.0 f.1 h in
      (in_service s', e, x.valid)
