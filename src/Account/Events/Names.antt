-- ===== src/Account/Events/Names.antt =====
-- The names under which the events of accounts are stored, `src/account/events.rs`.
use Prim.Native.String.{◌++◌}
use cqrs_account.Prelude.{ℕ, ◌≡◌, refl, sym, ap, ◌∙◌, String, string_eq, ◌==◌, if◌then◌else◌}
use cqrs_account.Account.Events.{
  LifecycleEvent, opened, disabled, enabled, closed, TransactionEvent, deposited, withdrew, debited,
  debit_reversed, credited, credit_reversed, funds_locked, funds_unlocked, settled, AccountEvent,
  lifecycle, transaction,
}

-- `LifecycleEvent::event_name`
unfoldable lifecycle_event_name : LifecycleEvent → String
lifecycle_event_name (opened _) = "Opened"
lifecycle_event_name disabled = "Disabled"
lifecycle_event_name enabled = "Enabled"
lifecycle_event_name closed = "Closed"

-- `TransactionEvent::event_name`
unfoldable transaction_event_name : TransactionEvent → String
transaction_event_name (deposited _ _) = "CustomerDepositedMoney"
transaction_event_name (withdrew _ _) = "CustomerWithdrewCash"
transaction_event_name (debited _ _ _) = "Debited"
transaction_event_name (debit_reversed _ _ _) = "DebitReversed"
transaction_event_name (credited _ _ _) = "Credited"
transaction_event_name (credit_reversed _ _ _) = "CreditReversed"
transaction_event_name (funds_locked _ _) = "FundsLocked"
transaction_event_name (funds_unlocked _ _) = "FundsUnlocked"
transaction_event_name (settled _ _ _ _ _) = "Settled"

-- `AccountEvent::event_type`
unfoldable event_type : AccountEvent → String
unfolding lifecycle_event_name transaction_event_name
event_type (lifecycle event) = "Lifecycle::" ++ lifecycle_event_name event
event_type (transaction _ _ event) = "Transaction::" ++ transaction_event_name event

-- `AccountEvent::event_version`
unfoldable event_version : AccountEvent → String
event_version event = "1.0"

-- The variant of an event, by its place in the source.
abbrev variant : AccountEvent → ℕ
variant (lifecycle (opened _)) = 0
variant (lifecycle disabled) = 1
variant (lifecycle enabled) = 2
variant (lifecycle closed) = 3
variant (transaction _ _ (deposited _ _)) = 4
variant (transaction _ _ (withdrew _ _)) = 5
variant (transaction _ _ (debited _ _ _)) = 6
variant (transaction _ _ (debit_reversed _ _ _)) = 7
variant (transaction _ _ (credited _ _ _)) = 8
variant (transaction _ _ (credit_reversed _ _ _)) = 9
variant (transaction _ _ (funds_locked _ _)) = 10
variant (transaction _ _ (funds_unlocked _ _)) = 11
variant (transaction _ _ (settled _ _ _ _ _)) = 12

-- What a reader of the stored name makes of it.
abbrev variant_of : String → ℕ
variant_of name =
    if name == "Lifecycle::Opened"
    then 0
    else if name == "Lifecycle::Disabled"
    then 1
    else if name == "Lifecycle::Enabled"
    then 2
    else if name == "Lifecycle::Closed"
    then 3
    else if name == "Transaction::CustomerDepositedMoney"
    then 4
    else if name == "Transaction::CustomerWithdrewCash"
    then 5
    else if name == "Transaction::Debited"
    then 6
    else if name == "Transaction::DebitReversed"
    then 7
    else if name == "Transaction::Credited"
    then 8
    else if name == "Transaction::CreditReversed"
    then 9
    else if name == "Transaction::FundsLocked"
    then 10
    else if name == "Transaction::FundsUnlocked"
    then 11
    else 12

variant_of-event_type : (event : AccountEvent) → variant_of (event_type event) ≡ variant event
unfolding event_type
variant_of-event_type (lifecycle (opened _)) = refl
variant_of-event_type (lifecycle disabled) = refl
variant_of-event_type (lifecycle enabled) = refl
variant_of-event_type (lifecycle closed) = refl
variant_of-event_type (transaction _ _ (deposited _ _)) = refl
variant_of-event_type (transaction _ _ (withdrew _ _)) = refl
variant_of-event_type (transaction _ _ (debited _ _ _)) = refl
variant_of-event_type (transaction _ _ (debit_reversed _ _ _)) = refl
variant_of-event_type (transaction _ _ (credited _ _ _)) = refl
variant_of-event_type (transaction _ _ (credit_reversed _ _ _)) = refl
variant_of-event_type (transaction _ _ (funds_locked _ _)) = refl
variant_of-event_type (transaction _ _ (funds_unlocked _ _)) = refl
variant_of-event_type (transaction _ _ (settled _ _ _ _ _)) = refl

-- Events of different variants are stored under different names.
event_type-injective :
    (event event' : AccountEvent)
    → event_type event ≡ event_type event'
    → variant event ≡ variant event'
event_type-injective event event' h =
    sym (variant_of-event_type event) ∙ ap variant_of h ∙ variant_of-event_type event'
