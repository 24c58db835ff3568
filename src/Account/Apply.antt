-- ===== src/Account/Apply.antt =====
-- `Aggregate::apply` for `Account`, `src/account/aggregate.rs`: `panic` where the source panics.
use cqrs_account.Prelude.{ℕ, String, string_eq, none, some, List, [], ◌∷◌}
use cqrs_account.Outcome.{
  Outcome, done, panic, expect, add_u64, ◌>>=◌, txid_not_reserving, account_should_be_in_service,
  account_should_be_disabled,
}
use cqrs_account.BTreeMap
use cqrs_account.Types.{Platform, ByteArray32, hex}
use cqrs_account.Account.Events.{AccountEvent, LifecycleEvent, TransactionEvent}
use cqrs_account.Account.Processed
use cqrs_account.Account.State.{
  Account, BankAccountState, in_service, disabled, closed, add_balance, sub_balance, save_txid,
  remove_txid,
}

unfoldable pub apply_lifecycle : Account → LifecycleEvent → Outcome Account
apply_lifecycle account (LifecycleEvent.opened account_id) = done (
    in_service (record {
      account_id = account_id;
      assets = [];
      reserving = [];
      processed_transactions = Processed.new Processed.default_ttl;
    }))
apply_lifecycle (in_service state) LifecycleEvent.disabled = done (disabled state)
apply_lifecycle _ LifecycleEvent.disabled = panic account_should_be_in_service
apply_lifecycle (disabled state) LifecycleEvent.enabled = done (in_service state)
apply_lifecycle _ LifecycleEvent.enabled = panic account_should_be_disabled
apply_lifecycle account LifecycleEvent.closed = done closed

module _ ⦃platform : Platform⦄ where
  -- `entry(receive_asset).and_modify(|b| *b += receive_amount).or_insert(receive_amount)`
  unfoldable pub receive : String → ℕ → BankAccountState → Outcome BankAccountState
  receive asset amount state = elim (BTreeMap.get asset state.assets) [
    | some b ↦ add_u64 platform.overflow_checks b amount >>= λ sum.
        done (record state { assets = BTreeMap.insert asset sum state.assets })
    | none ↦ done (record state { assets = BTreeMap.insert asset amount state.assets })
  ]

  unfoldable pub apply_transaction :
      BankAccountState → ℕ → ByteArray32 → TransactionEvent → Outcome BankAccountState
  apply_transaction state timestamp txid (TransactionEvent.deposited asset amount) = do
    state ← save_txid txid timestamp state
    add_balance asset amount state
  apply_transaction state timestamp txid (TransactionEvent.withdrew asset amount) = do
    state ← save_txid txid timestamp state
    sub_balance asset amount state
  apply_transaction state timestamp txid (TransactionEvent.debited _ asset amount) = do
    state ← save_txid txid timestamp state
    sub_balance asset amount state
  apply_transaction state timestamp txid (TransactionEvent.debit_reversed _ asset amount) = do
    state ← remove_txid txid state
    add_balance asset amount state
  apply_transaction state timestamp txid (TransactionEvent.credited _ asset amount) = do
    state ← save_txid txid timestamp state
    add_balance asset amount state
  apply_transaction state timestamp txid (TransactionEvent.credit_reversed _ asset amount) = do
    state ← remove_txid txid state
    sub_balance asset amount state
  apply_transaction state timestamp txid (TransactionEvent.funds_locked asset amount) = do
    state ← sub_balance asset amount state
    done (record state {
      reserving =
          BTreeMap.insert (hex txid) (record { asset = asset; amount = amount }) state.reserving;
    })
  apply_transaction state timestamp txid (TransactionEvent.funds_unlocked _ _) = do
    reserved ← expect (BTreeMap.get (hex txid) state.reserving) txid_not_reserving
    add_balance reserved.asset reserved.amount
        (record state { reserving = BTreeMap.remove (hex txid) state.reserving })
  apply_transaction state timestamp txid
        (TransactionEvent.settled _ _ _ receive_asset receive_amount) =
      do
        state ← save_txid txid timestamp state
        reserved ← expect (BTreeMap.get (hex txid) state.reserving) txid_not_reserving
        receive receive_asset receive_amount
            (record state { reserving = BTreeMap.remove (hex txid) state.reserving })

  unfoldable pub apply : Account → AccountEvent → Outcome Account
  apply account (AccountEvent.lifecycle event) = apply_lifecycle account event
  apply (in_service state) (AccountEvent.transaction timestamp txid event) =
      apply_transaction state timestamp txid event >>= λ state'. done (in_service state')
  apply _ (AccountEvent.transaction timestamp txid event) = panic account_should_be_in_service

  -- The framework loads an aggregate by applying its events in order.
  unfoldable pub apply_all : Account → List AccountEvent → Outcome Account
  apply_all account [] = done account
  apply_all account (event ∷ events) = apply account event >>= λ account'. apply_all account' events
