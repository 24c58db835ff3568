-- ===== src/Account/View.antt =====
-- `AccountView` of `src/account/queries.rs`, the view that answers account queries.
pub mod Mirror
pub mod Follow
pub mod Gaps
pub mod Ledger
use cqrs_account.Prelude.{
  ℕ, zero, suc, ◌+◌, ◌-◌, String, string_eq, Bool, true, false, Option, none, some, List, [], ◌∷◌,
  length, ltb, if◌then◌else◌,
}
use cqrs_account.Outcome.{
  Outcome, done, panic, Panic, ◌>>=◌, add_u64, sub_u64, checked_sub, expect,
  asset_not_found_due_to_lock, asset_not_exists_due_to_unlock, locked_asset_not_exists,
  locked_less_than_settled,
}
use cqrs_account.BTreeMap
use cqrs_account.BTreeMap.{BTreeMap}
use cqrs_account.Types.{Platform, ByteArray32, hex}
use cqrs_account.Account.Events.{AccountEvent, LifecycleEvent, TransactionEvent}

abbrev pub recent_ledger_size : ℕ
recent_ledger_size = 100

pub data LedgerDetail : Type 0 where
  -- asset, amount
  deposit withdraw : String → ℕ → LedgerDetail
  -- the other account, asset, amount
  debited debit_reversed credited credit_reversed : String → String → ℕ → LedgerDetail
  -- asset, amount
  lock unlock : String → ℕ → LedgerDetail
  -- to_account, send_asset, send_amount, receive_asset, receive_amount
  settlement : String → String → ℕ → String → ℕ → LedgerDetail

pub record LedgerEntry : Type 0 where
  pub timestamp : ℕ
  pub txid : String
  pub detail : LedgerDetail

pub record AccountView : Type 0 where
  pub account_id : Option String
  pub is_disabled : Bool
  pub balance : BTreeMap String ℕ
  pub locked_balance : BTreeMap String ℕ
  pub recent_ledger : List LedgerEntry

-- `Default::default()`
abbrev pub default : AccountView
default = record {
  account_id = none;
  is_disabled = false;
  balance = [];
  locked_balance = [];
  recent_ledger = [];
}

-- `VecDeque::pop_back`
unfoldable pub pop_back {ℓ} : {A : Type ℓ} → List A → List A
pop_back [] = []
pop_back (x ∷ []) = []
pop_back (x ∷ y ∷ l) = x ∷ pop_back (y ∷ l)

unfoldable pub add_ledger : LedgerEntry → AccountView → AccountView
add_ledger entry view =
    let pushed = entry ∷ view.recent_ledger in
    record view {
      recent_ledger = if ltb recent_ledger_size (length pushed) then pop_back pushed else pushed;
    }

-- `entry(asset).and_modify(modify).or_insert(otherwise)`
unfoldable pub upsert :
    String → (ℕ → Outcome ℕ) → Outcome ℕ → BTreeMap String ℕ → Outcome (BTreeMap String ℕ)
upsert asset modify otherwise m = elim (BTreeMap.get asset m) [
  | some e ↦ modify e >>= λ n. done (BTreeMap.insert asset n m)
  | none ↦ otherwise >>= λ n. done (BTreeMap.insert asset n m)
]

update_lifecycle : AccountView → LifecycleEvent → AccountView
update_lifecycle view (LifecycleEvent.opened account_id) = record view {
  account_id = some account_id;
}
update_lifecycle view LifecycleEvent.closed = default
update_lifecycle view LifecycleEvent.disabled = record view { is_disabled = true }
update_lifecycle view LifecycleEvent.enabled = record view { is_disabled = false }

-- The closure of a settlement checks the difference and drops it.
pub check_settled : ℕ → ℕ → Outcome ℕ
check_settled send_amount e =
    expect (checked_sub e send_amount) locked_less_than_settled >>= λ _. done e

module _ ⦃platform : Platform⦄ where
  -- `*e += amount` and `*e -= amount`
  pub increase : ℕ → ℕ → Outcome ℕ
  increase amount e = add_u64 platform.overflow_checks e amount

  pub decrease : ℕ → ℕ → Outcome ℕ
  decrease amount e = sub_u64 platform.overflow_checks e amount

  gain : String → ℕ → AccountView → Outcome AccountView
  gain asset amount view = upsert asset (increase amount) (done amount) view.balance >>= λ b.
      done (record view { balance = b })

  lose : String → ℕ → AccountView → Outcome AccountView
  lose asset amount view = upsert asset (decrease amount) (done 0) view.balance >>= λ b.
      done (record view { balance = b })

  ledger : ℕ → ByteArray32 → LedgerDetail → AccountView → Outcome AccountView
  ledger timestamp txid detail view =
      done (add_ledger (record { timestamp = timestamp; txid = hex txid; detail = detail }) view)

  unfoldable pub update_transaction :
      AccountView → ℕ → ByteArray32 → TransactionEvent → Outcome AccountView
  unfolding increase decrease gain lose ledger check_settled
  update_transaction view timestamp txid (TransactionEvent.deposited asset amount) = do
    view ← gain asset amount view
    ledger timestamp txid (deposit asset amount) view
  update_transaction view timestamp txid (TransactionEvent.withdrew asset amount) = do
    view ← lose asset amount view
    ledger timestamp txid (withdraw asset amount) view
  update_transaction view timestamp txid (TransactionEvent.debited to_account asset amount) = do
    view ← lose asset amount view
    ledger timestamp txid (debited to_account asset amount) view
  update_transaction view timestamp txid (TransactionEvent.debit_reversed to_account asset amount) =
      do
        view ← gain asset amount view
        ledger timestamp txid (debit_reversed to_account asset amount) view
  update_transaction view timestamp txid (TransactionEvent.credited from_account asset amount) = do
    view ← gain asset amount view
    ledger timestamp txid (credited from_account asset amount) view
  update_transaction view timestamp txid
        (TransactionEvent.credit_reversed from_account asset amount) =
      do
        view ← lose asset amount view
        ledger timestamp txid (credit_reversed from_account asset amount) view
  update_transaction view timestamp txid (TransactionEvent.funds_locked asset amount) = do
    b ← upsert asset (decrease amount) (panic asset_not_found_due_to_lock) view.balance
    l ← upsert asset (increase amount) (done amount) view.locked_balance
    ledger timestamp txid (lock asset amount) (record view { balance = b; locked_balance = l })
  update_transaction view timestamp txid (TransactionEvent.funds_unlocked asset amount) = do
    b ← upsert asset (increase amount) (done amount) view.balance
    l ← upsert asset (decrease amount) (panic asset_not_exists_due_to_unlock) view.locked_balance
    ledger timestamp txid (unlock asset amount) (record view { balance = b; locked_balance = l })
  update_transaction view timestamp txid
        (TransactionEvent.settled to_account send_asset send_amount receive_asset receive_amount) =
      do
        l ←
            upsert send_asset (check_settled send_amount) (panic locked_asset_not_exists)
              view.locked_balance
        b ← upsert receive_asset (increase receive_amount) (done receive_amount) view.balance
        ledger timestamp txid
            (settlement to_account send_asset send_amount receive_asset receive_amount)
            (record view { balance = b; locked_balance = l })

  unfoldable pub update : AccountView → AccountEvent → Outcome AccountView
  unfolding update_lifecycle
  update view (AccountEvent.lifecycle event) = done (update_lifecycle view event)
  update view (AccountEvent.transaction timestamp txid event) =
      update_transaction view timestamp txid event

  unfoldable pub update_all : AccountView → List AccountEvent → Outcome AccountView
  update_all view [] = done view
  update_all view (event ∷ events) = update view event >>= λ view'. update_all view' events
