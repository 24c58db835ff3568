-- ===== src/Account/View/Gaps.antt =====
-- Where the account view departs from the aggregate.
use cqrs_account.Prelude.{
  ℕ, ◌+◌, ◌≡◌, String, string_eq, false, none, some, [], ◌∷◌, arith, Option-cases, inl, inr,
  beq_refl,
}
use cqrs_account.Outcome.{
  Panic, locked_asset_not_exists, done, panic, ok, asset_not_found_due_to_lock,
}
use cqrs_account.BTreeMap
use cqrs_account.BTreeMap.{BTreeMap, get-insert}
use cqrs_account.Types.{Platform, ByteArray32}
use cqrs_account.Account.Commands.{settle, lock_funds}
use cqrs_account.Account.Events.Build
use cqrs_account.Account.State.{BankAccountState, ReservedFunds}
use cqrs_account.Account.State.Valid.{IsValid, reserved}
use cqrs_account.Account.Handle.{handle_transaction}
use cqrs_account.Account.Effect.{lock}
use cqrs_account.Account.Replay.{Step, Step-Effect}
use cqrs_account.Account.View.{
  AccountView, add_ledger, ledger, upsert, check_settled, update_transaction, update, update_all,
}
use cqrs_account.Account.View.Mirror.{shown, Mirrors}

upsert-check_settled :
    (asset : String) (n : ℕ) (p : Panic) (m m' : BTreeMap String ℕ)
    → upsert asset (check_settled n) (panic p) m ≡ done m'
    → shown asset m' ≡ shown asset m
unfolding upsert check_settled
upsert-check_settled asset n p m m' h = elim (Option-cases (BTreeMap.get asset m)) [
  | inl e ↦ absurd (ground arith)
  | inr (x, e) ↦ ground (arith, get-insert asset asset x m, beq_refl asset)
]

module _ ⦃platform : Platform⦄ where
  settled_locked :
      (view view' : AccountView) (ts : ℕ) (txid : ByteArray32) (party send receive : String)
      (sent received : ℕ)
      → update_all view (Build.settlement txid ts party send sent receive received ∷ [])
        ≡ done view'
      → shown send view'.locked_balance ≡ shown send view.locked_balance
  unfolding update_all update update_transaction Build.settlement ledger add_ledger
  settled_locked view view' ts txid party send receive sent received h = ground (
    arith,
    upsert-check_settled send sent locked_asset_not_exists view.locked_balance view'.locked_balance,
  )

  -- A settlement that a valid account accepts takes the locked amount out of the account's locks. A view
  -- that showed exactly what was locked, and takes the event, goes on showing that amount as locked.
  pub settled_stays_locked :
      (view view' : AccountView) (state state' : BankAccountState) (ts : ℕ) (txid : ByteArray32)
      (party asset : String) (amount : ℕ) (r : ReservedFunds)
      → IsValid state
      → shown r.asset view.locked_balance ≡ reserved r.asset state
      → lock state txid ≡ some r
      → (t : Step state ts txid (settle party asset amount) state')
      → update_all view t.events ≡ done view'
      → shown r.asset view'.locked_balance ≡ reserved r.asset state' + r.amount
  unfolding handle_transaction
  settled_stays_locked view view' state state' ts txid party asset amount r v exact found t u =
      let x = Step-Effect v t in
      let event : t.events ≡ Build.settlement txid ts party r.asset r.amount asset amount ∷ [] =
        ground (arith, t.accepted) in
      let same =
        settled_locked view view' ts txid party r.asset asset r.amount amount (rw event at u) in
      ground (arith, same, x.held r.asset, found, beq_refl r.asset)

  -- A lock of the amount 0 in an asset that the account does not list is accepted under a new lock id,
  -- and a view that mirrors the account panics at its event.
  pub empty_lock_breaks_view :
      (view : AccountView) (state : BankAccountState) (ts : ℕ) (txid : ByteArray32) (asset : String)
      → Mirrors view state
      → BTreeMap.contains_key asset state.assets ≡ false
      → lock state txid ≡ none
      → (handle_transaction state ts txid (lock_funds asset 0)
          ≡ ok (Build.funds_locked txid ts asset 0 ∷ []))
        × (update_all view (Build.funds_locked txid ts asset 0 ∷ [])
            ≡ panic asset_not_found_due_to_lock)
  unfolding handle_transaction Build.funds_locked update_all update update_transaction upsert
      BTreeMap.contains_key
  empty_lock_breaks_view view state ts txid asset w absent free =
      let missing = w.entries asset in (ground arith, ground arith)
