-- ===== src/Account/View/Ledger.antt =====
-- The ledger of the view, `add_ledger` of `src/account/queries.rs`.
use cqrs_account.Prelude.{◌≤◌, ◌≡◌, refl, List, [], ◌∷◌, length, arith}
use cqrs_account.Outcome.{done, >>=-eq-done}
use cqrs_account.Types.{Platform}
use cqrs_account.Account.Events.{AccountEvent, LifecycleEvent, TransactionEvent}
use cqrs_account.Account.View.{
  AccountView, LedgerEntry, recent_ledger_size, pop_back, add_ledger, ledger, gain, lose,
  update_transaction, update_lifecycle, update, update_all,
}

length-pop_back {ℓ} : {A : Type ℓ} (x : A) (l : List A) → length (pop_back (x ∷ l)) ≡ length l
unfolding pop_back
length-pop_back x [] = refl
length-pop_back x (y ∷ l) = omega (arith, length-pop_back y l)

abbrev IsBounded : AccountView → Type 0
IsBounded view = length view.recent_ledger ≤ recent_ledger_size

add_ledger-IsBounded :
    (e : LedgerEntry) (view : AccountView) → IsBounded view → IsBounded (add_ledger e view)
unfolding add_ledger
add_ledger-IsBounded e view h = ground (arith, length-pop_back e view.recent_ledger)

module _ ⦃platform : Platform⦄ where
  update-IsBounded :
      (view view' : AccountView) (event : AccountEvent)
      → update view event ≡ done view'
      → IsBounded view
      → IsBounded view'
  unfolding update update_lifecycle update_transaction gain lose ledger
  update-IsBounded view view' (AccountEvent.lifecycle (LifecycleEvent.opened id)) e h = ground arith
  update-IsBounded view view' (AccountEvent.lifecycle _) e h = ground arith
  update-IsBounded view view' (AccountEvent.transaction ts txid (TransactionEvent.deposited _ _)) e
        h =
      grind (arith, add_ledger-IsBounded)
  update-IsBounded view view' (AccountEvent.transaction ts txid _) e h =
      grind (arith, add_ledger-IsBounded)

  -- Whatever events the view takes, it keeps at most a hundred ledger entries.
  pub update_all_bounds_ledger :
      (view view' : AccountView) (events : List AccountEvent)
      → length view.recent_ledger ≤ 100
      → update_all view events ≡ done view'
      → length view'.recent_ledger ≤ 100
  unfolding update_all
  update_all_bounds_ledger view view' [] h e = ground arith
  update_all_bounds_ledger view view' (event ∷ events) h e =
      let (view₁, e₁, e₂) = >>=-eq-done (update view event) (λ v. update_all v events) e in
      update_all_bounds_ledger view₁ view' events (update-IsBounded view view₁ event e₁ h) e₂
