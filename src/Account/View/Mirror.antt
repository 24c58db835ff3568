-- ===== src/Account/View/Mirror.antt =====
-- The account view against the aggregate: what it shows of the balances and of the locks.
use cqrs_account.Prelude.{
  subst, ap, sym, ℕ, ◌+◌, ◌-◌, ◌≤◌, ◌<◌, ◌≡◌, refl, ◌∙◌, String, string_eq, true, false, Option,
  none, some, List, arith, get_or, Option-cases, inl, inr, ◌==◌, if◌then◌else◌,
}
use cqrs_account.Outcome.{Outcome, done, u64_mod}
use cqrs_account.BTreeMap
use cqrs_account.BTreeMap.{BTreeMap, get-insert, contains_key-insert}
use cqrs_account.Types.{Platform, ByteArray32, byte_array32_eq, hex}
use cqrs_account.Account.Commands.{
  TransactionCommand, deposit, withdraw, debit, reverse_debit, credit, reverse_credit, lock_funds,
}
use cqrs_account.Account.Events.{AccountEvent}
use cqrs_account.Account.Events.Build
use cqrs_account.Account.Processed.{get_timestamp}
use cqrs_account.Account.State.{BankAccountState, ReservedFunds, balance}
use cqrs_account.Account.State.Valid.{IsValid, reserved}
use cqrs_account.Account.Handle.{handle_transaction}
use cqrs_account.Account.Effect.{Effect, lock, writes}
use cqrs_account.Account.Replay.{Step, Step-Effect}
use cqrs_account.Account.View.{
  AccountView, LedgerDetail, add_ledger, ledger, gain, lose, upsert, increase, decrease,
  check_settled, update_transaction, update, update_all,
}

-- The amount that a map of the view shows.
abbrev pub shown : String → BTreeMap String ℕ → ℕ
shown a m = get_or (BTreeMap.get a m) 0

-- `upsert` writes `n`, whichever way it goes.
pub upsert-done :
    (asset : String) (modify : ℕ → Outcome ℕ) (otherwise : Outcome ℕ) (m : BTreeMap String ℕ)
    (n : ℕ)
    → (BTreeMap.contains_key asset m ≡ false → otherwise ≡ done n)
    → modify (shown asset m) ≡ done n
    → upsert asset modify otherwise m ≡ done (BTreeMap.insert asset n m)
unfolding upsert BTreeMap.contains_key
upsert-done asset modify otherwise m n o h = elim (Option-cases (BTreeMap.get asset m)) [
  | inl e ↦ ground (arith, o (ground arith))
  | inr (x, e) ↦ ground arith
]

pub shown-insert :
    (asset a : String) (n : ℕ) (m : BTreeMap String ℕ)
    → shown a (BTreeMap.insert asset n m) ≡ (if asset == a then n else shown a m)
shown-insert asset a n m = ground (arith, get-insert asset a n m)

shown_absent :
    (a : String) (m : BTreeMap String ℕ) → BTreeMap.contains_key a m ≡ false → shown a m ≡ 0
unfolding BTreeMap.contains_key
shown_absent a m h = ground arith

abbrev pub ShowsLock : BTreeMap String ℕ → Option ReservedFunds → Type 0
ShowsLock m none = Unit
ShowsLock m (some r) = BTreeMap.contains_key r.asset m ≡ true

module _ ⦃platform : Platform⦄ where
  pub increase-done : (n e : ℕ) → e + n < u64_mod → increase n e ≡ done (e + n)
  unfolding increase
  increase-done n e h = ground arith

  pub decrease-done : (n e : ℕ) → n ≤ e → decrease n e ≡ done (e - n)
  unfolding decrease
  decrease-done n e h = ground arith

  pub check_settled-done : (n e : ℕ) → n ≤ e → check_settled n e ≡ done e
  unfolding check_settled
  check_settled-done n e h = ground arith

  pub gain-done :
      (asset : String) (n : ℕ) (m : BTreeMap String ℕ)
      → shown asset m + n < u64_mod
      → upsert asset (increase n) (done n) m ≡ done (BTreeMap.insert asset (shown asset m + n) m)
  gain-done asset n m h =
      upsert-done asset (increase n) (done n) m (shown asset m + n)
        (λ e. ap (λ (k : ℕ). done k) (omega (arith, shown_absent asset m e)))
        (increase-done n (shown asset m) h)

  pub lose-done :
      (asset : String) (n : ℕ) (otherwise : Outcome ℕ) (m : BTreeMap String ℕ)
      → n ≤ shown asset m
      → (BTreeMap.contains_key asset m ≡ false → otherwise ≡ done 0)
      → upsert asset (decrease n) otherwise m ≡ done (BTreeMap.insert asset (shown asset m - n) m)
  lose-done asset n otherwise m h o =
      upsert-done asset (decrease n) otherwise m (shown asset m - n)
        (λ e. o e ∙ ap (λ (k : ℕ). done k) (omega (arith, shown_absent asset m e)))
        (decrease-done n (shown asset m) h)

  -- The view shows the balances exactly, entry by entry. Of the locks it shows at least what they
  -- hold, with an entry for each asset that a lock holds.
  pub record Mirrors (view : AccountView) (state : BankAccountState) : Type 0 where
    pub amounts : (a : String) → shown a view.balance ≡ balance a state
    pub entries :
        (a : String) → BTreeMap.contains_key a view.balance ≡ BTreeMap.contains_key a state.assets
    pub covers : (a : String) → reserved a state ≤ shown a view.locked_balance
    pub locks : (id : ByteArray32) → ShowsLock view.locked_balance (lock state id)

  module _ {view view' : AccountView} {state state' : BankAccountState} {ts : ℕ}
      {txid : ByteArray32} {c : TransactionCommand} (w : Mirrors view state)
      (x : Effect state ts txid c state') where
    -- A view that has written the balance that the command writes.
    pub mirror :
        (asset : String) (n : ℕ)
        → view'.balance ≡ BTreeMap.insert asset n view.balance
        → ((a : String) → (if asset == a then n else balance a state) ≡ balance a state')
        → ((a : String) → writes state txid c a ≡ (asset == a))
        → ((a : String) → reserved a state' ≤ shown a view'.locked_balance)
        → ((id : ByteArray32) → ShowsLock view'.locked_balance (lock state' id))
        → Mirrors view' state'
    mirror asset n e amounts written covers locks = record {
      amounts = λ a.
          ground
            (arith, ap (shown a) e, shown-insert asset a n view.balance, w.amounts a, amounts a);
      entries = λ a.
          ap (BTreeMap.contains_key a) e
          ∙ contains_key-insert asset a n view.balance
          ∙ ground (arith, x.listed a, written a, w.entries a);
      covers = covers;
      locks = locks;
    }

  -- A lock of an asset that was never held (of the amount 0) is what the view cannot show, and its
  -- sum of locked amounts has to stay in `u64`.
  abbrev pub ViewFits : AccountView → BankAccountState → TransactionCommand → Type 0
  ViewFits view state (lock_funds asset amount) =
      (BTreeMap.contains_key asset state.assets ≡ true)
      × (shown asset view.locked_balance + amount < u64_mod)
  ViewFits view state _ = Unit

  abbrev pub Follows : AccountView → BankAccountState → List AccountEvent → Type 0
  Follows view state' events =
      (view' : AccountView) × (update_all view events ≡ done view') × Mirrors view' state'

  module _ (view : AccountView) (state state' : BankAccountState) (ts : ℕ) (txid : ByteArray32)
      (w : Mirrors view state) (v : IsValid state) where
    pub deposit-Follows :
        (asset : String) (amount : ℕ) (t : Step state ts txid (deposit asset amount) state')
        → Follows view state' t.events
    unfolding handle_transaction Build.deposited update_all update update_transaction ledger gain
        add_ledger
    deposit-Follows asset amount t =
        elim (Option-cases (get_timestamp state.processed_transactions txid)) [
          | inr (t₀, old) ↦ absurd (ground (arith, t.accepted))
          | inl new ↦
              let x = Step-Effect v t in
              let fits : shown asset view.balance + amount < u64_mod =
                omega (arith, w.amounts asset, t.fits) in
              let view' : AccountView =
                add_ledger
                  (record {
                    timestamp = ts;
                    txid = hex txid;
                    detail = LedgerDetail.deposit asset amount;
                  })
                  (record view {
                    balance =
                        BTreeMap.insert asset (shown asset view.balance + amount) view.balance;
                  }) in
              (
                view',
                ground (arith, t.accepted, gain-done asset amount view.balance fits),
                mirror w x asset (shown asset view.balance + amount) refl
                    (λ a.
                      ground (arith, x.available a, w.amounts asset, string_eq.reflects asset a))
                    (λ a. refl) (λ a. omega (arith, x.held a, w.covers a))
                    (λ id. subst (ShowsLock view.locked_balance) (sym (x.locks id)) (w.locks id)),
              )
        ]

    pub withdraw-Follows :
        (asset : String) (amount : ℕ) (t : Step state ts txid (withdraw asset amount) state')
        → Follows view state' t.events
    unfolding handle_transaction Build.withdrew update_all update update_transaction ledger lose
        add_ledger
    withdraw-Follows asset amount t =
        elim (Option-cases (get_timestamp state.processed_transactions txid)) [
          | inr (t₀, old) ↦ absurd (ground (arith, t.accepted))
          | inl new ↦
              let x = Step-Effect v t in
              let fits : amount ≤ shown asset view.balance =
                ground (arith, w.amounts asset, t.fits, t.accepted) in
              let view' : AccountView =
                add_ledger
                  (record {
                    timestamp = ts;
                    txid = hex txid;
                    detail = LedgerDetail.withdraw asset amount;
                  })
                  (record view {
                    balance =
                        BTreeMap.insert asset (shown asset view.balance - amount) view.balance;
                  }) in
              (
                view',
                ground (
                  arith,
                  t.accepted,
                  lose-done asset amount (done 0) view.balance fits (λ h. refl),
                ),
                mirror w x asset (shown asset view.balance - amount) refl
                    (λ a.
                      ground (arith, x.available a, w.amounts asset, string_eq.reflects asset a))
                    (λ a. refl) (λ a. omega (arith, x.held a, w.covers a))
                    (λ id. subst (ShowsLock view.locked_balance) (sym (x.locks id)) (w.locks id)),
              )
        ]

    pub debit-Follows :
        (party asset : String) (amount : ℕ)
        (t : Step state ts txid (debit party asset amount) state')
        → Follows view state' t.events
    unfolding handle_transaction Build.debited update_all update update_transaction ledger lose
        add_ledger
    debit-Follows party asset amount t =
        elim (Option-cases (get_timestamp state.processed_transactions txid)) [
          | inr (t₀, old) ↦ absurd (ground (arith, t.accepted))
          | inl new ↦
              let x = Step-Effect v t in
              let fits : amount ≤ shown asset view.balance =
                ground (arith, w.amounts asset, t.fits, t.accepted) in
              let view' : AccountView =
                add_ledger
                  (record {
                    timestamp = ts;
                    txid = hex txid;
                    detail = LedgerDetail.debited party asset amount;
                  })
                  (record view {
                    balance =
                        BTreeMap.insert asset (shown asset view.balance - amount) view.balance;
                  }) in
              (
                view',
                ground (
                  arith,
                  t.accepted,
                  lose-done asset amount (done 0) view.balance fits (λ h. refl),
                ),
                mirror w x asset (shown asset view.balance - amount) refl
                    (λ a.
                      ground (arith, x.available a, w.amounts asset, string_eq.reflects asset a))
                    (λ a. refl) (λ a. omega (arith, x.held a, w.covers a))
                    (λ id. subst (ShowsLock view.locked_balance) (sym (x.locks id)) (w.locks id)),
              )
        ]

    pub credit-Follows :
        (party asset : String) (amount : ℕ)
        (t : Step state ts txid (credit party asset amount) state')
        → Follows view state' t.events
    unfolding handle_transaction Build.credited update_all update update_transaction ledger gain
        add_ledger
    credit-Follows party asset amount t =
        elim (Option-cases (get_timestamp state.processed_transactions txid)) [
          | inr (t₀, old) ↦ absurd (ground (arith, t.accepted))
          | inl new ↦
              let x = Step-Effect v t in
              let fits : shown asset view.balance + amount < u64_mod =
                omega (arith, w.amounts asset, t.fits) in
              let view' : AccountView =
                add_ledger
                  (record {
                    timestamp = ts;
                    txid = hex txid;
                    detail = LedgerDetail.credited party asset amount;
                  })
                  (record view {
                    balance =
                        BTreeMap.insert asset (shown asset view.balance + amount) view.balance;
                  }) in
              (
                view',
                ground (arith, t.accepted, gain-done asset amount view.balance fits),
                mirror w x asset (shown asset view.balance + amount) refl
                    (λ a.
                      ground (arith, x.available a, w.amounts asset, string_eq.reflects asset a))
                    (λ a. refl) (λ a. omega (arith, x.held a, w.covers a))
                    (λ id. subst (ShowsLock view.locked_balance) (sym (x.locks id)) (w.locks id)),
              )
        ]

    pub reverse_debit-Follows :
        (party asset : String) (amount : ℕ)
        (t : Step state ts txid (reverse_debit party asset amount) state')
        → Follows view state' t.events
    unfolding handle_transaction Build.debit_reversed update_all update update_transaction ledger
        gain add_ledger
    reverse_debit-Follows party asset amount t =
        elim (Option-cases (get_timestamp state.processed_transactions txid)) [
          | inl new ↦ absurd (ground (arith, t.accepted))
          | inr (t₀, old) ↦
              let x = Step-Effect v t in
              let fits : shown asset view.balance + amount < u64_mod =
                omega (arith, w.amounts asset, t.fits) in
              let view' : AccountView =
                add_ledger
                  (record {
                    timestamp = t₀;
                    txid = hex txid;
                    detail = LedgerDetail.debit_reversed party asset amount;
                  })
                  (record view {
                    balance =
                        BTreeMap.insert asset (shown asset view.balance + amount) view.balance;
                  }) in
              (
                view',
                ground (arith, t.accepted, gain-done asset amount view.balance fits),
                mirror w x asset (shown asset view.balance + amount) refl
                    (λ a.
                      ground (arith, x.available a, w.amounts asset, string_eq.reflects asset a))
                    (λ a. refl) (λ a. omega (arith, x.held a, w.covers a))
                    (λ id. subst (ShowsLock view.locked_balance) (sym (x.locks id)) (w.locks id)),
              )
        ]

    pub reverse_credit-Follows :
        (party asset : String) (amount : ℕ)
        (t : Step state ts txid (reverse_credit party asset amount) state')
        → Follows view state' t.events
    unfolding handle_transaction Build.credit_reversed update_all update update_transaction ledger
        lose add_ledger
    reverse_credit-Follows party asset amount t =
        elim (Option-cases (get_timestamp state.processed_transactions txid)) [
          | inl new ↦ absurd (ground (arith, t.accepted))
          | inr (t₀, old) ↦
              let x = Step-Effect v t in
              let fits : amount ≤ shown asset view.balance =
                ground (arith, w.amounts asset, t.fits, t.accepted) in
              let view' : AccountView =
                add_ledger
                  (record {
                    timestamp = t₀;
                    txid = hex txid;
                    detail = LedgerDetail.credit_reversed party asset amount;
                  })
                  (record view {
                    balance =
                        BTreeMap.insert asset (shown asset view.balance - amount) view.balance;
                  }) in
              (
                view',
                ground (
                  arith,
                  t.accepted,
                  lose-done asset amount (done 0) view.balance fits (λ h. refl),
                ),
                mirror w x asset (shown asset view.balance - amount) refl
                    (λ a.
                      ground (arith, x.available a, w.amounts asset, string_eq.reflects asset a))
                    (λ a. refl) (λ a. omega (arith, x.held a, w.covers a))
                    (λ id. subst (ShowsLock view.locked_balance) (sym (x.locks id)) (w.locks id)),
              )
        ]
