-- ===== src/Account/Effect/Moves.antt =====
-- The commands that move a balance and record or forget a transaction id.
use cqrs_account.Prelude.{
  Bool, ap, ◌∙◌, ◌||◌, ℕ, ◌+◌, ◌-◌, ◌≤◌, ◌<◌, ◌≡◌, refl, String, List, arith, string_eq, ◌==◌,
  if◌then◌else◌, Option-cases, inl, inr,
}
use cqrs_account.Outcome.{done, u64_mod, ok}
use cqrs_account.BTreeMap
use cqrs_account.BTreeMap.{contains_key-insert}
use cqrs_account.Types.{Platform, ByteArray32}
use cqrs_account.Account.Commands.{
  TransactionCommand, deposit, withdraw, debit, reverse_debit, credit, reverse_credit,
}
use cqrs_account.Account.Events.{AccountEvent}
use cqrs_account.Account.Events.Build
use cqrs_account.Account.Processed.{ProcessedTransactions, get_timestamp}
use cqrs_account.Account.Processed.Laws.{IsValid as IsValidProcessed}
use cqrs_account.Account.State.{BankAccountState, in_service, balance}
use cqrs_account.Account.State.Valid.{
  IsValid, with_balance, balance-with_balance, add_balance-done, sub_balance-done, save_txid_lem,
  remove_txid_lem,
}
use cqrs_account.Account.Handle.{handle_transaction}
use cqrs_account.Account.Apply.{apply_transaction, apply, apply_all}
use cqrs_account.Account.Effect.{
  Effect, Fits, writes, KnownAfter, incoming, outgoing, locking, unlocking, lock, lock_after,
}

module _ ⦃platform : Platform⦄ (state : BankAccountState) (ts : ℕ) (txid : ByteArray32) where
  -- An accepted command whose events apply, with its effect.
  abbrev pub Applies : TransactionCommand → List AccountEvent → Type 0
  Applies c events =
      (state' : BankAccountState) × (apply_all (in_service state) events ≡ done (in_service state'))
      × Effect state ts txid c state'

  module _ (v : IsValid state) (asset : String) (c : TransactionCommand)
      (p : ProcessedTransactions) where
    -- The effect of writing one balance and the known transactions.
    with_balance-Effect :
        (b : ℕ)
        → IsValidProcessed p
        → KnownAfter txid ts c state.processed_transactions p
        → b < u64_mod
        → ((a : String)
            → (if asset == a then b else balance a state) + outgoing state txid c a + locking c a
              ≡ balance a state + incoming c a + unlocking state txid c a)
        → ((id : ByteArray32) → lock state id ≡ lock_after state txid c id)
        → ((a : String) → unlocking state txid c a ≡ locking c a)
        → ((a : String) → (asset == a) ≡ writes state txid c a)
        → Effect state ts txid c
            (with_balance asset b (record state { processed_transactions = p }))
    with_balance-Effect b valid known small sums locks held written =
        let move = λ (a : String).
          balance-with_balance asset a b (record state { processed_transactions = p }) in
        record {
          valid = record {
            processed = valid;
            distinct = v.distinct;
            bounded = λ a. ground (arith, move a, v.bounded a);
          };
          available = λ a. ground (arith, move a, sums a);
          listed = λ a.
              contains_key-insert asset a b state.assets
              ∙ ap (λ (w : Bool). w || BTreeMap.contains_key a state.assets) (written a);
          held = λ a. omega (arith, held a);
          locks = locks;
          known = known;
          same_id = refl;
        }

  module _ (v : IsValid state) (f : ts + state.processed_transactions.ttl < u64_mod)
      (party asset : String) (amount : ℕ) {events : List AccountEvent} where
    pub deposit-Applies :
        Fits state txid (deposit asset amount)
        → handle_transaction state ts txid (deposit asset amount) ≡ ok events
        → Applies (deposit asset amount) events
    unfolding handle_transaction Build.deposited apply_all apply apply_transaction
    deposit-Applies r h = elim (Option-cases (get_timestamp state.processed_transactions txid)) [
      | inl new ↦
          let (p, e, i) = save_txid_lem txid ts state v.processed new f in
          (
            with_balance asset (balance asset state + amount)
                (record state { processed_transactions = p }),
            ground (
              arith,
              add_balance-done asset amount (record state { processed_transactions = p }) r,
            ),
            with_balance-Effect v asset (deposit asset amount) p (balance asset state + amount)
                i.valid i (omega (arith, v.bounded asset))
                (λ a. ground (arith, string_eq.reflects asset a)) (λ id. refl) (λ a. refl)
                (λ a. refl),
          )
      | inr (t, old) ↦ absurd (ground arith)
    ]

    pub withdraw-Applies :
        Fits state txid (withdraw asset amount)
        → handle_transaction state ts txid (withdraw asset amount) ≡ ok events
        → Applies (withdraw asset amount) events
    unfolding handle_transaction Build.withdrew apply_all apply apply_transaction
    withdraw-Applies r h = elim (Option-cases (get_timestamp state.processed_transactions txid)) [
      | inl new ↦
          let (p, e, i) = save_txid_lem txid ts state v.processed new f in
          let funded : amount ≤ balance asset state = ground arith in
          (
            with_balance asset (balance asset state - amount)
                (record state { processed_transactions = p }),
            ground (
              arith,
              sub_balance-done asset amount (record state { processed_transactions = p }) funded,
            ),
            with_balance-Effect v asset (withdraw asset amount) p (balance asset state - amount)
                i.valid i (omega (arith, v.bounded asset))
                (λ a. ground (arith, string_eq.reflects asset a)) (λ id. refl) (λ a. refl)
                (λ a. refl),
          )
      | inr (t, old) ↦ absurd (ground arith)
    ]

    pub debit-Applies :
        Fits state txid (debit party asset amount)
        → handle_transaction state ts txid (debit party asset amount) ≡ ok events
        → Applies (debit party asset amount) events
    unfolding handle_transaction Build.debited apply_all apply apply_transaction
    debit-Applies r h = elim (Option-cases (get_timestamp state.processed_transactions txid)) [
      | inl new ↦
          let (p, e, i) = save_txid_lem txid ts state v.processed new f in
          let funded : amount ≤ balance asset state = ground arith in
          (
            with_balance asset (balance asset state - amount)
                (record state { processed_transactions = p }),
            ground (
              arith,
              sub_balance-done asset amount (record state { processed_transactions = p }) funded,
            ),
            with_balance-Effect v asset (debit party asset amount) p (balance asset state - amount)
                i.valid i (omega (arith, v.bounded asset))
                (λ a. ground (arith, string_eq.reflects asset a)) (λ id. refl) (λ a. refl)
                (λ a. refl),
          )
      | inr (t, old) ↦ absurd (ground arith)
    ]

    pub credit-Applies :
        Fits state txid (credit party asset amount)
        → handle_transaction state ts txid (credit party asset amount) ≡ ok events
        → Applies (credit party asset amount) events
    unfolding handle_transaction Build.credited apply_all apply apply_transaction
    credit-Applies r h = elim (Option-cases (get_timestamp state.processed_transactions txid)) [
      | inl new ↦
          let (p, e, i) = save_txid_lem txid ts state v.processed new f in
          (
            with_balance asset (balance asset state + amount)
                (record state { processed_transactions = p }),
            ground (
              arith,
              add_balance-done asset amount (record state { processed_transactions = p }) r,
            ),
            with_balance-Effect v asset (credit party asset amount) p (balance asset state + amount)
                i.valid i (omega (arith, v.bounded asset))
                (λ a. ground (arith, string_eq.reflects asset a)) (λ id. refl) (λ a. refl)
                (λ a. refl),
          )
      | inr (t, old) ↦ absurd (ground arith)
    ]

    pub reverse_debit-Applies :
        Fits state txid (reverse_debit party asset amount)
        → handle_transaction state ts txid (reverse_debit party asset amount) ≡ ok events
        → Applies (reverse_debit party asset amount) events
    unfolding handle_transaction Build.debit_reversed apply_all apply apply_transaction
    reverse_debit-Applies r h =
        elim (Option-cases (get_timestamp state.processed_transactions txid)) [
          | inl new ↦ absurd (ground arith)
          | inr (t, old) ↦
              let (p, e, i) = remove_txid_lem txid t state v.processed old in
              (
                with_balance asset (balance asset state + amount)
                    (record state { processed_transactions = p }),
                ground (
                  arith,
                  add_balance-done asset amount (record state { processed_transactions = p }) r,
                ),
                with_balance-Effect v asset (reverse_debit party asset amount) p
                    (balance asset state + amount) i.valid i (omega (arith, v.bounded asset))
                    (λ a. ground (arith, string_eq.reflects asset a)) (λ id. refl) (λ a. refl)
                    (λ a. refl),
              )
        ]

    pub reverse_credit-Applies :
        Fits state txid (reverse_credit party asset amount)
        → handle_transaction state ts txid (reverse_credit party asset amount) ≡ ok events
        → Applies (reverse_credit party asset amount) events
    unfolding handle_transaction Build.credit_reversed apply_all apply apply_transaction
    reverse_credit-Applies r h =
        elim (Option-cases (get_timestamp state.processed_transactions txid)) [
          | inl new ↦ absurd (ground arith)
          | inr (t, old) ↦
              let (p, e, i) = remove_txid_lem txid t state v.processed old in
              (
                with_balance asset (balance asset state - amount)
                    (record state { processed_transactions = p }),
                ground (
                  arith,
                  sub_balance-done asset amount (record state { processed_transactions = p }) r,
                ),
                with_balance-Effect v asset (reverse_credit party asset amount) p
                    (balance asset state - amount) i.valid i (omega (arith, v.bounded asset))
                    (λ a. ground (arith, string_eq.reflects asset a)) (λ id. refl) (λ a. refl)
                    (λ a. refl),
              )
        ]
