-- ===== src/Account/Undo.antt =====
-- What an unlock undoes of a lock, and a reversal of a debit or a credit.
use cqrs_account.Prelude.{
  ℕ, ◌+◌, ◌≤◌, ◌<◌, ◌≡◌, refl, ◌∙◌, String, List, [], ◌∷◌, arith, string_eq, some, none, beq_refl,
}
use cqrs_account.Outcome.{done, ok, u64_mod}
use cqrs_account.BTreeMap
use cqrs_account.Types.{Platform, ByteArray32, byte_array32_eq, ByteArray32-beq_iff}
use cqrs_account.Account.Commands.{
  deposit, debit, credit, lock_funds, unlock_funds, reverse_debit, reverse_credit,
}
use cqrs_account.Account.Events.{AccountEvent}
use cqrs_account.Account.Events.Build
use cqrs_account.Account.State.{BankAccountState, in_service, balance}
use cqrs_account.Account.State.Valid.{IsValid}
use cqrs_account.Account.Handle.{handle_transaction}
use cqrs_account.Account.Apply.{apply_all}
use cqrs_account.Account.Effect.{Fits, lock}
use cqrs_account.Account.Effect.Accepted.{handle_transaction-Applies}
use cqrs_account.Account.History.{wealth_of}
use cqrs_account.Account.Replay.{Step, Step-Effect, known}

module _ ⦃platform : Platform⦄ where
  -- Two states with the same balances and the same locks.
  pub record SameFunds (s t : BankAccountState) : Type 0 where
    pub balances : (a : String) → balance a s ≡ balance a t
    pub locks : (id : ByteArray32) → lock s id ≡ lock t id

  reserve_free :
      (state : BankAccountState) (ts : ℕ) (txid : ByteArray32) (asset : String) (amount : ℕ)
      (events : List AccountEvent)
      → handle_transaction state ts txid (lock_funds asset amount) ≡ ok events
      → (lock state txid ≡ none) × (amount ≤ balance asset state)
  unfolding handle_transaction BTreeMap.contains_key
  reserve_free state ts txid asset amount events h = ground arith

  unlock_accepted :
      (state : BankAccountState) (ts : ℕ) (txid : ByteArray32) (asset : String) (amount : ℕ)
      → lock state txid ≡ some (record { asset = asset; amount = amount })
      → handle_transaction state ts txid unlock_funds
        ≡ ok (Build.funds_unlocked txid ts asset amount ∷ [])
  unfolding handle_transaction
  unlock_accepted state ts txid asset amount h = ground arith

  -- An unlock right after a lock that a valid account has accepted is accepted, applies, and gives back
  -- every balance and every lock as it was before, if its timestamp stays in `u64`; the known
  -- transactions are untouched.
  pub unlock_undoes_lock :
      (state state₁ : BankAccountState) (ts ts₂ : ℕ) (txid : ByteArray32) (asset : String)
      (amount : ℕ)
      → IsValid state
      → Step state ts txid (lock_funds asset amount) state₁
      → ts₂ + state.processed_transactions.ttl < u64_mod
      → (state₂ : BankAccountState) × (handle_transaction state₁ ts₂ txid unlock_funds
          ≡ ok (Build.funds_unlocked txid ts₂ asset amount ∷ []))
        × (apply_all (in_service state₁) (Build.funds_unlocked txid ts₂ asset amount ∷ [])
            ≡ done (in_service state₂))
        × SameFunds state₂ state
        × (state₂.processed_transactions ≡ state.processed_transactions)
  unlock_undoes_lock state state₁ ts ts₂ txid asset amount v t f =
      let x = Step-Effect v t in
      let (free, funded) = reserve_free state ts txid asset amount t.events t.accepted in
      let found : lock state₁ txid ≡ some (record { asset = asset; amount = amount }) =
        x.locks txid ∙ rw (beq_refl txid) refl in
      let fits : Fits state₁ txid unlock_funds =
        rw found (ground (arith, x.available asset, v.bounded asset, beq_refl asset)) in
      let stamp : ts₂ + state₁.processed_transactions.ttl < u64_mod = rw x.known f in
      let accept = unlock_accepted state₁ ts₂ txid asset amount found in
      let (state₂, e, y) =
        handle_transaction-Applies state₁ ts₂ txid unlock_funds x.valid stamp fits accept in
      (
        state₂,
        accept,
        e,
        record {
          balances = λ a. ground (arith, x.available a, y.available a, found);
          locks = λ id. ground (arith, x.locks id, y.locks id, free, ByteArray32-beq_iff txid id);
        },
        y.known ∙ x.known,
      )

  reverse_debit_accepted :
      (state : BankAccountState) (ts t : ℕ) (txid : ByteArray32) (party asset : String) (amount : ℕ)
      → known state txid ≡ some t
      → handle_transaction state ts txid (reverse_debit party asset amount)
        ≡ ok (Build.debit_reversed txid t party asset amount ∷ [])
  unfolding handle_transaction
  reverse_debit_accepted state ts t txid party asset amount h = ground arith

  reverse_credit_accepted :
      (state : BankAccountState) (ts t : ℕ) (txid : ByteArray32) (party asset : String) (amount : ℕ)
      → known state txid ≡ some t
      → handle_transaction state ts txid (reverse_credit party asset amount)
        ≡ ok (Build.credit_reversed txid t party asset amount ∷ [])
  unfolding handle_transaction
  reverse_credit_accepted state ts t txid party asset amount h = ground arith

  debit_funded :
      (state : BankAccountState) (ts : ℕ) (txid : ByteArray32) (party asset : String) (amount : ℕ)
      (events : List AccountEvent)
      → handle_transaction state ts txid (debit party asset amount) ≡ ok events
      → amount ≤ balance asset state
  unfolding handle_transaction
  debit_funded state ts txid party asset amount events h = ground arith

  -- A reversal right after a debit that a valid account has accepted is accepted, applies, gives back
  -- every balance and every lock, and forgets the id, if its timestamp stays in `u64`.
  pub reversal_undoes_debit :
      (state state₁ : BankAccountState) (ts ts₂ : ℕ) (txid : ByteArray32) (party asset : String)
      (amount : ℕ)
      → IsValid state
      → Step state ts txid (debit party asset amount) state₁
      → ts₂ + state.processed_transactions.ttl < u64_mod
      → (state₂ : BankAccountState) × (handle_transaction state₁ ts₂ txid
            (reverse_debit party asset amount)
          ≡ ok (Build.debit_reversed txid ts party asset amount ∷ []))
        × (apply_all (in_service state₁) (Build.debit_reversed txid ts party asset amount ∷ [])
            ≡ done (in_service state₂))
        × SameFunds state₂ state
        × (known state₂ txid ≡ none)
  reversal_undoes_debit state state₁ ts ts₂ txid party asset amount v t f =
      let x = Step-Effect v t in
      let funded = debit_funded state ts txid party asset amount t.events t.accepted in
      let stamp : ts₂ + state₁.processed_transactions.ttl < u64_mod = rw (x.known.same_ttl) f in
      let fits : Fits state₁ txid (reverse_debit party asset amount) =
        ground (arith, x.available asset, v.bounded asset, beq_refl asset) in
      let accept = reverse_debit_accepted state₁ ts₂ ts txid party asset amount x.known.inserted in
      let (state₂, e, y) =
        handle_transaction-Applies state₁ ts₂ txid (reverse_debit party asset amount) x.valid stamp
          fits accept in
      (
        state₂,
        accept,
        e,
        record {
          balances = λ a. omega (arith, x.available a, y.available a);
          locks = λ id. y.locks id ∙ x.locks id;
        },
        y.known.shows txid ∙ rw (beq_refl txid) refl,
      )

  -- A reversal right after a credit that a valid account has accepted is accepted, applies, gives back
  -- every balance and every lock, and forgets the id, if its timestamp stays in `u64`.
  pub reversal_undoes_credit :
      (state state₁ : BankAccountState) (ts ts₂ : ℕ) (txid : ByteArray32) (party asset : String)
      (amount : ℕ)
      → IsValid state
      → Step state ts txid (credit party asset amount) state₁
      → ts₂ + state.processed_transactions.ttl < u64_mod
      → (state₂ : BankAccountState) × (handle_transaction state₁ ts₂ txid
            (reverse_credit party asset amount)
          ≡ ok (Build.credit_reversed txid ts party asset amount ∷ []))
        × (apply_all (in_service state₁) (Build.credit_reversed txid ts party asset amount ∷ [])
            ≡ done (in_service state₂))
        × SameFunds state₂ state
        × (known state₂ txid ≡ none)
  reversal_undoes_credit state state₁ ts ts₂ txid party asset amount v t f =
      let x = Step-Effect v t in
      let stamp : ts₂ + state₁.processed_transactions.ttl < u64_mod = rw (x.known.same_ttl) f in
      let fits : Fits state₁ txid (reverse_credit party asset amount) =
        ground (arith, x.available asset, beq_refl asset) in
      let accept = reverse_credit_accepted state₁ ts₂ ts txid party asset amount x.known.inserted in
      let (state₂, e, y) =
        handle_transaction-Applies state₁ ts₂ txid (reverse_credit party asset amount) x.valid stamp
          fits accept in
      (
        state₂,
        accept,
        e,
        record {
          balances = λ a. omega (arith, x.available a, y.available a);
          locks = λ id. y.locks id ∙ x.locks id;
        },
        y.known.shows txid ∙ rw (beq_refl txid) refl,
      )

  -- A reversal is not held to the transaction that it names: right after a deposit that a valid account
  -- has accepted, a reversed debit with the deposit's id is accepted for any asset and any amount that
  -- fits, if its timestamp stays in `u64`, and what the account owns of that asset grows by it.
  pub reverse_debit_mints :
      (state state₁ : BankAccountState) (ts ts₂ : ℕ) (txid : ByteArray32)
      (party asset other : String) (amount gain : ℕ)
      → IsValid state
      → Step state ts txid (deposit asset amount) state₁
      → ts₂ + state.processed_transactions.ttl < u64_mod
      → balance other state₁ + gain < u64_mod
      → (state₂ : BankAccountState) × Step state₁ ts₂ txid (reverse_debit party other gain) state₂
        × (wealth_of state₂ other ≡ wealth_of state₁ other + gain)
  reverse_debit_mints state state₁ ts ts₂ txid party asset other amount gain v t f room =
      let x = Step-Effect v t in
      let stamp : ts₂ + state₁.processed_transactions.ttl < u64_mod = rw (x.known.same_ttl) f in
      let accept = reverse_debit_accepted state₁ ts₂ ts txid party other gain x.known.inserted in
      let (state₂, e, y) =
        handle_transaction-Applies state₁ ts₂ txid (reverse_debit party other gain) x.valid stamp
          room accept in
      (
        state₂,
        record {
          events = Build.debit_reversed txid ts party other gain ∷ [];
          stamp_fits = stamp;
          fits = room;
          accepted = accept;
          applied = e;
        },
        ground (arith, y.available other, y.held other, beq_refl other),
      )
