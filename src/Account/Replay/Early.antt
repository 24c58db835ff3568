-- ===== src/Account/Replay/Early.antt =====
-- An id whose entry of the queue gets a new timestamp.
use cqrs_account.Prelude.{
  ℕ, ◌+◌, ◌≤◌, ◌<◌, ◌≡◌, true, none, [], ◌∷◌, ◌++◌, arith, string_eq, String,
}
use cqrs_account.Outcome.{ok}
use cqrs_account.Types.{Platform, ByteArray32, byte_array32_eq}
use cqrs_account.Account.Commands.{TransactionCommand}
use cqrs_account.Account.Events.Build as Event
use cqrs_account.Account.Processed.Sync.{Queue}
use cqrs_account.Account.State.{BankAccountState}
use cqrs_account.Account.State.Valid.{IsValid}
use cqrs_account.Account.Handle.{handle_transaction}
use cqrs_account.Account.Replay.{records_id, known, Step, Step-Effect, recorded-Inserted}

module _ ⦃platform : Platform⦄ where
  -- In a valid account the oldest entry of the queue is that of `id`, and has not expired at the time
  -- `ts₁`. Two commands record their ids at `ts₁` and then at `ts₂`, and the sum of `ts₁` with the time
  -- to live is before `ts₂`. Then `id` is forgotten, however late its own timestamp is, and a
  -- deposit with it is accepted.
  pub restamped_is_forgotten :
      (state state₁ state₂ : BankAccountState) (id txid₁ txid₂ : ByteArray32) (s ts₁ ts₂ : ℕ)
      (c₁ c₂ : TransactionCommand) (rest : Queue)
      → IsValid state
      → state.processed_transactions.timeseries ≡ (s, id) ∷ rest
      → Step state ts₁ txid₁ c₁ state₁
      → records_id c₁ ≡ true
      → Step state₁ ts₂ txid₂ c₂ state₂
      → records_id c₂ ≡ true
      → ts₁ ≤ s + state.processed_transactions.ttl
      → ts₁ + state.processed_transactions.ttl < ts₂
      → (ts : ℕ) (asset : String) (amount : ℕ)
      → handle_transaction state₂ ts id (TransactionCommand.deposit asset amount)
        ≡ ok (Event.deposited id ts asset amount ∷ [])
  unfolding handle_transaction
  restamped_is_forgotten state state₁ state₂ id txid₁ txid₂ s ts₁ ts₂ c₁ c₂ rest v q t₁ r₁ t₂ r₂ n m
        ts asset amount =
      let p = state.processed_transactions in
      let p₁ = state₁.processed_transactions in
      let p₂ = state₂.processed_transactions in
      let x₁ = Step-Effect v t₁ in
      let i₁ = recorded-Inserted c₁ txid₁ ts₁ p p₁ r₁ x₁.known in
      let i₂ = recorded-Inserted c₂ txid₂ ts₂ p₁ p₂ r₂ (Step-Effect x₁.valid t₂).known in
      let q₁ = i₁.restamps id s rest q n in
      let gone : known state₂ id ≡ none =
        i₂.forgets id ts₁ (rest ++ (ts₁, txid₁) ∷ []) q₁ (omega (arith, i₁.same_ttl, m)) in
      ground (arith, gone)
