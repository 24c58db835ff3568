-- ===== src/Account/Drained.antt =====
-- `Close` against assets that have once been held.
use cqrs_account.Prelude.{beq_refl, ◌∙◌, ℕ, ◌≡◌, String, true, false, arith, string_eq}
use cqrs_account.Outcome.{err}
use cqrs_account.BTreeMap
use cqrs_account.BTreeMap.{BTreeMap}
use cqrs_account.Types.{Platform, ByteArray32}
use cqrs_account.Account.Commands.{AccountCommand, TransactionCommand, close, deposit}
use cqrs_account.Account.Events.{account_not_empty}
use cqrs_account.Account.State.{BankAccountState, in_service, disabled, is_empty}
use cqrs_account.Account.Handle.{handle, handle_lifecycle}
use cqrs_account.Account.Replay.{Step, Step-Effect}
use cqrs_account.Account.State.Valid.{IsValid}

is_empty-of_contains_key :
    (a : String) (state : BankAccountState)
    → BTreeMap.contains_key a state.assets ≡ true
    → is_empty state ≡ false
unfolding is_empty BTreeMap.is_empty BTreeMap.contains_key BTreeMap.get
is_empty-of_contains_key a state h = ground arith

module _ ⦃platform : Platform⦄ where
  -- Accepted transaction commands, one after the other.
  pub data Steps (state : BankAccountState) : BankAccountState → Type 0 where
    start : Steps state state
    next :
        {state₁ : BankAccountState} (state₂ : BankAccountState) (ts : ℕ) (txid : ByteArray32)
        (c : TransactionCommand)
        → Steps state state₁
        → Step state₁ ts txid c state₂
        → Steps state state₂

  Steps-contains_key :
      (a : String) {state state' : BankAccountState}
      → IsValid state
      → BTreeMap.contains_key a state.assets ≡ true
      → Steps state state'
      → IsValid state' × (BTreeMap.contains_key a state'.assets ≡ true)
  Steps-contains_key a v h start = (v, h)
  Steps-contains_key a v h (next {state₁ = state₁} state₂ ts txid c past t) =
      let (v₁, h₁) = Steps-contains_key a v h past in
      let x = Step-Effect v₁ t in (x.valid, ground (arith, x.listed a))

  -- Once a valid account has accepted a deposit of an asset, `Close` is refused after any further
  -- accepted transactions, also when they have drained every balance and freed every lock: an entry is never removed.
  pub deposited_never_closes :
      (state state₁ state₂ : BankAccountState) (ts : ℕ) (txid : ByteArray32) (asset : String)
      (amount : ℕ)
      → IsValid state
      → Step state ts txid (deposit asset amount) state₁
      → Steps state₁ state₂
      → (handle (in_service state₂) (AccountCommand.lifecycle close) ≡ err account_not_empty)
        × (handle (disabled state₂) (AccountCommand.lifecycle close) ≡ err account_not_empty)
  unfolding handle handle_lifecycle
  deposited_never_closes state state₁ state₂ ts txid asset amount v t past =
      let x = Step-Effect v t in
      let listed : BTreeMap.contains_key asset state₁.assets ≡ true =
        x.listed asset ∙ ground (arith, beq_refl asset) in
      let full =
        is_empty-of_contains_key asset state₂ (Steps-contains_key asset x.valid listed past).1 in
      (ground arith, ground arith)
