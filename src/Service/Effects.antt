-- ===== src/Service/Effects.antt =====
-- What a transaction command does through the account service, account by account.
use cqrs_account.Prelude.{ℕ, ◌+◌, ◌<◌, ◌≡◌, refl, String, arith, inl, inr}
use cqrs_account.Outcome.{ok, err, u64_mod}
use cqrs_account.Types.{Platform, ByteArray32}
use cqrs_account.Account.Commands.{AccountCommand, TransactionCommand}
use cqrs_account.Account.Events.{AccountError}
use cqrs_account.Account.State.{Account, BankAccountState, in_service}
use cqrs_account.Account.State.Valid.{IsValid}
use cqrs_account.Account.Handle.{handle, handle_transaction}
use cqrs_account.Account.Effect.{Effect, Fits}
use cqrs_account.Account.Effect.Accepted.{handle_transaction-Applies}
use cqrs_account.Service.{
  AccountService, user_error, framework_error, FrameworkError, Executed, succeeded, failed,
  panicked,
}
use cqrs_account.Service.Laws.{IsEventSourced, Committed, applied, stuck}

-- How an execution ends, with the equation.
pub data Ending (r : Executed) : Type 0 where
  succeeds : r ≡ succeeded → Ending r
  refuses : (e : AccountError) → r ≡ failed (user_error e) → Ending r
  breaks : (e : FrameworkError) → r ≡ failed (framework_error e) → Ending r
  panics : r ≡ panicked → Ending r

pub ending : (r : Executed) → Ending r
ending succeeded = succeeds refl
ending (failed (user_error e)) = refuses e refl
ending (failed (framework_error e)) = breaks e refl
ending panicked = panics refl

module _ ⦃platform : Platform⦄ where
  module _ (service : AccountService) (load : String → service.World → Account)
      (es : IsEventSourced service load) where
    -- A transaction whose events have been committed has had its effect on the account.
    pub Committed-Effect :
        (id : String) (w : service.World) (s : BankAccountState) (ts : ℕ) (txid : ByteArray32)
        (c : TransactionCommand)
        → load id w ≡ in_service s
        → IsValid s
        → ts + s.processed_transactions.ttl < u64_mod
        → Fits s txid c
        → Committed service load id (AccountCommand.transaction ts txid c) w
        → (s' : BankAccountState) × (load id
              (service.execute id (AccountCommand.transaction ts txid c) w).1
            ≡ in_service s')
          × Effect s ts txid c s'
    unfolding handle
    Committed-Effect id w s ts txid c l v f fits (events, h, e) =
        let accepted : handle_transaction s ts txid c ≡ ok events = rw l at h in
        let (s', e', x) = handle_transaction-Applies s ts txid c v f fits accepted in
        (
          s',
          elim e [
            | applied k ↦ ground (arith, k, l, e')
            | stuck p k ↦ absurd (ground (arith, k, l, e'))
          ],
          x,
        )

    pub executed-Effect :
        (id : String) (w : service.World) (s : BankAccountState) (ts : ℕ) (txid : ByteArray32)
        (c : TransactionCommand)
        → load id w ≡ in_service s
        → IsValid s
        → ts + s.processed_transactions.ttl < u64_mod
        → Fits s txid c
        → (service.execute id (AccountCommand.transaction ts txid c) w).0 ≡ succeeded
        → (s' : BankAccountState) × (load id
              (service.execute id (AccountCommand.transaction ts txid c) w).1
            ≡ in_service s')
          × Effect s ts txid c s'
    executed-Effect id w s ts txid c l v f fits r =
        Committed-Effect id w s ts txid c l v f fits
          (es.on_success id (AccountCommand.transaction ts txid c) w r)

    -- A user error is what `handle` says of the account.
    pub refused :
        (id : String) (w : service.World) (s : BankAccountState) (ts : ℕ) (txid : ByteArray32)
        (c : TransactionCommand) (e : AccountError)
        → load id w ≡ in_service s
        → (service.execute id (AccountCommand.transaction ts txid c) w).0 ≡ failed (user_error e)
        → handle_transaction s ts txid c ≡ err e
    unfolding handle
    refused id w s ts txid c e l r =
        rw l at (es.on_user_error id (AccountCommand.transaction ts txid c) w e r).0

    -- A command that `handle` refuses leaves the account as it is, however `execute` ends.
    pub refused_unchanged :
        (id : String) (w : service.World) (c : AccountCommand) (e : AccountError)
        → handle (load id w) c ≡ err e
        → load id (service.execute id c w).1 ≡ load id w
    refused_unchanged id w c e h = elim (ending (service.execute id c w).0) [
      | succeeds r ↦ let (events, h', e') = es.on_success id c w r in absurd (cc)
      | refuses e' r ↦ (es.on_user_error id c w e' r).1
      | breaks e' r ↦ es.on_framework_error id c w e' r
      | panics r ↦ elim (es.on_panic id c w r) [
        | inl same ↦ same
        | inr (events, h', e') ↦ absurd (cc)
      ]
    ]
