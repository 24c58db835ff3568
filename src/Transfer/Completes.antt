-- ===== src/Transfer/Completes.antt =====
-- `Continue` of a transfer, while nothing goes wrong around the accounts.
use cqrs_account.Prelude.{ℕ, ◌+◌, ◌≤◌, ◌<◌, ◌≡◌, ◌≢◌, refl, ◌∙◌, String, [], ◌∷◌, arith, none}
use cqrs_account.Outcome.{ok, u64_mod}
use cqrs_account.Types.{Platform, ByteArray32}
use cqrs_account.Account.Commands.{TransactionCommand}
use cqrs_account.Account.Commands.Build as Command
use cqrs_account.Account.Events.Build as Event
use cqrs_account.Account.State.{Account, BankAccountState, balance}
use cqrs_account.Account.Handle.{handle_transaction}
use cqrs_account.Account.Replay.{known}
use cqrs_account.Service
use cqrs_account.Service.{
  AccountService, succeeded, Flow, returned, unwound, Undo, TransactionGuard, Runtime,
}
use cqrs_account.Service.Laws.{IsEventSourced}
use cqrs_account.Service.Available.{IsAvailable, executed_succeeds}
use cqrs_account.Transfer.Defs.{Config, TransferEvent}
use cqrs_account.Transfer.Handle.{guarded, debit, credit, with_credit, handle}
use cqrs_account.Transfer.Laws.{IsReady, result, debited, credited}
use cqrs_account.Transfer.Steps.{debit_ok}

debit_accepted :
    ⦃platform : Platform⦄ (s : BankAccountState) (txid : ByteArray32) (party asset : String)
    (amount : ℕ)
    → known s txid ≡ none
    → amount ≤ balance asset s
    → handle_transaction s 0 txid (TransactionCommand.debit party asset amount)
      ≡ ok (Event.debited txid 0 party asset amount ∷ [])
unfolding handle_transaction
debit_accepted s txid party asset amount new funded = ground arith

credit_accepted :
    ⦃platform : Platform⦄ (s : BankAccountState) (txid : ByteArray32) (party asset : String)
    (amount : ℕ)
    → known s txid ≡ none
    → handle_transaction s 0 txid (TransactionCommand.credit party asset amount)
      ≡ ok (Event.credited txid 0 party asset amount ∷ [])
unfolding handle_transaction
credit_accepted s txid party asset amount new = ground arith

both_return :
    (service : AccountService) (config : Config) (rt : Runtime service) (g g' : TransactionGuard)
    → (debited service config rt).0 ≡ returned (ok g)
    → (credited service config rt).0 ≡ returned (ok g')
    → result service config rt ≡ returned (ok (TransferEvent.finished 0 ∷ []))
unfolding handle with_credit
both_return service config rt g g' h k = ground arith

module _ ⦃platform : Platform⦄ (service : AccountService) (load : String → service.World → Account)
    (es : IsEventSourced service load) (available : IsAvailable service load) (config : Config)
    (rt : Runtime service) where
  -- A transfer between two different accounts, both valid, in service and new to its id, of which the
  -- one has the amount and the other has room for it, returns its event, while the account service is
  -- available.
  pub transfer_completes :
      (s t : BankAccountState)
      → IsReady service load es config rt config.from_account s
      → IsReady service load es config rt config.to_account t
      → config.from_account ≢ config.to_account
      → config.amount ≤ balance config.asset s
      → balance config.asset t + config.amount < u64_mod
      → result service config rt ≡ returned (ok (TransferEvent.finished 0 ∷ []))
  unfolding debit credit guarded Command.debit Command.credit
  transfer_completes s t r q ne funded room =
      let id = config.transfer_id in
      let paid =
        executed_succeeds service load available config.from_account rt.world s 0 id
          (TransactionCommand.debit config.to_account config.asset config.amount) _ r.state r.valid
          r.fits tt
          (debit_accepted s id config.to_account config.asset config.amount r.new funded) in
      let debit_undo : Undo = record {
        account = config.from_account;
        command = Command.reverse_debit id 0 config.to_account config.asset config.amount;
      } in
      let first : (debited service config rt).0 ≡ returned (ok (Service.new debit_undo)) =
        rw (paid, guarded) refl in
      let (s', ls, xs, qs, others, gs) =
        debit_ok service load es id config.from_account config.to_account config.asset config.amount
          rt s r.valid r.fits r.new (Service.new debit_undo) r.state first in
      let rt₁ = (debited service config rt).1 in
      let received =
        executed_succeeds service load available config.to_account rt₁.world t 0 id
          (TransactionCommand.credit config.from_account config.asset config.amount) _
          (others config.to_account ne ∙ q.state) q.valid q.fits room
          (credit_accepted t id config.from_account config.asset config.amount q.new) in
      let credit_undo : Undo = record {
        account = config.to_account;
        command = Command.reverse_credit id 0 config.from_account config.asset config.amount;
      } in
      both_return service config rt (Service.new debit_undo) (Service.new credit_undo) first
        (rw (received, guarded) refl)
