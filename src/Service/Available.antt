-- ===== src/Service/Available.antt =====
-- What `execute` does while nothing goes wrong around it.
use cqrs_account.Prelude.{ℕ, ◌+◌, ◌<◌, ◌≡◌, String, List}
use cqrs_account.Outcome.{done, ok, u64_mod}
use cqrs_account.Types.{Platform, ByteArray32}
use cqrs_account.Account.Commands.{AccountCommand, TransactionCommand}
use cqrs_account.Account.Events.{AccountEvent}
use cqrs_account.Account.State.{Account, BankAccountState, in_service}
use cqrs_account.Account.State.Valid.{IsValid}
use cqrs_account.Account.Handle.{handle, handle_transaction}
use cqrs_account.Account.Apply.{apply_all}
use cqrs_account.Account.Effect.{Fits}
use cqrs_account.Account.Effect.Accepted.{handle_transaction-Applies}
use cqrs_account.Service.{AccountService, succeeded}

module _ ⦃platform : Platform⦄ (service : AccountService)
    (load : String → service.World → Account) where
  -- The database answers, and no other command on the account comes between: a command that the account
  -- accepts and whose events apply is reported as done.
  pub record IsAvailable : Type 0 where
    pub on_accepted :
        (id : String) (c : AccountCommand) (w : service.World) (events : List AccountEvent)
        (account : Account)
        → handle (load id w) c ≡ ok events
        → apply_all (load id w) events ≡ done account
        → (service.execute id c w).0 ≡ succeeded

  pub executed_succeeds :
      (available : IsAvailable) (id : String) (w : service.World) (s : BankAccountState) (ts : ℕ)
      (txid : ByteArray32) (c : TransactionCommand) (events : List AccountEvent)
      → load id w ≡ in_service s
      → IsValid s
      → ts + s.processed_transactions.ttl < u64_mod
      → Fits s txid c
      → handle_transaction s ts txid c ≡ ok events
      → (service.execute id (AccountCommand.transaction ts txid c) w).0 ≡ succeeded
  unfolding handle
  executed_succeeds available id w s ts txid c events l v f fits h =
      let (s', e, x) = handle_transaction-Applies s ts txid c v f fits h in
      available.on_accepted id (AccountCommand.transaction ts txid c) w events (in_service s')
        (rw l h) (rw l e)
