-- ===== src/Service.antt =====
-- The account service, `Arc<PostgresCqrs<Account>>`: the framework's `execute`, which is not part of
-- the repository, as a parameter with what its documentation says; and `src/util/transaction_guard.rs`.
pub mod Laws
pub mod Effects
pub mod Available
use cqrs_account.Prelude.{ℕ, String, Option, none, some, List, [], ◌∷◌, ◌++◌}
use cqrs_account.Outcome.{Result, ok, err}
use cqrs_account.Account.Commands.{AccountCommand}
use cqrs_account.Account.Events.{AccountError}

-- The framework's errors; the program tells only `UserError` apart.
pub data FrameworkError : Type 0 where
  aggregate_conflict database_connection_error deserialization_error unexpected_error :
      FrameworkError

pub data AggregateError : Type 0 where
  user_error : AccountError → AggregateError
  framework_error : FrameworkError → AggregateError

-- How a call of `execute` ends. A panic in `apply` unwinds through the caller.
pub data Executed : Type 0 where
  succeeded : Executed
  failed : AggregateError → Executed
  panicked : Executed

-- The event store is the `World`, and `execute` runs a command on the aggregate with an id.
pub record AccountService : Type 1 where
  pub World : Type 0
  pub execute : String → AccountCommand → World → Executed × World

-- A future that undoes a command: it runs another command on an account, and drops its result.
pub record Undo : Type 0 where
  pub account : String
  pub command : AccountCommand

-- How a piece of async code ends.
pub data Flow (A : Type 0) : Type 0 where
  returned : A → Flow A
  unwound : Flow A

-- `TransactionGuard`
pub record TransactionGuard : Type 0 where
  pub redo : Option Undo

-- `TransactionGuard::new`
unfoldable pub new : Undo → TransactionGuard
new redo = record { redo = some redo }

-- `Drop::drop`: what is left in the guard is spawned, behind what has been spawned before.
unfoldable pub drop : TransactionGuard → List Undo → List Undo
drop guard spawned = elim guard.redo [ some redo ↦ spawned ++ redo ∷ [] | none ↦ spawned ]

-- `TransactionGuard::commit`: the guard is dropped with nothing left in it.
unfoldable pub commit : TransactionGuard → List Undo → List Undo
unfolding drop
commit guard spawned = drop (record guard { redo = none }) spawned

module _ (service : AccountService) where
  -- The store, and the futures that have been spawned and not yet run.
  pub record Runtime : Type 0 where
    pub world : service.World
    pub spawned : List Undo

  -- `undo.await`: its result is only logged.
  unfoldable pub run_undo : Undo → service.World → Flow (Unit {0}) × service.World
  run_undo undo world =
      let (r, world') = service.execute undo.account undo.command world in
      (elim r [ succeeded ↦ returned tt | failed _ ↦ returned tt | panicked ↦ unwound ], world')

  -- The spawned futures run one after the other; each is a task of its own, so that a panic in one
  -- does not reach the next.
  unfoldable pub run_spawned : List Undo → service.World → service.World
  unfolding run_undo
  run_spawned [] world = world
  run_spawned (undo ∷ rest) world = run_spawned rest (run_undo undo world).1
