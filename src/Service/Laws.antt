-- ===== src/Service/Laws.antt =====
-- What `execute` is documented to do: it loads the aggregate, calls `handle`, commits the events and
-- then runs the views on them, or it leaves everything as it was.
use cqrs_account.Prelude.{◌≡◌, ◌≢◌, String, List, ◌⊎◌}
use cqrs_account.Outcome.{Panic, done, panic, ok, err}
use cqrs_account.Types.{Platform}
use cqrs_account.Account.Commands.{AccountCommand}
use cqrs_account.Account.Events.{AccountEvent, AccountError}
use cqrs_account.Account.State.{Account}
use cqrs_account.Account.Handle.{handle}
use cqrs_account.Account.Apply.{apply_all}
use cqrs_account.Service.{
  AccountService, FrameworkError, user_error, framework_error, succeeded, failed, panicked,
}

module _ ⦃platform : Platform⦄ where
  -- The account after its events are in the store: it is their replay, where `apply` does not panic.
  pub data Replays (before after : Account) (events : List AccountEvent) : Type 0 where
    applied : apply_all before events ≡ done after → Replays before after events
    stuck : (p : Panic) → apply_all before events ≡ panic p → Replays before after events

module _ ⦃platform : Platform⦄ (service : AccountService) where
  -- A command whose events have been committed.
  abbrev pub Committed :
      (String → service.World → Account) → String → AccountCommand → service.World → Type 0
  Committed load id c w =
      (events : List AccountEvent) × (handle (load id w) c ≡ ok events)
      × Replays (load id w) (load id (service.execute id c w).1) events

  -- `load` is the account that the stored events of an id replay to. A panic of `handle` comes before
  -- the commit, and one of a view after it.
  pub record IsEventSourced (load : String → service.World → Account) : Type 0 where
    pub on_success :
        (id : String) (c : AccountCommand) (w : service.World)
        → (service.execute id c w).0 ≡ succeeded
        → Committed load id c w
    pub on_user_error :
        (id : String) (c : AccountCommand) (w : service.World) (e : AccountError)
        → (service.execute id c w).0 ≡ failed (user_error e)
        → (handle (load id w) c ≡ err e) × (load id (service.execute id c w).1 ≡ load id w)
    pub on_framework_error :
        (id : String) (c : AccountCommand) (w : service.World) (e : FrameworkError)
        → (service.execute id c w).0 ≡ failed (framework_error e)
        → load id (service.execute id c w).1 ≡ load id w
    pub on_panic :
        (id : String) (c : AccountCommand) (w : service.World)
        → (service.execute id c w).0 ≡ panicked
        → (load id (service.execute id c w).1 ≡ load id w) ⊎ Committed load id c w
    pub elsewhere :
        (id other : String) (c : AccountCommand) (w : service.World)
        → id ≢ other
        → load other (service.execute id c w).1 ≡ load other w
