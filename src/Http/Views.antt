-- ===== src/Http/Views.antt =====
-- What a query of an account shows after a command that it has accepted.
use cqrs_account.Prelude.{ℕ, ◌≡◌, String, some, List}
use cqrs_account.Outcome.{done, ok}
use cqrs_account.Types.{Platform, ByteArray32}
use cqrs_account.Account.Commands.{AccountCommand, TransactionCommand}
use cqrs_account.Account.Events.{AccountEvent}
use cqrs_account.Account.State.{Account, BankAccountState, in_service}
use cqrs_account.Account.Handle.{handle}
use cqrs_account.Account.Effect.{Effect}
use cqrs_account.Account.View.{AccountView, update_all}
use cqrs_account.Account.View.Mirror.{Mirrors}
use cqrs_account.Service.{AggregateError, Executed, succeeded, returned}
use cqrs_account.Service.Laws.{IsEventSourced}
use cqrs_account.Http.{
  Metadata, success, account_json, Request, ViewRepository, ApplicationState, get, account, Parsers,
  serve,
}
use cqrs_account.Http.Laws.{service, state, served}

module _ ⦃platform : Platform⦄ (World : Type 0)
    (execute : String → AccountCommand → Metadata → World → Executed × World)
    (load : String → World → Account) where
  -- What the framework documents of the view of an account, where its repository does not fail: the
  -- events that are committed update it, before `execute` returns.
  pub record IsProjected (query : ViewRepository World AccountView) : Type 0 where
    pub on_commit :
        (id : String) (c : AccountCommand) (metadata : Metadata) (w : World)
        (view view' : AccountView) (events : List AccountEvent)
        → query.load id w ≡ ok (some view)
        → (execute id c metadata w).0 ≡ succeeded
        → handle (load id w) c ≡ ok events
        → update_all view events ≡ done view'
        → query.load id (execute id c metadata w).1 ≡ ok (some view')

  module _ (to_string : AggregateError → String) (others : ApplicationState World)
      (es : (metadata : Metadata)
        → IsEventSourced (service World execute load to_string others metadata) load)
      (projected : IsProjected others.account_query) {Bytes : Type 0} (parsers : Parsers Bytes)
      (now : String) (id : String) (req : Request Bytes) (w : World) where
    abbrev pub after : World
    after = (served World execute load to_string others es parsers now id req w).1

    -- What a later query finds: the next state of the account has the effect of the command, and the
    -- view in the response mirrors it.
    pub record ShowsEffect (s : BankAccountState) (ts : ℕ) (txid : ByteArray32)
        (c : TransactionCommand) (later : String) (req' : Request Bytes) : Type 0 where
      pub state' : BankAccountState
      pub loaded : load id after ≡ in_service state'
      pub effect : Effect s ts txid c state'
      pub view : AccountView
      pub response :
          serve World
            (state World execute load to_string others)
            parsers
            later
            get
            (account id)
            req'
            after
          ≡ (returned (record { status = success; body = account_json view }), after)
      pub mirrors : Mirrors view state'
