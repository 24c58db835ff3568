-- ===== src/Http/Tests.antt =====
-- The theorems about requests at concrete inputs: the accounts and their views in memory.
use cqrs_account.Prelude.{String, string_eq, ◌==◌, if◌then◌else◌, Option, none, some, get_or, List}
use cqrs_account.Outcome.{Outcome, done, panic, Result, ok, err}
use cqrs_account.BTreeMap
use cqrs_account.TestPlatform.{test_platform, id_of}
use cqrs_account.TestService.{Bank, bank_service-IsEventSourced, store, decide}
use cqrs_account.Account.Commands.{AccountCommand, TransactionCommand}
use cqrs_account.Account.Events.Build as Event
use cqrs_account.Account.Events.{AccountEvent, AccountError}
use cqrs_account.Account.State.{Account, uninitialized, in_service}
use cqrs_account.Account.Handle.{handle}
use cqrs_account.Account.View.{AccountView, update_all}
use cqrs_account.Account.View
use cqrs_account.Account.Tests.Runs.{funded}
use cqrs_account.Account.Tests.Views.{view_funded}
use cqrs_account.Transfer.Defs.{TransferCommand}
use cqrs_account.Transfer.View.{TransferView}
use cqrs_account.Order.Defs.{OrderCommand}
use cqrs_account.Order.View.{OrderView}
use cqrs_account.Service.{AggregateError, Executed, succeeded, failed, panicked, returned}
use cqrs_account.Service.Laws.{IsEventSourced}
use cqrs_account.Http.{Metadata, Request, readable, Cqrs, ViewRepository, ApplicationState, Parsers}
use cqrs_account.Http.Laws.{service, Answer, post-Answer}

record Site : Type 0 where
  bank : Bank
  views : String → Option AccountView

abbrev refreshed : Option AccountView → Outcome AccountView → Option AccountView
refreshed old (done view) = some view
refreshed old (panic p) = old

abbrev project :
    String
    → Executed
    → Result (List AccountEvent) AccountError
    → (String → Option AccountView)
    → String
    → Option AccountView
project id succeeded (ok events) views = λ other.
    if id == other
    then refreshed (views id) (update_all (get_or (views id) View.default) events)
    else views other
project id succeeded (err e) views = views
project id (failed e) r views = views
project id panicked r views = views

abbrev execute : String → AccountCommand → Metadata → Site → Executed × Site
execute id c metadata site =
    let (r, bank) = decide id (handle (site.bank id) c) site.bank in
    (r, record { bank = bank; views = project id r (handle (site.bank id) c) site.views })

abbrev load : String → Site → Account
load id site = site.bank id

abbrev refusing : (Command : Type 0) → Cqrs Site Command
refusing Command = record {
  Error = String;
  to_string = λ e. e;
  execute_with_metadata = λ id c metadata site. (returned (err "not here"), site);
}

abbrev no_views : (View : Type 0) → ViewRepository Site View
no_views View = record { Error = String; to_string = λ e. e; load = λ id site. ok none }

abbrev others : ApplicationState Site
others = record {
  account_cqrs = refusing AccountCommand;
  account_query = record {
    Error = String;
    to_string = λ e. e;
    load = λ id site. ok (site.views id);
  };
  transfer_cqrs = refusing TransferCommand;
  transfer_query = no_views TransferView;
  order_cqrs = refusing OrderCommand;
  order_query = no_views OrderView;
}

abbrev parsers : Parsers AccountCommand
parsers = record {
  account_command = λ b. some b;
  transfer_command = λ b. none;
  order_command = λ b. none;
}

abbrev message : AggregateError → String
message e = "refused"

site-IsEventSourced :
    (metadata : Metadata) → IsEventSourced (service Site execute load message others metadata) load
site-IsEventSourced metadata = record {
  on_success = λ id c site r. bank_service-IsEventSourced.on_success id c site.bank r;
  on_user_error = λ id c site e r. bank_service-IsEventSourced.on_user_error id c site.bank e r;
  on_framework_error =
      λ id c site e r. bank_service-IsEventSourced.on_framework_error id c site.bank e r;
  on_panic = λ id c site r. bank_service-IsEventSourced.on_panic id c site.bank r;
  elsewhere = λ id other c site ne. bank_service-IsEventSourced.elsewhere id other c site.bank ne;
}

abbrev site : Site
site = record {
  bank = store "alice" (in_service funded) (λ id. uninitialized);
  views = λ id. if "alice" == id then some view_funded else none;
}

abbrev request : Request AccountCommand
request = record {
  uri = "/account/alice";
  user_agent = some (readable "curl");
  body = some (AccountCommand.transaction 6 (id_of 3) (TransactionCommand.lock_funds "BTC" 400));
}

post-Answer_example :
    Answer Site execute load message others site-IsEventSourced parsers "12:00" "alice" request site
post-Answer_example =
    post-Answer Site execute load message others site-IsEventSourced parsers "12:00" "alice" request
      site
