-- ===== src/Http.antt =====
-- The HTTP interface: `src/command_extractor.rs`, `src/route_handler.rs`, the routes of `src/main.rs`
-- and the state of `src/state.rs`. The framework, the view repositories, the clock and `serde_json` are
-- parameters.
pub mod Laws
pub mod Views
mod Tests
use cqrs_account.Prelude.{String, string_eq, Option, none, some, List, []}
use cqrs_account.Outcome.{Result, ok, err}
use cqrs_account.BTreeMap
use cqrs_account.BTreeMap.{BTreeMap}
use cqrs_account.Account.Commands.{AccountCommand}
use cqrs_account.Account.View.{AccountView}
use cqrs_account.Transfer.Defs.{TransferCommand}
use cqrs_account.Transfer.View.{TransferView}
use cqrs_account.Order.Defs.{OrderCommand}
use cqrs_account.Order.View.{OrderView}
use cqrs_account.Service.{Flow, returned, unwound}

-- `HashMap<String, String>`, by its entries.
abbrev pub Metadata : Type 0
Metadata = BTreeMap String String

-- `CommandExtractor`
pub record CommandExtractor (Command : Type 0) : Type 0 where
  pub metadata : Metadata
  pub command : Command

pub data StatusCode : Type 0 where
  success no_content bad_request not_found internal_server_error : StatusCode

pub data Body : Type 0 where
  empty : Body
  text : String → Body
  account_json : AccountView → Body
  transfer_json : TransferView → Body
  order_json : OrderView → Body

pub record Response : Type 0 where
  pub status : StatusCode
  pub body : Body

-- `to_str` of a header fails where its bytes are no visible ASCII.
pub data HeaderValue : Type 0 where
  readable : String → HeaderValue
  opaque : HeaderValue

-- A request, as the extractor reads it; its body may fail to arrive.
pub record Request (Bytes : Type 0) : Type 0 where
  pub uri : String
  pub user_agent : Option HeaderValue
  pub body : Option Bytes

pub data CommandExtractionError : Type 0 where
  command_extraction_error : CommandExtractionError

-- `CommandExtractionError::into_response`
abbrev pub into_response : CommandExtractionError → Response
into_response e = record { status = bad_request; body = text "command could not be read" }

unfoldable pub with_user_agent : Option HeaderValue → Metadata → Metadata
with_user_agent (some (readable value)) metadata = BTreeMap.insert "User-Agent" value metadata
with_user_agent (some opaque) metadata = metadata
with_user_agent none metadata = metadata

-- The metadata of a command that is extracted at the time `now`.
unfoldable pub metadata_of : {Bytes : Type 0} → String → Request Bytes → Metadata
unfolding with_user_agent
metadata_of now req =
    with_user_agent req.user_agent (BTreeMap.insert "uri" req.uri (BTreeMap.insert "time" now []))

-- `CommandExtractor::from_request`, where `from_slice` is `serde_json::from_slice`.
unfoldable pub from_request :
    {Bytes Command : Type 0}
    → String
    → (Bytes → Option Command)
    → Request Bytes
    → Result (CommandExtractor Command) CommandExtractionError
unfolding metadata_of
from_request now from_slice req = elim req.body [
  | none ↦ err command_extraction_error
  | some body ↦ elim (from_slice body) [
    | none ↦ err command_extraction_error
    | some command ↦ ok (record { metadata = metadata_of now req; command = command })
  ]
]

-- `PostgresCqrs` of an aggregate with these commands.
pub record Cqrs (World Command : Type 0) : Type 1 where
  pub Error : Type 0
  pub to_string : Error → String
  pub execute_with_metadata :
      String → Command → Metadata → World → Flow (Result (Unit {0}) Error) × World

-- `PostgresViewRepository` of a view
pub record ViewRepository (World View : Type 0) : Type 1 where
  pub Error : Type 0
  pub to_string : Error → String
  pub load : String → World → Result (Option View) Error

-- The `match` of a query handler on the loaded view.
unfoldable pub respond_view :
    {View E : Type 0} → (View → Body) → (E → String) → Result (Option View) E → Response
respond_view json to_string (err e) = record {
  status = internal_server_error;
  body = text (to_string e);
}
respond_view json to_string (ok none) = record { status = not_found; body = empty }
respond_view json to_string (ok (some view)) = record { status = success; body = json view }

-- The `match` of a command handler on the result of `execute_with_metadata`.
unfoldable pub respond_executed :
    {E : Type 0} → (E → String) → Flow (Result (Unit {0}) E) → Flow Response
respond_executed to_string (returned (ok _)) =
    returned (record { status = no_content; body = empty })
respond_executed to_string (returned (err e)) =
    returned (record { status = bad_request; body = text (to_string e) })
respond_executed to_string unwound = unwound

module _ (World : Type 0) where
  -- The database is the `World`, which all parts share.
  pub record ApplicationState : Type 1 where
    pub account_cqrs : Cqrs World AccountCommand
    pub account_query : ViewRepository World AccountView
    pub transfer_cqrs : Cqrs World TransferCommand
    pub transfer_query : ViewRepository World TransferView
    pub order_cqrs : Cqrs World OrderCommand
    pub order_query : ViewRepository World OrderView

  module _ (state : ApplicationState) where
    unfoldable pub account_query_handler : String → World → Response
    unfolding respond_view
    account_query_handler account_id w =
        respond_view account_json state.account_query.to_string
          (state.account_query.load account_id w)

    unfoldable pub transfer_query_handler : String → World → Response
    unfolding respond_view
    transfer_query_handler transfer_id w =
        respond_view transfer_json state.transfer_query.to_string
          (state.transfer_query.load transfer_id w)

    unfoldable pub order_query_handler : String → World → Response
    unfolding respond_view
    order_query_handler order_id w =
        respond_view order_json state.order_query.to_string (state.order_query.load order_id w)

    unfoldable pub account_command_handler :
        String → CommandExtractor AccountCommand → World → Flow Response × World
    unfolding respond_executed
    account_command_handler account_id extracted w =
        let (r, w) =
          state.account_cqrs.execute_with_metadata account_id extracted.command extracted.metadata
            w in
        (respond_executed state.account_cqrs.to_string r, w)

    unfoldable pub transfer_command_handler :
        String → CommandExtractor TransferCommand → World → Flow Response × World
    unfolding respond_executed
    transfer_command_handler transfer_id extracted w =
        let (r, w) =
          state.transfer_cqrs.execute_with_metadata transfer_id extracted.command extracted.metadata
            w in
        (respond_executed state.transfer_cqrs.to_string r, w)

    unfoldable pub order_command_handler :
        String → CommandExtractor OrderCommand → World → Flow Response × World
    unfolding respond_executed
    order_command_handler order_id extracted w =
        let (r, w) =
          state.order_cqrs.execute_with_metadata order_id extracted.command extracted.metadata w in
        (respond_executed state.order_cqrs.to_string r, w)

  -- A handler runs once its extractor has succeeded; otherwise the rejection is the response.
  unfoldable pub extracted :
      {Command : Type 0}
      → Result (CommandExtractor Command) CommandExtractionError
      → (CommandExtractor Command → World → Flow Response × World)
      → World
      → Flow Response × World
  extracted (ok command) handler w = handler command w
  extracted (err e) handler w = (returned (into_response e), w)

pub data Method : Type 0 where
  get post : Method

-- A path that has matched one of the routes of `main`, with its parameter.
pub data Route : Type 0 where
  account transfer order : String → Route

-- `Deserialize` of the three types of command, from JSON.
pub record Parsers (Bytes : Type 0) : Type 0 where
  pub account_command : Bytes → Option AccountCommand
  pub transfer_command : Bytes → Option TransferCommand
  pub order_command : Bytes → Option OrderCommand

-- The routes of `main`, at the time `now`.
unfoldable pub serve :
    (World : Type 0) {Bytes : Type 0}
    → ApplicationState World
    → Parsers Bytes
    → String
    → Method
    → Route
    → Request Bytes
    → World
    → Flow Response × World
unfolding extracted
serve World state parsers now get (account id) req w =
    (returned (account_query_handler World state id w), w)
serve World state parsers now get (transfer id) req w =
    (returned (transfer_query_handler World state id w), w)
serve World state parsers now get (order id) req w =
    (returned (order_query_handler World state id w), w)
serve World state parsers now post (account id) req w =
    extracted World (from_request now parsers.account_command req)
      (account_command_handler World state id) w
serve World state parsers now post (transfer id) req w =
    extracted World (from_request now parsers.transfer_command req)
      (transfer_command_handler World state id) w
serve World state parsers now post (order id) req w =
    extracted World (from_request now parsers.order_command req)
      (order_command_handler World state id) w
