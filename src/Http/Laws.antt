-- ===== src/Http/Laws.antt =====
-- What a request to an account does, by its response.
use cqrs_account.Prelude.{◌≡◌, ◌≢◌, refl, ap, ◌∙◌, String, some, List, inl, inr, Option-cases}
use cqrs_account.Outcome.{Result, ok, err}
use cqrs_account.Types.{Platform}
use cqrs_account.Account.Commands.{AccountCommand}
use cqrs_account.Account.Events.{AccountEvent}
use cqrs_account.Account.State.{Account}
use cqrs_account.Account.Handle.{handle}
use cqrs_account.Service.{
  AccountService, AggregateError, user_error, framework_error, Executed, succeeded, failed,
  panicked, Flow, returned, unwound,
}
use cqrs_account.Service.Laws.{IsEventSourced, Committed, Replays}
use cqrs_account.Service.Effects.{ending, succeeds, refuses, breaks, panics}
use cqrs_account.Transfer.Failures.{everywhere}
use cqrs_account.Http.{
  Metadata, command_extraction_error, metadata_of, no_content, bad_request, empty, text, Response,
  Request, from_request, respond_executed, ApplicationState, account_command_handler, extracted,
  post, account, Parsers, serve,
}

-- How a call of `execute` looks to a command handler.
abbrev pub flow_of : Executed → Flow (Result (Unit {0}) AggregateError)
flow_of succeeded = returned (ok tt)
flow_of (failed e) = returned (err e)
flow_of panicked = unwound

module _ ⦃platform : Platform⦄ (World : Type 0)
    (execute : String → AccountCommand → Metadata → World → Executed × World)
    (load : String → World → Account) (to_string : AggregateError → String)
    (others : ApplicationState World) where
  -- The account service of the requests with this metadata.
  abbrev pub service : Metadata → AccountService
  service metadata = record { World = World; execute = λ id c w. execute id c metadata w }

  -- The state of the application, with this `execute` behind its accounts.
  abbrev pub state : ApplicationState World
  state = record others {
    account_cqrs = record {
      Error = AggregateError;
      to_string = to_string;
      execute_with_metadata =
          λ id c metadata w. (flow_of (execute id c metadata w).0, (execute id c metadata w).1);
    };
  }

  module _ (es : (metadata : Metadata) → IsEventSourced (service metadata) load) {Bytes : Type 0}
      (parsers : Parsers Bytes) (now : String) (id : String) (req : Request Bytes) (w : World) where
    abbrev pub served : Flow Response × World
    served = serve World state parsers now post (account id) req w

    -- What has been committed: the body of the request is a command that the account accepts, and its
    -- events are stored, so that the account is their replay; no other account has changed.
    pub record IsCommitted : Type 0 where
      pub bytes : Bytes
      pub arrived : req.body ≡ some bytes
      pub command : AccountCommand
      pub parsed : parsers.account_command bytes ≡ some command
      pub events : List AccountEvent
      pub accepted : handle (load id w) command ≡ ok events
      pub replays : Replays (load id w) (load id served.1) events
      pub world : served.1 ≡ (execute id command (metadata_of now req) w).1
      pub elsewhere : (other : String) → id ≢ other → load other served.1 ≡ load other w

    abbrev pub IsUnchanged : Type 0
    IsUnchanged = (other : String) → load other served.1 ≡ load other w

    -- The responses to a POST to an account. `dropped` and `broken_off`: a panic has ended the task of
    -- the request, before or after the events were stored.
    pub data Answer : Type 0 where
      committed :
          served.0 ≡ returned (record { status = no_content; body = empty })
          → (given : IsCommitted) → (execute id given.command (metadata_of now req) w).0 ≡ succeeded
          → Answer
      rejected :
          (reason : String)
          → served.0 ≡ returned (record { status = bad_request; body = text reason })
          → IsUnchanged
          → Answer
      dropped : served.0 ≡ unwound → IsUnchanged → Answer
      broken_off : served.0 ≡ unwound → IsCommitted → Answer

    -- The handler has run `execute` with the metadata of the request, and answers with what it returned.
    record HasRun (bytes : Bytes) (command : AccountCommand) : Type 0 where
      arrived : req.body ≡ some bytes
      parsed : parsers.account_command bytes ≡ some command
      answered : served ≡ (
        respond_executed to_string (flow_of (execute id command (metadata_of now req) w).0),
        (execute id command (metadata_of now req) w).1,
      )

    answered : (bytes : Bytes) (command : AccountCommand) → HasRun bytes command → Answer
    unfolding respond_executed
    answered bytes command h =
        let metadata = metadata_of now req in
        let run = execute id command metadata w in
        let response : served.0 ≡ respond_executed to_string (flow_of run.0) =
          ap (λ (x : Flow Response × World). x.0) h.answered in
        let world : served.1 ≡ run.1 = ap (λ (x : Flow Response × World). x.1) h.answered in
        let same : load id run.1 ≡ load id w → IsUnchanged = λ e other.
          ap (load other) world
          ∙ everywhere (service metadata) load (es metadata) id command w e other in
        let told : (r : Executed) → run.0 ≡ r → served.0 ≡ respond_executed to_string (flow_of r) =
          λ r e. response ∙ ap (λ (x : Executed). respond_executed to_string (flow_of x)) e in
        let kept : served.1 ≡ run.1 → Committed (service metadata) load id command w → IsCommitted =
          λ world (events, accepted, replays). record {
            bytes = bytes;
            arrived = h.arrived;
            command = command;
            parsed = h.parsed;
            events = events;
            world = world;
            accepted = accepted;
            replays = rw world replays;
            elsewhere =
                λ other ne. ap (load other) world ∙ (es metadata).elsewhere id other command w ne;
          } in
        elim (ending run.0) [
          | succeeds e ↦
              committed (told succeeded e) (kept world ((es metadata).on_success id command w e)) e
          | refuses x e ↦
              rejected (to_string (user_error x)) (told (failed (user_error x)) e)
                (same ((es metadata).on_user_error id command w x e).1)
          | breaks x e ↦
              rejected (to_string (framework_error x)) (told (failed (framework_error x)) e)
                (same ((es metadata).on_framework_error id command w x e))
          | panics e ↦ elim ((es metadata).on_panic id command w e) [
            | inl k ↦ dropped (told panicked e) (same k)
            | inr k ↦ broken_off (told panicked e) (kept world k)
          ]
        ]

    unread : from_request now parsers.account_command req ≡ err command_extraction_error → Answer
    unfolding serve extracted
    unread h = rejected "command could not be read" (rw h refl) (λ other. rw h refl)

    -- A POST to an account is answered with 204 only if its body is a command that the account accepts
    -- and whose events have been stored: the account is then their replay, where `apply` does not panic,
    -- and no other account has changed. Any other answer is a 400, and then no account has changed, or
    -- a panic, and then no account has changed or such a command has been stored in the same way.
    pub post-Answer : Answer
    unfolding from_request serve extracted account_command_handler
    post-Answer = elim (Option-cases req.body) [
      | inl none_arrived ↦ unread (rw none_arrived refl)
      | inr (bytes, arrived) ↦ elim (Option-cases (parsers.account_command bytes)) [
        | inl bad ↦ unread (rw (arrived, from_request, bad) refl)
        | inr (command, parsed) ↦ answered bytes command (record {
          arrived = arrived;
          parsed = parsed;
          answered = rw (arrived, from_request, parsed) refl;
        })
      ]
    ]
