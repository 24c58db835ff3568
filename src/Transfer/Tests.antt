-- ===== src/Transfer/Tests.antt =====
-- The theorems about transfers at concrete inputs.
use cqrs_account.Prelude.{
  some, subst, ◌+◌, ◌≡◌, ◌≢◌, refl, String, string_eq, none, List, [], ◌∷◌, arith,
}
use cqrs_account.Outcome.{Result, ok, err}
use cqrs_account.BTreeMap
use cqrs_account.Types.{hex}
use cqrs_account.TestPlatform.{test_platform, id_of}
use cqrs_account.TestService.{
  Bank, bank_service, bank_service-IsEventSourced, bank_service-IsAvailable, look, store, decide,
  commit,
}
use cqrs_account.Account.Commands.{TransactionCommand}
use cqrs_account.Account.Commands.Build as Command
use cqrs_account.Account.Events.{account_not_found}
use cqrs_account.Account.Events.Build as Event
use cqrs_account.Account.Processed.{get_timestamp, insert, remove, expire}
use cqrs_account.Account.State.{
  BankAccountState, uninitialized, in_service, add_balance, sub_balance, save_txid, remove_txid,
}
use cqrs_account.Account.Handle.{handle_transaction}
use cqrs_account.Account.Handle
use cqrs_account.Account.Apply
use cqrs_account.Account.Apply.{apply_all, apply_transaction}
use cqrs_account.Account.Effect.{Effect}
use cqrs_account.Account.Effect.Accepted.{fresh, fresh-IsValid}
use cqrs_account.Account.History.{wealth_of}
use cqrs_account.Account.Replay.{known}
use cqrs_account.Account.Undo.{SameFunds}
use cqrs_account.Account.Tests.Runs.{funded, funded-IsValid}
use cqrs_account.Service
use cqrs_account.Service.{
  Flow, succeeded, user_error, returned, Undo, Runtime, run_spawned, run_undo,
}
use cqrs_account.Transfer.Defs.{
  Transfer, continue, Config, TransferEvent, TransferError, aggregate_error,
}
use cqrs_account.Transfer.Handle.{
  debit, credit, guarded, undo_and_fail, dropped, with_credit, handle,
}
use cqrs_account.Transfer.Laws.{after, result, IsReady, transfer_moves, self_transfer_loses}
use cqrs_account.Transfer.Completes.{transfer_completes}
use cqrs_account.Transfer.View.{TransferView, default}
use cqrs_account.Transfer.Follow
use cqrs_account.Transfer.Follow.{Shows, update_all, transfer_view_follows}
use cqrs_account.Transfer.Rollback.{transfer_rolls_back}

abbrev pay : String → Config
pay to = record {
  transfer_id = id_of 9;
  from_account = "alice";
  to_account = to;
  asset = "BTC";
  amount = 300;
  timestamp = 0;
  description = "rent";
}

abbrev two_accounts : Bank
two_accounts =
    store "alice" (in_service funded) (store "bob" (in_service (fresh "bob")) (λ id. uninitialized))

abbrev start : Runtime bank_service
start = record { world = two_accounts; spawned = [] }

alice_not_bob : ◌≢◌ {A = String} "alice" "bob"
alice_not_bob h = cc ((string_eq.reflects "alice" "bob").1 h)

alice_not_carol : ◌≢◌ {A = String} "alice" "carol"
alice_not_carol h = cc ((string_eq.reflects "alice" "carol").1 h)

abbrev Ready : String → String → BankAccountState → Type 0
Ready to = IsReady bank_service look bank_service-IsEventSourced (pay to) start

alice-IsReady : (to : String) → Ready to "alice" funded
unfolding get_timestamp hex BTreeMap.get
alice-IsReady to = record { state = refl; valid = funded-IsValid; fits = omega arith; new = refl }

bob-IsReady : Ready "bob" "bob" (fresh "bob")
unfolding get_timestamp hex BTreeMap.get
bob-IsReady = record { state = refl; valid = fresh-IsValid "bob"; fits = omega arith; new = refl }

abbrev outcome : String → Flow (Result (List TransferEvent) TransferError)
outcome to = result bank_service (pay to) start

abbrev left : String → Runtime bank_service
left to = after bank_service (pay to) start

bob_run : outcome "bob" ≡ returned (ok (TransferEvent.finished 0 ∷ []))
unfolding handle debit credit guarded undo_and_fail with_credit dropped Service.commit Service.drop
    Service.new decide commit Handle.handle handle_transaction apply_all Apply.apply
    apply_transaction get_timestamp insert expire save_txid add_balance sub_balance hex BTreeMap.get
    BTreeMap.insert Command.debit Command.credit Event.debited Event.credited run_undo
    Command.reverse_credit
bob_run = refl

transfer_moves_example :
    (s' : BankAccountState) × (t' : BankAccountState) × (left "bob").world "alice" ≡ in_service s'
    × (left "bob").world "bob" ≡ in_service t'
    × Effect funded 0 (id_of 9) (TransactionCommand.debit "bob" "BTC" 300) s'
    × Effect (fresh "bob") 0 (id_of 9) (TransactionCommand.credit "alice" "BTC" 300) t'
    × ((other : String)
        → "alice" ≢ other
        → "bob" ≢ other
        → (left "bob").world other ≡ two_accounts other)
    × (left "bob").spawned ≡ []
    × (TransferEvent.finished 0 ∷ []) ≡ (TransferEvent.finished 0 ∷ [])
unfolding BTreeMap.get
transfer_moves_example =
    transfer_moves bank_service look bank_service-IsEventSourced (pay "bob") start funded
      (fresh "bob") (TransferEvent.finished 0 ∷ []) (alice-IsReady "bob") bob-IsReady alice_not_bob
      (omega arith) bob_run

transfer_completes_example : outcome "bob" ≡ returned (ok (TransferEvent.finished 0 ∷ []))
unfolding BTreeMap.get
transfer_completes_example =
    transfer_completes bank_service look bank_service-IsEventSourced bank_service-IsAvailable
      (pay "bob") start funded (fresh "bob") (alice-IsReady "bob") bob-IsReady alice_not_bob
      (omega arith) (omega arith)

alice_run : outcome "alice" ≡ returned (ok (TransferEvent.finished 0 ∷ []))
unfolding handle debit credit guarded undo_and_fail with_credit dropped Service.commit Service.drop
    Service.new decide commit Handle.handle handle_transaction apply_all Apply.apply
    apply_transaction get_timestamp insert expire save_txid add_balance sub_balance hex BTreeMap.get
    BTreeMap.insert Command.debit Command.credit Event.debited Event.credited run_undo
    Command.reverse_credit
alice_run = refl

self_transfer_loses_example :
    (s' : BankAccountState) × (left "alice").world "alice" ≡ in_service s'
    × wealth_of s' "BTC" + 300 ≡ wealth_of funded "BTC"
    × (TransferEvent.finished 0 ∷ []) ≡ (TransferEvent.finished 0 ∷ [])
self_transfer_loses_example =
    self_transfer_loses bank_service look bank_service-IsEventSourced (pay "alice") start funded
      (TransferEvent.finished 0 ∷ []) (alice-IsReady "alice") refl alice_run

carol_run : outcome "carol" ≡ returned (err (aggregate_error (user_error account_not_found)))
unfolding handle debit credit guarded undo_and_fail with_credit dropped Service.commit Service.drop
    Service.new decide commit Handle.handle handle_transaction apply_all Apply.apply
    apply_transaction get_timestamp insert expire save_txid add_balance sub_balance hex BTreeMap.get
    BTreeMap.insert Command.debit Command.credit Event.debited Event.credited run_undo
    Command.reverse_credit
carol_run = refl

abbrev undo : Undo
undo = record { account = "alice"; command = Command.reverse_debit (id_of 9) 0 "carol" "BTC" 300 }

carol_spawned : (left "carol").spawned ≡ undo ∷ []
unfolding handle debit credit guarded undo_and_fail with_credit dropped Service.commit Service.drop
    Service.new decide commit Handle.handle handle_transaction apply_all Apply.apply
    apply_transaction get_timestamp insert expire save_txid add_balance sub_balance hex BTreeMap.get
    BTreeMap.insert Command.debit Command.credit Event.debited Event.credited run_undo
    Command.reverse_credit
carol_spawned = refl

carol_undone : (bank_service.execute undo.account undo.command (left "carol").world).0 ≡ succeeded
unfolding handle debit credit guarded undo_and_fail with_credit dropped Service.commit Service.drop
    Service.new decide commit Handle.handle handle_transaction apply_all Apply.apply
    apply_transaction get_timestamp insert expire save_txid add_balance sub_balance hex BTreeMap.get
    BTreeMap.insert Command.debit Command.credit Event.debited Event.credited run_undo
    Command.reverse_credit remove remove_txid Command.reverse_debit Event.debit_reversed
carol_undone = refl

carol_reliable :
    (u : Undo)
    → (left "carol").spawned ≡ u ∷ []
    → (bank_service.execute u.account u.command (left "carol").world).0 ≡ succeeded
carol_reliable u h =
    let e : undo ≡ u = cc (carol_spawned, h) in
    subst
      (λ (x : Undo). (bank_service.execute x.account x.command (left "carol").world).0 ≡ succeeded)
      e carol_undone

abbrev final : Bank
final = run_spawned bank_service (left "carol").spawned (left "carol").world

transfer_rolls_back_example :
    (s' : BankAccountState) × final "alice" ≡ in_service s'
    × SameFunds s' funded
    × known s' (id_of 9) ≡ none
    × ((other : String) → "alice" ≢ other → final other ≡ two_accounts other)
transfer_rolls_back_example =
    transfer_rolls_back bank_service look bank_service-IsEventSourced (pay "carol") start funded
      (aggregate_error (user_error account_not_found)) (alice-IsReady "carol")
      (λ t h. absurd (ground arith)) alice_not_carol refl carol_run carol_reliable

abbrev bob_view : TransferView
bob_view = record default {
  transfer_id = some (id_of 9);
  from_account = "alice";
  to_account = "bob";
  amount = 300;
  asset = "BTC";
  description = "rent";
}

bob_view-Shows : Shows (Transfer.opened (pay "bob")) bob_view
bob_view-Shows = (
  record {
    transfer_id = refl;
    from_account = refl;
    to_account = refl;
    asset = refl;
    amount = refl;
    create_timestamp = refl;
    description = refl;
  },
  refl,
  refl,
)

transfer_view_follows_example :
    Shows
      (Follow.apply_all (Transfer.opened (pay "bob")) (TransferEvent.finished 0 ∷ []))
      (update_all bob_view (TransferEvent.finished 0 ∷ []))
transfer_view_follows_example =
    transfer_view_follows bank_service (Transfer.opened (pay "bob")) bob_view continue start
      (TransferEvent.finished 0 ∷ []) bob_view-Shows bob_run
