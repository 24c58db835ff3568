-- ===== src/Order/Tests/Resumes.antt =====
-- The theorem about a settlement that is continued at a concrete input.
use cqrs_account.Prelude.{ℕ, ◌+◌, ◌≡◌, ◌≢◌, refl, String, string_eq, [], ◌∷◌, arith, true, false}
use cqrs_account.Outcome.{ok, err}
use cqrs_account.BTreeMap
use cqrs_account.Types.{hex}
use cqrs_account.TestPlatform.{test_platform, id_of}
use cqrs_account.TestService.{decide, commit}
use cqrs_account.Account.Commands.{TransactionCommand}
use cqrs_account.Account.Commands.Build as Command
use cqrs_account.Account.Events.Build as Event
use cqrs_account.Account.Processed.{get_timestamp, insert, expire}
use cqrs_account.Account.State.{BankAccountState, in_service, save_txid}
use cqrs_account.Account.Handle.{handle_transaction}
use cqrs_account.Account.Handle
use cqrs_account.Account.Apply
use cqrs_account.Account.Apply.{apply_all, apply_transaction, receive}
use cqrs_account.Account.Effect.{Effect}
use cqrs_account.Account.History.{wealth_of}
use cqrs_account.Account.Tests.Runs.{locked, locked-IsValid}
use cqrs_account.Service.{framework_error, database_connection_error, returned, Runtime}
use cqrs_account.Order.Defs.{OrderConfig, OrderCommand, continue, OrderEvent, Order}
use cqrs_account.Order.Defs
use cqrs_account.Order.Handle.{settle, settle_result, and_then, handle}
use cqrs_account.Order.Laws
use cqrs_account.Order.Resume.{attempt, at_first, by_error, settlement_resumes}
use cqrs_account.Order.Tests.Runs.{bob_locked, bob_locked-IsValid}
use cqrs_account.TestService.Wire.{
  wire_service, try_execute, look_behind, wire_service-IsEventSourced,
}
use cqrs_account.Order.Tests.{config, env, bank, alice_not_bob}

-- The connection fails at the buyer's side of the first attempt.
abbrev interrupted : Runtime wire_service
interrupted = record { world = (bank locked bob_locked, false ∷ true ∷ []); spawned = [] }

abbrev half_settled : Runtime wire_service
half_settled = (attempt wire_service env config "bob" 6 interrupted).1

half_run :
    (attempt wire_service env config "bob" 6 interrupted).0
    ≡ returned (err (Defs.aggregate_error (framework_error database_connection_error)))
unfolding handle and_then settle settle_result try_execute decide commit Handle.handle
    handle_transaction apply_all Apply.apply apply_transaction get_timestamp insert expire save_txid
    receive hex BTreeMap.get BTreeMap.insert BTreeMap.remove Command.settle Event.settlement
half_run = refl

resumed_run :
    (attempt wire_service env config "bob" 6 half_settled).0
    ≡ returned (ok (OrderEvent.settled 6 ∷ []))
unfolding handle and_then settle settle_result try_execute decide commit Handle.handle
    handle_transaction apply_all Apply.apply apply_transaction get_timestamp insert expire save_txid
    receive hex BTreeMap.get BTreeMap.insert BTreeMap.remove Command.settle Event.settlement
resumed_run = refl

abbrev IsReadyBehind : String → BankAccountState → String → ℕ → String → ℕ → Type 0
IsReadyBehind =
    Laws.IsReady wire_service look_behind wire_service-IsEventSourced env config "bob" 6 interrupted

seller-IsReadyBehind : IsReadyBehind "alice" locked "BTC" 400 "ETH" 5
unfolding hex BTreeMap.get get_timestamp
seller-IsReadyBehind = record {
  state = refl;
  valid = locked-IsValid;
  fits = omega arith;
  new = refl;
  holds = refl;
  room = omega arith;
}

buyer-IsReadyBehind : IsReadyBehind "bob" bob_locked "ETH" 5 "BTC" 400
unfolding hex BTreeMap.get get_timestamp
buyer-IsReadyBehind = record {
  state = refl;
  valid = bob_locked-IsValid;
  fits = omega arith;
  new = refl;
  holds = refl;
  room = omega arith;
}

abbrev resumed : Runtime wire_service
resumed = (attempt wire_service env config "bob" 6 half_settled).1

settlement_resumes_example :
    (s' : BankAccountState) × (t' : BankAccountState) × resumed.world.0 "alice" ≡ in_service s'
    × resumed.world.0 "bob" ≡ in_service t'
    × Effect locked 0 (id_of 3) (TransactionCommand.settle "bob" "ETH" 5) s'
    × Effect bob_locked 0 (id_of 3) (TransactionCommand.settle "alice" "BTC" 400) t'
    × ((a : String) → wealth_of s' a + wealth_of t' a ≡ wealth_of locked a + wealth_of bob_locked a)
    × ((other : String)
        → "alice" ≢ other
        → "bob" ≢ other
        → resumed.world.0 other ≡ bank locked bob_locked other)
settlement_resumes_example =
    settlement_resumes wire_service look_behind wire_service-IsEventSourced env config "bob" 6
      interrupted locked bob_locked seller-IsReadyBehind buyer-IsReadyBehind alice_not_bob
      half_settled (OrderEvent.settled 6 ∷ [])
      (by_error (Defs.aggregate_error (framework_error database_connection_error)) half_run
        at_first)
      resumed_run
