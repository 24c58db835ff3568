-- ===== src/Order/Tests.antt =====
-- The theorems about orders at concrete inputs.
mod Runs
mod Resumes
mod Cancels
use cqrs_account.Prelude.{
  ℕ, ◌+◌, ◌≤◌, ◌≡◌, ◌≢◌, refl, String, string_eq, ◌==◌, if◌then◌else◌, none, some, List, [], ◌∷◌,
  arith, ◌⊎◌, true, false,
}
use cqrs_account.Outcome.{Result, ok, err, done}
use cqrs_account.BTreeMap
use cqrs_account.Types.{Platform, hex}
use cqrs_account.TestPlatform.{test_platform, id_of}
use cqrs_account.TestService.{
  Bank, bank_service, bank_service-IsEventSourced, look, store, decide, commit,
}
use cqrs_account.Account.Commands.{TransactionCommand}
use cqrs_account.Account.Commands.Build as Command
use cqrs_account.Account.Events.Build as Event
use cqrs_account.Account.Processed.{get_timestamp, insert, expire}
use cqrs_account.Account.State.{
  Account, BankAccountState, uninitialized, in_service, sub_balance, save_txid,
}
use cqrs_account.Account.State.Valid.{at}
use cqrs_account.Account.Handle.{handle_transaction}
use cqrs_account.Account.Handle
use cqrs_account.Account.Apply
use cqrs_account.Account.Apply.{apply_all, apply_transaction, receive}
use cqrs_account.Account.Effect.{Effect}
use cqrs_account.Account.Effect.Accepted.{fresh}
use cqrs_account.Account.History.{wealth_of}
use cqrs_account.Account.Tests.Runs.{funded, funded-IsValid, locked, locked-IsValid}
use cqrs_account.Service
use cqrs_account.Service.{returned, Runtime, run_undo}
use cqrs_account.Order.Defs.{OrderConfig, OrderCommand, continue, OrderEvent, Order}
use cqrs_account.Order.Defs
use cqrs_account.Order.Handle.{
  Surroundings, undo_and_tell, lock_result, lock_funds, settle, settle_result, after_lock, and_then,
  handle,
}
use cqrs_account.Order.Machine.{Proceeds, Wedged, accepted-Proceeds}
use cqrs_account.Order.Laws.{settlement_swaps, self_settlement_gains}
use cqrs_account.Order.Laws
use cqrs_account.Order.Locks.{LockAnswer, place_locks, buy_locks}
use cqrs_account.Order.Locks
use cqrs_account.Order.View.{OrderView, default, update_all}
use cqrs_account.Order.Follow.{Shows, ShowsConfig, order_view_follows}
use Runs.{bob_funded, bob_funded-IsValid, bob_locked, bob_locked-IsValid}

-- Four hundred satoshi against five units of another asset.
abbrev config : OrderConfig
config = record {
  order_id = id_of 3;
  seller = "alice";
  sell_asset = "BTC";
  sell_amount = 400;
  buy_asset = "ETH";
  buy_amount = 5;
  timestamp = 2;
}

abbrev env : Surroundings
env = record { now = 6; failed_to_lock = λ e. "refused"; cannot_accept = λ order c. "not now" }

abbrev bank : BankAccountState → BankAccountState → Bank
bank alice bob =
    store "alice" (in_service alice) (store "bob" (in_service bob) (λ id. uninitialized))

abbrev start : BankAccountState → BankAccountState → Runtime bank_service
start alice bob = record { world = bank alice bob; spawned = [] }

-- The seller has no funds.
refused_run :
    (handle bank_service env
      (Order.initialized config)
      continue
      (start (fresh "alice") bob_funded)).0
    ≡ returned (ok (OrderEvent.failed 6 "refused" ∷ []))
unfolding handle after_lock and_then lock_funds lock_result undo_and_tell settle settle_result
    Service.commit Service.drop Service.new run_undo decide commit Handle.handle handle_transaction
    apply_all Apply.apply apply_transaction get_timestamp insert expire save_txid sub_balance
    receive hex BTreeMap.get BTreeMap.contains_key BTreeMap.insert BTreeMap.remove
    Command.lock_funds Command.unlock_funds Command.settle Event.funds_locked Event.settlement
refused_run = refl

accepted-Proceeds_example :
    Proceeds bank_service 6
      (start (fresh "alice") bob_funded)
      (Order.initialized config)
      continue
      (OrderEvent.failed 6 "refused" ∷ [])
    ⊎ Wedged bank_service env
        (start (fresh "alice") bob_funded)
        (Order.initialized config)
        continue
        (OrderEvent.failed 6 "refused" ∷ [])
accepted-Proceeds_example =
    accepted-Proceeds bank_service env (Order.initialized config) continue
      (start (fresh "alice") bob_funded) (OrderEvent.failed 6 "refused" ∷ []) refused_run

place_run :
    (handle bank_service env (Order.initialized config) continue (start funded bob_funded)).0
    ≡ returned (ok (OrderEvent.placed 6 ∷ []))
unfolding handle after_lock and_then lock_funds lock_result undo_and_tell settle settle_result
    Service.commit Service.drop Service.new run_undo decide commit Handle.handle handle_transaction
    apply_all Apply.apply apply_transaction get_timestamp insert expire save_txid sub_balance
    receive hex BTreeMap.get BTreeMap.contains_key BTreeMap.insert BTreeMap.remove
    Command.lock_funds Command.unlock_funds Command.settle Event.funds_locked Event.settlement
place_run = refl

alice-IsReady :
    Locks.IsReady bank_service look bank_service-IsEventSourced
      (id_of 3)
      6
      (start funded bob_funded)
      "alice"
      funded
unfolding hex BTreeMap.get
alice-IsReady = record { state = refl; valid = funded-IsValid; fits = omega arith; free = refl }

place_locks_example :
    LockAnswer bank_service look bank_service-IsEventSourced
      (OrderEvent.placed 6)
      (λ e. OrderEvent.failed 6 "refused")
      (id_of 3)
      "BTC"
      400
      6
      (start funded bob_funded)
      (handle bank_service env (Order.initialized config) continue (start funded bob_funded)).1
      "alice"
      funded
      (OrderEvent.placed 6 ∷ [])
place_locks_example =
    place_locks bank_service look bank_service-IsEventSourced env config (start funded bob_funded)
      funded (OrderEvent.placed 6 ∷ []) alice-IsReady place_run

buy_run :
    (handle bank_service env (Order.buying config "bob" 5) continue (start locked bob_funded)).0
    ≡ returned (ok (OrderEvent.bought 6 ∷ []))
unfolding handle after_lock and_then lock_funds lock_result undo_and_tell settle settle_result
    Service.commit Service.drop Service.new run_undo decide commit Handle.handle handle_transaction
    apply_all Apply.apply apply_transaction get_timestamp insert expire save_txid sub_balance
    receive hex BTreeMap.get BTreeMap.contains_key BTreeMap.insert BTreeMap.remove
    Command.lock_funds Command.unlock_funds Command.settle Event.funds_locked Event.settlement
buy_run = refl

bob-IsReady :
    Locks.IsReady bank_service look bank_service-IsEventSourced
      (id_of 3)
      5
      (start locked bob_funded)
      "bob"
      bob_funded
unfolding hex BTreeMap.get
bob-IsReady = record { state = refl; valid = bob_funded-IsValid; fits = omega arith; free = refl }

buy_locks_example :
    LockAnswer bank_service look bank_service-IsEventSourced
      (OrderEvent.bought 6)
      (λ e. OrderEvent.placed 5)
      (id_of 3)
      "ETH"
      5
      5
      (start locked bob_funded)
      (handle bank_service env (Order.buying config "bob" 5) continue (start locked bob_funded)).1
      "bob"
      bob_funded
      (OrderEvent.bought 6 ∷ [])
buy_locks_example =
    buy_locks bank_service look bank_service-IsEventSourced env config (start locked bob_funded)
      bob_funded (OrderEvent.bought 6 ∷ []) "bob" 5 bob-IsReady buy_run

abbrev settled : String → Runtime bank_service
settled buyer =
    (handle bank_service env (Order.bought config buyer 6) continue (start locked bob_locked)).1

settle_run :
    (handle bank_service env (Order.bought config "bob" 6) continue (start locked bob_locked)).0
    ≡ returned (ok (OrderEvent.settled 6 ∷ []))
unfolding handle after_lock and_then lock_funds lock_result undo_and_tell settle settle_result
    Service.commit Service.drop Service.new run_undo decide commit Handle.handle handle_transaction
    apply_all Apply.apply apply_transaction get_timestamp insert expire save_txid sub_balance
    receive hex BTreeMap.get BTreeMap.contains_key BTreeMap.insert BTreeMap.remove
    Command.lock_funds Command.unlock_funds Command.settle Event.funds_locked Event.settlement
settle_run = refl

seller-IsReady :
    (buyer : String)
    → Laws.IsReady bank_service look bank_service-IsEventSourced env config buyer 6
        (start locked bob_locked)
        "alice"
        locked
        "BTC"
        400
        "ETH"
        5
unfolding hex BTreeMap.get get_timestamp
seller-IsReady buyer = record {
  state = refl;
  valid = locked-IsValid;
  fits = omega arith;
  new = refl;
  holds = refl;
  room = omega arith;
}

buyer-IsReady :
    Laws.IsReady bank_service look bank_service-IsEventSourced env config "bob" 6
      (start locked bob_locked)
      "bob"
      bob_locked
      "ETH"
      5
      "BTC"
      400
unfolding hex BTreeMap.get get_timestamp
buyer-IsReady = record {
  state = refl;
  valid = bob_locked-IsValid;
  fits = omega arith;
  new = refl;
  holds = refl;
  room = omega arith;
}

alice_not_bob : ◌≢◌ {A = String} "alice" "bob"
alice_not_bob h = cc ((string_eq.reflects "alice" "bob").1 h)

settlement_swaps_example :
    (s' : BankAccountState) × (t' : BankAccountState) × (settled "bob").world "alice"
      ≡ in_service s'
    × (settled "bob").world "bob" ≡ in_service t'
    × Effect locked 0 (id_of 3) (TransactionCommand.settle "bob" "ETH" 5) s'
    × Effect bob_locked 0 (id_of 3) (TransactionCommand.settle "alice" "BTC" 400) t'
    × ((a : String) → wealth_of s' a + wealth_of t' a ≡ wealth_of locked a + wealth_of bob_locked a)
    × ((other : String)
        → "alice" ≢ other
        → "bob" ≢ other
        → (settled "bob").world other ≡ bank locked bob_locked other)
settlement_swaps_example =
    settlement_swaps bank_service look bank_service-IsEventSourced env config "bob" 6
      (start locked bob_locked) locked bob_locked (OrderEvent.settled 6 ∷ []) (seller-IsReady "bob")
      buyer-IsReady alice_not_bob settle_run

self_run :
    (handle bank_service env (Order.bought config "alice" 6) continue (start locked bob_locked)).0
    ≡ returned (ok (OrderEvent.settled 6 ∷ []))
unfolding handle after_lock and_then lock_funds lock_result undo_and_tell settle settle_result
    Service.commit Service.drop Service.new run_undo decide commit Handle.handle handle_transaction
    apply_all Apply.apply apply_transaction get_timestamp insert expire save_txid sub_balance
    receive hex BTreeMap.get BTreeMap.contains_key BTreeMap.insert BTreeMap.remove
    Command.lock_funds Command.unlock_funds Command.settle Event.funds_locked Event.settlement
self_run = refl

self_settlement_gains_example :
    (s' : BankAccountState) × (settled "alice").world "alice" ≡ in_service s'
    × ((a : String) → wealth_of s' a + at "BTC" 400 a ≡ wealth_of locked a + at "ETH" 5 a)
self_settlement_gains_example =
    self_settlement_gains bank_service look bank_service-IsEventSourced env config "alice" 6
      (start locked bob_locked) locked (OrderEvent.settled 6 ∷ []) (seller-IsReady "alice") refl
      self_run

abbrev new_view : OrderView
new_view = record default {
  id = hex (id_of 3);
  seller = "alice";
  sell_asset = "BTC";
  sell_amount = 400;
  buy_asset = "ETH";
  buy_amount = 5;
  create_time = 2;
  update_time = 2;
}

new_view-Shows : Shows (Order.initialized config) new_view
new_view-Shows = (
  record {
    id = refl;
    seller = refl;
    sell_asset = refl;
    sell_amount = refl;
    buy_asset = refl;
    buy_amount = refl;
    create_time = refl;
  },
  refl,
  refl,
)

placed_run :
    Defs.apply_all (Order.initialized config) (OrderEvent.placed 6 ∷ OrderEvent.buying "bob" 8 ∷ [])
    ≡ done (Order.buying config "bob" 8)
unfolding Defs.apply_all Defs.apply
placed_run = refl

order_view_follows_example :
    Shows
      (Order.buying config "bob" 8)
      (update_all new_view (OrderEvent.placed 6 ∷ OrderEvent.buying "bob" 8 ∷ []))
order_view_follows_example =
    order_view_follows (Order.initialized config) (Order.buying config "bob" 8)
      (OrderEvent.placed 6 ∷ OrderEvent.buying "bob" 8 ∷ []) new_view new_view-Shows placed_run
