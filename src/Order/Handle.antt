-- ===== src/Order/Handle.antt =====
-- `OrderServices` and `Aggregate::handle` for `Order`, `src/order/aggregate.rs`.
use cqrs_account.Prelude.{ℕ, String, List, [], ◌∷◌}
use cqrs_account.Outcome.{Result, ok, err}
use cqrs_account.Types.{ByteArray32}
use cqrs_account.Account.Commands.Build as Command
use cqrs_account.Account.Events.{AccountError, duplicate_lock, duplicate_transaction}
use cqrs_account.Service
use cqrs_account.Service.{
  AccountService, AggregateError, user_error, Executed, succeeded, failed, panicked, Flow, returned,
  unwound, Undo, TransactionGuard, Runtime, run_undo,
}
use cqrs_account.Order.Defs.{
  OrderCommand, open_order, continue, cancel, buy, OrderEvent, Order, OrderError, invalid_state,
  account_error, aggregate_error,
}

-- What `handle` takes from outside: the clock, which it reads at most once, and the texts that
-- `format!` makes.
pub record Surroundings : Type 0 where
  pub now : ℕ
  pub failed_to_lock : AccountError → String
  pub cannot_accept : Order → OrderCommand → String

-- A user error of the account is passed on as such, and any other error as one of the aggregate.
abbrev pub told : AggregateError → OrderError
told (user_error e) = account_error e
told e = aggregate_error e

-- The `match` on the result of `execute` in `unlock_funds`.
unfoldable pub unlock_result : Executed → Flow (Result (Unit {0}) OrderError)
unlock_result succeeded = returned (ok tt)
unlock_result (failed e) = returned (err (told e))
unlock_result panicked = unwound

-- The `match` on the result of `execute` in `settle`.
unfoldable pub settle_result : Executed → Flow (Result (Unit {0}) OrderError)
settle_result succeeded = returned (ok tt)
settle_result (failed (user_error (duplicate_transaction _))) = returned (ok tt)
settle_result (failed e) = returned (err (told e))
settle_result panicked = unwound

module _ (service : AccountService) where
  abbrev pub Locked : Type 0
  Locked = Flow (Result TransactionGuard OrderError) × Runtime service

  abbrev pub Answer : Type 0
  Answer = Flow (Result (Unit {0}) OrderError) × Runtime service

  -- `undo.await;` and the error.
  unfoldable pub undo_and_tell : Undo → AggregateError → Runtime service → Locked
  undo_and_tell undo e rt =
      let (f, w) = run_undo service undo rt.world in
      (elim f [ returned _ ↦ returned (err (told e)) | unwound ↦ unwound ], record rt { world = w })

  -- The `match` on the result of `execute` in `lock_funds`.
  unfoldable pub lock_result : Undo → Runtime service → Executed → Locked
  unfolding undo_and_tell
  lock_result undo rt succeeded = (returned (ok (Service.new undo)), rt)
  lock_result undo rt (failed (user_error duplicate_lock)) = (returned (ok (Service.new undo)), rt)
  lock_result undo rt (failed e) = undo_and_tell undo e rt
  lock_result undo rt panicked = (unwound, rt)

  unfoldable pub lock_funds : ByteArray32 → String → String → ℕ → ℕ → Runtime service → Locked
  unfolding lock_result
  lock_funds order_id seller sell_asset sell_amount timestamp rt =
      let undo : Undo = record { account = seller; command = Command.unlock_funds order_id } in
      let (r, w) =
        service.execute seller (Command.lock_funds order_id timestamp sell_asset sell_amount)
          rt.world in
      lock_result undo (record rt { world = w }) r

  unfoldable pub unlock_funds : ByteArray32 → String → Runtime service → Answer
  unfolding unlock_result
  unlock_funds order_id seller rt =
      let (r, w) = service.execute seller (Command.unlock_funds order_id) rt.world in
      (unlock_result r, record rt { world = w })

  unfoldable pub settle : ByteArray32 → String → String → String → ℕ → Runtime service → Answer
  unfolding settle_result
  settle order_id account_id pair_account_id receive_asset receive_amount rt =
      let (r, w) =
        service.execute account_id
          (Command.settle order_id pair_account_id receive_asset receive_amount) rt.world in
      (settle_result r, record rt { world = w })

  abbrev pub Handled : Type 0
  Handled = Flow (Result (List OrderEvent) OrderError) × Runtime service

  -- What `Continue` makes of the result of `lock_funds`: the guard is committed, an error of the
  -- account becomes the event `refused`, and any other error is returned.
  unfoldable pub after_lock : OrderEvent → (AccountError → OrderEvent) → Locked → Handled
  after_lock event refused (returned (ok lock_undo), rt) =
      (returned (ok (event ∷ [])), record rt { spawned = Service.commit lock_undo rt.spawned })
  after_lock event refused (returned (err (account_error e)), rt) =
      (returned (ok (refused e ∷ [])), rt)
  after_lock event refused (returned (err e), rt) = (returned (err e), rt)
  after_lock event refused (unwound, rt) = (unwound, rt)

  -- `.await?` and what follows.
  unfoldable pub and_then : Answer → (Runtime service → Handled) → Handled
  and_then (returned (ok _), rt) next = next rt
  and_then (returned (err e), rt) next = (returned (err e), rt)
  and_then (unwound, rt) next = (unwound, rt)

  unfoldable pub handle : Surroundings → Order → OrderCommand → Runtime service → Handled
  unfolding after_lock and_then
  handle env Order.uninitialized (open_order config) rt =
      (returned (ok (OrderEvent.initialized config ∷ [])), rt)
  handle env (Order.initialized config) continue rt =
      after_lock (OrderEvent.placed env.now) (λ e. OrderEvent.failed env.now (env.failed_to_lock e))
        (lock_funds config.order_id config.seller config.sell_asset config.sell_amount env.now rt)
  handle env (Order.placed config timestamp) (cancel reason) rt =
      (returned (ok (OrderEvent.cancelling env.now reason ∷ [])), rt)
  handle env (Order.cancelling config reason timestamp) continue rt =
      and_then (unlock_funds config.order_id config.seller rt)
        λ rt. (returned (ok (OrderEvent.cancelled timestamp ∷ [])), rt)
  handle env (Order.placed config _) (buy buyer timestamp) rt =
      (returned (ok (OrderEvent.buying buyer timestamp ∷ [])), rt)
  handle env (Order.buying config buyer timestamp) continue rt =
      after_lock (OrderEvent.bought env.now) (λ _. OrderEvent.placed timestamp)
        (lock_funds config.order_id buyer config.buy_asset config.buy_amount timestamp rt)
  handle env (Order.bought config buyer timestamp) continue rt =
      and_then (settle config.order_id config.seller buyer config.buy_asset config.buy_amount rt)
        λ rt.
          and_then
            (settle config.order_id buyer config.seller config.sell_asset config.sell_amount rt)
            λ rt. (returned (ok (OrderEvent.settled timestamp ∷ [])), rt)
  handle env order command rt =
      (returned (err (invalid_state (env.cannot_accept order command))), rt)
