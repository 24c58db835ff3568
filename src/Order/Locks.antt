-- ===== src/Order/Locks.antt =====
-- What the steps of an order that lock funds do to the accounts.
use cqrs_account.Prelude.{string_eq, ℕ, ◌+◌, ◌<◌, ◌≡◌, ◌≢◌, ◌∙◌, String, List, [], ◌∷◌, none, ap}
use cqrs_account.Outcome.{ok, u64_mod}
use cqrs_account.Types.{Platform, ByteArray32}
use cqrs_account.Account.Commands.{TransactionCommand}
use cqrs_account.Account.Events.{AccountError}
use cqrs_account.Account.State.{Account, BankAccountState, in_service}
use cqrs_account.Account.State.Valid.{IsValid}
use cqrs_account.Account.Effect.{Effect, lock}
use cqrs_account.Service.{AccountService, returned, Runtime}
use cqrs_account.Service.Laws.{IsEventSourced}
use cqrs_account.Order.Defs.{OrderConfig, continue, OrderEvent, Order, account_error}
use cqrs_account.Order.Handle.{Surroundings, lock_funds, after_lock, handle}
use cqrs_account.Order.Ends.{locks, denies, after_lock-LockEnds}
use cqrs_account.Order.Steps.{lock_ok, lock_failed}

module _ ⦃platform : Platform⦄ (service : AccountService) (load : String → service.World → Account)
    (es : IsEventSourced service load) where
  -- The account `id` before an order locks its funds: valid, in service, and with no lock of the
  -- order's id.
  pub record IsReady (order_id : ByteArray32) (ts : ℕ) (rt : Runtime service) (id : String)
      (s : BankAccountState) : Type 0 where
    pub state : load id rt.world ≡ in_service s
    pub valid : IsValid s
    pub fits : ts + s.processed_transactions.ttl < u64_mod
    pub free : lock s order_id ≡ none

  -- The funds of `id` are locked as specified, and no other account has changed.
  pub record HasLocked (order_id : ByteArray32) (asset : String) (amount ts : ℕ)
      (rt after : Runtime service) (id : String) (s : BankAccountState) : Type 0 where
    pub state' : BankAccountState
    pub locked : load id after.world ≡ in_service state'
    pub effect : Effect s ts order_id (TransactionCommand.lock_funds asset amount) state'
    pub quiet : after.spawned ≡ rt.spawned
    pub others : (other : String) → id ≢ other → load other after.world ≡ load other rt.world

  -- No account has changed, and no undo has been spawned.
  pub record IsUntouched (rt after : Runtime service) : Type 0 where
    pub same : (other : String) → load other after.world ≡ load other rt.world
    pub quiet : after.spawned ≡ rt.spawned

  pub data LockAnswer (event : OrderEvent) (refusal : AccountError → OrderEvent)
      (order_id : ByteArray32) (asset : String) (amount ts : ℕ) (rt after : Runtime service)
      (id : String) (s : BankAccountState) (events : List OrderEvent) : Type 0 where
    locked :
        events ≡ event ∷ []
        → HasLocked order_id asset amount ts rt after id s
        → LockAnswer event refusal order_id asset amount ts rt after id s events
    denied :
        (e : AccountError)
        → events ≡ refusal e ∷ []
        → IsUntouched rt after
        → LockAnswer event refusal order_id asset amount ts rt after id s events

  answer :
      (event : OrderEvent) (refusal : AccountError → OrderEvent) (order_id : ByteArray32)
      (asset : String) (amount ts : ℕ) (rt : Runtime service) (id : String) (s : BankAccountState)
      (events : List OrderEvent)
      → IsReady order_id ts rt id s
      → let out =
          after_lock service event refusal (lock_funds service order_id id asset amount ts rt) in
        out.0 ≡ returned (ok events)
        → LockAnswer event refusal order_id asset amount ts rt out.1 id s events
  answer event refusal order_id asset amount ts rt id s events r h =
      let out = lock_funds service order_id id asset amount ts rt in
      let (ends, world, spawned) = after_lock-LockEnds service event refusal out events h in
      elim ends [
        | locks g k e ↦
            let (s', l, x, q, others) =
              lock_ok service load es order_id id asset amount ts rt s g r.state r.valid r.fits
                r.free k in
            locked e (record {
              state' = s';
              locked = ap (load id) world ∙ l;
              effect = x;
              quiet = spawned ∙ q;
              others = λ other ne. ap (load other) world ∙ others other ne;
            })
        | denies x k e ↦
            let (same, quiet) =
              lock_failed service load es order_id id asset amount ts rt s (account_error x) r.state
                r.free k in
            denied x e (record {
              same = λ other. ap (load other) world ∙ same other;
              quiet = spawned ∙ quiet;
            })
      ]

  module _ (env : Surroundings) (config : OrderConfig) (rt : Runtime service) (s : BankAccountState)
      (events : List OrderEvent) where
    -- `Continue` on a new order of a seller that is valid, in service and without a lock of its id, when
    -- it returns events: either the order is placed at the current
    -- time and the seller's funds are locked, or the order has failed and no account has changed.
    pub place_locks :
        IsReady config.order_id env.now rt config.seller s
        → let out = handle service env (Order.initialized config) continue rt in
          out.0 ≡ returned (ok events)
          → LockAnswer
              (OrderEvent.placed env.now)
              (λ e. OrderEvent.failed env.now (env.failed_to_lock e))
              config.order_id
              config.sell_asset
              config.sell_amount
              env.now
              rt
              out.1
              config.seller
              s
              events
    unfolding handle
    place_locks r h =
        answer (OrderEvent.placed env.now) (λ e. OrderEvent.failed env.now (env.failed_to_lock e))
          config.order_id config.sell_asset config.sell_amount env.now rt config.seller s events r h

    -- `Continue` on an order with a buyer that is valid, in service and without a lock of its id, when it
    -- returns events: either the order is bought at the
    -- current time and the buyer's funds are locked, or it is placed again and no account has changed.
    pub buy_locks :
        (buyer : String) (timestamp : ℕ)
        → IsReady config.order_id timestamp rt buyer s
        → let out = handle service env (Order.buying config buyer timestamp) continue rt in
          out.0 ≡ returned (ok events)
          → LockAnswer
              (OrderEvent.bought env.now)
              (λ _. OrderEvent.placed timestamp)
              config.order_id
              config.buy_asset
              config.buy_amount
              timestamp
              rt
              out.1
              buyer
              s
              events
    unfolding handle
    buy_locks buyer timestamp r h =
        answer (OrderEvent.bought env.now) (λ _. OrderEvent.placed timestamp) config.order_id
          config.buy_asset config.buy_amount timestamp rt buyer s events r h
