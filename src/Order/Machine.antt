-- ===== src/Order/Machine.antt =====
-- The states that an order goes through, told apart from `handle` and `apply`.
use cqrs_account.Prelude.{ap, ◌∙◌, ◌≡◌, refl, String, ℕ, List, [], ◌∷◌, arith, ◌⊎◌, inl, inr}
use cqrs_account.Outcome.{done, panic, Result, ok, err, invalid_state_transition}
use cqrs_account.Account.Events.{AccountError}
use cqrs_account.Service.{AccountService, Flow, returned, unwound, Runtime, TransactionGuard}
use cqrs_account.Order.Defs.{
  OrderConfig, OrderCommand, open_order, continue, cancel, buy, OrderEvent, Order, OrderError,
  account_error, apply, apply_all,
}
use cqrs_account.Order.Ends.{locks, denies, after_lock-LockEnds}
use cqrs_account.Order.Handle.{
  Surroundings, Handled, Locked, Answer, lock_funds, unlock_funds, settle, and_then, handle,
}

module _ (service : AccountService) where
  -- The two calls of `settle`.
  abbrev pub sell_side : OrderConfig → String → Runtime service → Answer service
  sell_side config buyer rt =
      settle service config.order_id config.seller buyer config.buy_asset config.buy_amount rt

  abbrev pub buy_side : OrderConfig → String → Runtime service → Answer service
  buy_side config buyer rt =
      settle service config.order_id buyer config.seller config.sell_asset config.sell_amount rt

  -- The locks that `Continue` asks for: the seller's funds, and the buyer's.
  abbrev pub sell_lock : OrderConfig → ℕ → Runtime service → Locked service
  sell_lock config now rt =
      lock_funds service config.order_id config.seller config.sell_asset config.sell_amount now rt

  abbrev pub buy_lock : OrderConfig → String → ℕ → Runtime service → Locked service
  buy_lock config buyer timestamp rt =
      lock_funds service config.order_id buyer config.buy_asset config.buy_amount timestamp rt

  pub and_then-ok :
      (answer : Answer service)
      (next : Runtime service → Flow (Result (List OrderEvent) OrderError) × Runtime service)
      (events : List OrderEvent)
      → (and_then service answer next).0 ≡ returned (ok events)
      → (answer.0 ≡ returned (ok tt)) × (and_then service answer next ≡ next answer.1)
  unfolding and_then
  and_then-ok (returned (ok tt), rt) next events h = (refl, refl)
  and_then-ok (returned (err e), rt) next events h = absurd (ground arith)
  and_then-ok (unwound, rt) next events h = absurd (ground arith)

  -- A settlement that returns events has settled both sides.
  pub record IsSettled (config : OrderConfig) (buyer : String) (timestamp : ℕ)
      (rt : Runtime service) (events : List OrderEvent) (after : Runtime service) : Type 0 where
    pub sold : (sell_side config buyer rt).0 ≡ returned (ok tt)
    pub paid : (buy_side config buyer (sell_side config buyer rt).1).0 ≡ returned (ok tt)
    pub event : events ≡ OrderEvent.settled timestamp ∷ []
    pub rest : after ≡ (buy_side config buyer (sell_side config buyer rt).1).1

  pub handle-IsSettled :
      (env : Surroundings) (config : OrderConfig) (buyer : String) (timestamp : ℕ)
      (rt : Runtime service) (events : List OrderEvent)
      → (handle service env (Order.bought config buyer timestamp) continue rt).0
        ≡ returned (ok events)
      → IsSettled config buyer timestamp rt events
          (handle service env (Order.bought config buyer timestamp) continue rt).1
  unfolding handle
  handle-IsSettled env config buyer timestamp rt events h =
      let last : Runtime service → Handled service =
        λ rt. (returned (ok (OrderEvent.settled timestamp ∷ [])), rt) in
      let (a, k) =
        and_then-ok (sell_side config buyer rt)
          (λ rt. and_then service (buy_side config buyer rt) last) events h in
      let (b, k') =
        and_then-ok (buy_side config buyer (sell_side config buyer rt).1) last events (rw k at h) in
      record {
        sold = a;
        paid = b;
        event = ground (arith, k, k');
        rest = ap (λ (x : Handled service). x.1) (k ∙ k');
      }

  -- The steps that the market allows, and the answers of the accounts that they need: the configuration
  -- never changes, and an order that is bought can only be settled.
  pub data Transition (now : ℕ) (rt : Runtime service) : Order → OrderCommand → Order → Type 0 where
    opens :
        {config : OrderConfig}
        → Transition now rt Order.uninitialized (open_order config) (Order.initialized config)
    places :
        {config : OrderConfig} (g : TransactionGuard)
        → (sell_lock config now rt).0 ≡ returned (ok g)
        → Transition now rt (Order.initialized config) continue (Order.placed config now)
    starts_cancelling :
        {config : OrderConfig} {timestamp : ℕ} {reason : String}
        → Transition now rt
            (Order.placed config timestamp)
            (cancel reason)
            (Order.cancelling config reason now)
    cancels :
        {config : OrderConfig} {timestamp : ℕ} {reason : String}
        → (unlock_funds service config.order_id config.seller rt).0 ≡ returned (ok tt)
        → Transition now rt
            (Order.cancelling config reason timestamp)
            continue
            (Order.cancelled config timestamp reason)
    starts_buying :
        {config : OrderConfig} {placed_at timestamp : ℕ} {buyer : String}
        → Transition now rt
            (Order.placed config placed_at)
            (buy buyer timestamp)
            (Order.buying config buyer timestamp)
    buys :
        {config : OrderConfig} {timestamp : ℕ} {buyer : String} (g : TransactionGuard)
        → (buy_lock config buyer timestamp rt).0 ≡ returned (ok g)
        → Transition now rt
            (Order.buying config buyer timestamp)
            continue
            (Order.bought config buyer now)
    lists_again :
        {config : OrderConfig} {timestamp : ℕ} {buyer : String} (e : AccountError)
        → (buy_lock config buyer timestamp rt).0 ≡ returned (err (account_error e))
        → Transition now rt
            (Order.buying config buyer timestamp)
            continue
            (Order.placed config timestamp)
    settles :
        {config : OrderConfig} {timestamp : ℕ} {buyer : String}
        → (sell_side config buyer rt).0 ≡ returned (ok tt)
        → (buy_side config buyer (sell_side config buyer rt).1).0 ≡ returned (ok tt)
        → Transition now rt
            (Order.bought config buyer timestamp)
            continue
            (Order.settled config timestamp)

  -- The events lead to a next state that the market allows.
  abbrev pub Proceeds : ℕ → Runtime service → Order → OrderCommand → List OrderEvent → Type 0
  Proceeds now rt order c events =
      (order' : Order) × (apply_all order events ≡ done order') × Transition now rt order c order'

  -- A new order whose funds the account refuses to lock: the event that says so cannot be applied.
  pub data Wedged (env : Surroundings) (rt : Runtime service)
      : Order → OrderCommand → List OrderEvent → Type 0 where
    wedged :
        {config : OrderConfig} (e : AccountError)
        → (sell_lock config env.now rt).0 ≡ returned (err (account_error e))
        → apply_all
            (Order.initialized config)
            (OrderEvent.failed env.now (env.failed_to_lock e) ∷ [])
          ≡ panic invalid_state_transition
        → Wedged env rt
            (Order.initialized config)
            continue
            (OrderEvent.failed env.now (env.failed_to_lock e) ∷ [])

  -- Whatever the account service does, the events of an accepted command take the order along a step
  -- that the market allows. An order is listed or bought only when the lock of the funds has returned
  -- its guard, listed again only when it has been refused with an error of the buyer's account,
  -- cancelled only when the unlock has returned, and settled only when both sides have. But for one
  -- case: the event that a new order emits when the seller's account refuses the lock makes `apply`
  -- panic.
  pub accepted-Proceeds :
      (env : Surroundings) (order : Order) (c : OrderCommand) (rt : Runtime service)
      (events : List OrderEvent)
      → (handle service env order c rt).0 ≡ returned (ok events)
      → Proceeds env.now rt order c events ⊎ Wedged env rt order c events
  unfolding handle apply apply_all
  accepted-Proceeds env Order.uninitialized (open_order config) rt events h =
      let e : events ≡ OrderEvent.initialized config ∷ [] = ground arith in
      inl (rw e (Order.initialized config, refl, opens))
  accepted-Proceeds env (Order.initialized config) continue rt events h =
      let ends =
        after_lock-LockEnds service (OrderEvent.placed env.now)
          (λ e. OrderEvent.failed env.now (env.failed_to_lock e)) (sell_lock config env.now rt)
          events h in
      elim ends.0 [
        | locks g a e ↦ inl (rw e (Order.placed config env.now, refl, places g a))
        | denies x a e ↦ inr (rw e (wedged x a refl))
      ]
  accepted-Proceeds env (Order.placed config timestamp) (cancel reason) rt events h =
      let e : events ≡ OrderEvent.cancelling env.now reason ∷ [] = ground arith in
      inl (rw e (Order.cancelling config reason env.now, refl, starts_cancelling))
  accepted-Proceeds env (Order.placed config _) (buy buyer timestamp) rt events h =
      let e : events ≡ OrderEvent.buying buyer timestamp ∷ [] = ground arith in
      inl (rw e (Order.buying config buyer timestamp, refl, starts_buying))
  accepted-Proceeds env (Order.cancelling config reason timestamp) continue rt events h =
      let then_cancelled : Runtime service → Handled service =
        λ rt. (returned (ok (OrderEvent.cancelled timestamp ∷ [])), rt) in
      let (freed, k) =
        and_then-ok (unlock_funds service config.order_id config.seller rt) then_cancelled events
          h in
      let e : events ≡ OrderEvent.cancelled timestamp ∷ [] = ground (arith, k) in
      inl (rw e (Order.cancelled config timestamp reason, refl, cancels freed))
  accepted-Proceeds env (Order.buying config buyer timestamp) continue rt events h =
      let ends =
        after_lock-LockEnds service (OrderEvent.bought env.now) (λ _. OrderEvent.placed timestamp)
          (buy_lock config buyer timestamp rt) events h in
      elim ends.0 [
        | locks g a e ↦ inl (rw e (Order.bought config buyer env.now, refl, buys g a))
        | denies x a e ↦ inl (rw e (Order.placed config timestamp, refl, lists_again x a))
      ]
  accepted-Proceeds env (Order.bought config buyer timestamp) continue rt events h =
      let k = handle-IsSettled env config buyer timestamp rt events h in
      inl (rw k.event (Order.settled config timestamp, refl, settles k.sold k.paid))
  accepted-Proceeds env order c rt events h = absurd (ground arith)
