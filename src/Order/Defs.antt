-- ===== src/Order/Defs.antt =====
-- `src/order/commands.rs`, `src/order/events.rs`, and the state and `apply` of
-- `src/order/aggregate.rs`.
use cqrs_account.Prelude.{ℕ, String, List, [], ◌∷◌}
use cqrs_account.Outcome.{Outcome, done, panic, ◌>>=◌, invalid_state_transition}
use cqrs_account.Types.{ByteArray32}
use cqrs_account.Account.Events.{AccountError}
use cqrs_account.Service.{AggregateError}

pub record OrderConfig : Type 0 where
  pub order_id : ByteArray32
  pub seller : String
  pub sell_asset : String
  pub sell_amount : ℕ
  pub buy_asset : String
  pub buy_amount : ℕ
  pub timestamp : ℕ

pub data OrderCommand : Type 0 where
  open_order : OrderConfig → OrderCommand
  continue : OrderCommand
  -- reason
  cancel : String → OrderCommand
  -- buyer, timestamp
  buy : String → ℕ → OrderCommand

pub data OrderEvent : Type 0 where
  initialized : OrderConfig → OrderEvent
  -- timestamp
  placed : ℕ → OrderEvent
  -- timestamp, reason
  cancelling : ℕ → String → OrderEvent
  -- timestamp
  cancelled : ℕ → OrderEvent
  -- buyer, timestamp
  buying : String → ℕ → OrderEvent
  -- timestamp
  bought : ℕ → OrderEvent
  -- timestamp, reason
  failed : ℕ → String → OrderEvent
  -- timestamp
  settled : ℕ → OrderEvent

pub data Order : Type 0 where
  uninitialized : Order
  initialized : OrderConfig → Order
  -- timestamp
  placed : OrderConfig → ℕ → Order
  -- reason, timestamp
  cancelling : OrderConfig → String → ℕ → Order
  -- timestamp, reason
  cancelled : OrderConfig → ℕ → String → Order
  -- buyer, timestamp
  buying : OrderConfig → String → ℕ → Order
  -- buyer, timestamp
  bought : OrderConfig → String → ℕ → Order
  -- timestamp, reason
  failed : OrderConfig → ℕ → String → Order
  -- timestamp
  settled : OrderConfig → ℕ → Order

pub data OrderError : Type 0 where
  invalid_state : String → OrderError
  account_error : AccountError → OrderError
  aggregate_error : AggregateError → OrderError

-- `Aggregate::apply` for `Order`; the last clause is `unreachable!`.
unfoldable pub apply : Order → OrderEvent → Outcome Order
apply Order.uninitialized (OrderEvent.initialized config) = done (Order.initialized config)
apply (Order.initialized config) (OrderEvent.placed timestamp) =
    done (Order.placed config timestamp)
apply (Order.placed config _) (OrderEvent.cancelling timestamp reason) =
    done (Order.cancelling config reason timestamp)
apply (Order.cancelling config reason _) (OrderEvent.cancelled timestamp) =
    done (Order.cancelled config timestamp reason)
apply (Order.placed config _) (OrderEvent.buying buyer timestamp) =
    done (Order.buying config buyer timestamp)
apply (Order.buying config buyer _) (OrderEvent.bought timestamp) =
    done (Order.bought config buyer timestamp)
apply (Order.buying config _ _) (OrderEvent.failed timestamp reason) =
    done (Order.failed config timestamp reason)
apply (Order.bought config _ _) (OrderEvent.settled timestamp) =
    done (Order.settled config timestamp)
apply (Order.buying config _ _) (OrderEvent.placed timestamp) = done (Order.placed config timestamp)
apply _ _ = panic invalid_state_transition

-- The framework loads an aggregate by applying its events in order.
unfoldable pub apply_all : Order → List OrderEvent → Outcome Order
apply_all order [] = done order
apply_all order (event ∷ events) = apply order event >>= λ order'. apply_all order' events
