-- ===== src/Order/View.antt =====
-- `OrderView` of `src/order/queries.rs`.
use cqrs_account.Prelude.{ℕ, String, Option, none, some, List, [], ◌∷◌}
use cqrs_account.Types.{Platform, hex}
use cqrs_account.Order.Defs.{OrderEvent}

pub data OrderState : Type 0 where
  initial placed cancelling cancelled buying bought failed settled : OrderState

pub record OrderView : Type 0 where
  pub id : String
  pub buyer : Option String
  pub seller : String
  pub sell_asset : String
  pub sell_amount : ℕ
  pub buy_asset : String
  pub buy_amount : ℕ
  pub status : OrderState
  pub reason : Option String
  pub create_time : ℕ
  pub update_time : ℕ
  pub settle_time : Option ℕ

abbrev pub default : OrderView
default = record {
  id = "";
  buyer = none;
  seller = "";
  sell_asset = "";
  sell_amount = 0;
  buy_asset = "";
  buy_amount = 0;
  status = initial;
  reason = none;
  create_time = 0;
  update_time = 0;
  settle_time = none;
}

module _ ⦃platform : Platform⦄ where
  unfoldable pub update : OrderView → OrderEvent → OrderView
  update view (OrderEvent.initialized config) = record view {
    id = hex config.order_id;
    seller = config.seller;
    sell_asset = config.sell_asset;
    sell_amount = config.sell_amount;
    buy_asset = config.buy_asset;
    buy_amount = config.buy_amount;
    status = initial;
    create_time = config.timestamp;
    update_time = config.timestamp;
  }
  update view (OrderEvent.placed timestamp) = record view {
    update_time = timestamp;
    status = placed;
  }
  update view (OrderEvent.cancelling timestamp reason) = record view {
    update_time = timestamp;
    reason = some reason;
    status = cancelling;
  }
  update view (OrderEvent.cancelled timestamp) = record view {
    update_time = timestamp;
    status = cancelled;
  }
  update view (OrderEvent.buying buyer timestamp) = record view {
    buyer = some buyer;
    update_time = timestamp;
    status = buying;
  }
  update view (OrderEvent.bought timestamp) = record view {
    update_time = timestamp;
    status = bought;
  }
  update view (OrderEvent.failed timestamp reason) = record view {
    update_time = timestamp;
    reason = some reason;
    status = failed;
  }
  update view (OrderEvent.settled timestamp) = record view {
    update_time = timestamp;
    settle_time = some timestamp;
    status = settled;
  }

  unfoldable pub update_all : OrderView → List OrderEvent → OrderView
  update_all view [] = view
  update_all view (event ∷ events) = update_all (update view event) events
