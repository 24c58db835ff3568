-- ===== src/Order/Follow.antt =====
-- `OrderView::update` against the order aggregate.
use cqrs_account.Prelude.{subst, ◌≡◌, refl, String, ℕ, Option, some, List, [], ◌∷◌, arith}
use cqrs_account.Outcome
use cqrs_account.Outcome.{Outcome, ◌>>=◌, done, panic, Result, ok, err}
use cqrs_account.Types.{Platform, hex}
use cqrs_account.Order.Defs.{OrderConfig, OrderEvent, Order, apply, apply_all}
use cqrs_account.Order.View.{
  OrderState, initial, placed, cancelling, cancelled, buying, bought, failed, settled, OrderView,
  default, update, update_all,
}

module _ ⦃platform : Platform⦄ where
  pub record ShowsConfig (config : OrderConfig) (view : OrderView) : Type 0 where
    pub id : view.id ≡ hex config.order_id
    pub seller : view.seller ≡ config.seller
    pub sell_asset : view.sell_asset ≡ config.sell_asset
    pub sell_amount : view.sell_amount ≡ config.sell_amount
    pub buy_asset : view.buy_asset ≡ config.buy_asset
    pub buy_amount : view.buy_amount ≡ config.buy_amount
    pub create_time : view.create_time ≡ config.timestamp

  abbrev pub ShowsStatus : OrderConfig → OrderState → ℕ → OrderView → Type 0
  ShowsStatus config status timestamp view =
      ShowsConfig config view × (view.status ≡ status) × (view.update_time ≡ timestamp)

  -- What the view of an order should show: its sides from the time it is opened, its status and the
  -- time of the last step, the buyer while there is one, and why it was cancelled or has failed.
  abbrev pub Shows : Order → OrderView → Type 0
  Shows Order.uninitialized view = view ≡ default
  Shows (Order.initialized config) view = ShowsStatus config initial config.timestamp view
  Shows (Order.placed config timestamp) view = ShowsStatus config placed timestamp view
  Shows (Order.cancelling config reason timestamp) view =
      ShowsStatus config cancelling timestamp view × (view.reason ≡ some reason)
  Shows (Order.cancelled config timestamp reason) view =
      ShowsStatus config cancelled timestamp view × (view.reason ≡ some reason)
  Shows (Order.buying config buyer timestamp) view =
      ShowsStatus config buying timestamp view × (view.buyer ≡ some buyer)
  Shows (Order.bought config buyer timestamp) view =
      ShowsStatus config bought timestamp view × (view.buyer ≡ some buyer)
  Shows (Order.failed config timestamp reason) view =
      ShowsStatus config failed timestamp view × (view.reason ≡ some reason)
  Shows (Order.settled config timestamp) view =
      ShowsStatus config settled timestamp view × (view.settle_time ≡ some timestamp)

  keep :
      {config : OrderConfig} {view : OrderView} {buyer reason : Option String} {status : OrderState}
      {time : ℕ} {settle_time : Option ℕ}
      → ShowsConfig config view
      → ShowsConfig config (record view {
        buyer = buyer;
        reason = reason;
        status = status;
        update_time = time;
        settle_time = settle_time;
      })
  keep s = record {
    id = s.id;
    seller = s.seller;
    sell_asset = s.sell_asset;
    sell_amount = s.sell_amount;
    buy_asset = s.buy_asset;
    buy_amount = s.buy_amount;
    create_time = s.create_time;
  }

  becomes : (view : OrderView) {a b : Order} → done a ≡ done b → Shows a view → Shows b view
  becomes view {a = a} {b = b} h s =
      let e : a ≡ b = ground (arith, h) in subst (λ (o : Order). Shows o view) e s

  opened-Shows :
      (config : OrderConfig)
      → Shows (Order.initialized config) (update default (OrderEvent.initialized config))
  unfolding update
  opened-Shows config = (
    record {
      id = refl;
      seller = refl;
      sell_asset = refl;
      sell_amount = refl;
      buy_asset = refl;
      buy_amount = refl;
      create_time = refl;
    },
    refl,
    refl,
  )

  -- An event that applies takes the view from showing the order to showing the next state.
  update-Shows :
      (order order' : Order) (event : OrderEvent) (view : OrderView)
      → Shows order view
      → apply order event ≡ done order'
      → Shows order' (update view event)
  unfolding apply update
  update-Shows Order.uninitialized order' (OrderEvent.initialized config) view s h =
      becomes (update view (OrderEvent.initialized config)) h (rw s (opened-Shows config))
  update-Shows (Order.initialized config) order' (OrderEvent.placed ts) view s h =
      becomes (update view (OrderEvent.placed ts)) h (keep s.0, refl, refl)
  update-Shows (Order.placed config _) order' (OrderEvent.cancelling ts r) view s h =
      becomes (update view (OrderEvent.cancelling ts r)) h ((keep s.0, refl, refl), refl)
  update-Shows (Order.cancelling config reason _) order' (OrderEvent.cancelled ts) view s h =
      becomes (update view (OrderEvent.cancelled ts)) h ((keep s.0.0, refl, refl), s.1)
  update-Shows (Order.placed config _) order' (OrderEvent.buying buyer ts) view s h =
      becomes (update view (OrderEvent.buying buyer ts)) h ((keep s.0, refl, refl), refl)
  update-Shows (Order.buying config buyer _) order' (OrderEvent.bought ts) view s h =
      becomes (update view (OrderEvent.bought ts)) h ((keep s.0.0, refl, refl), s.1)
  update-Shows (Order.buying config _ _) order' (OrderEvent.failed ts r) view s h =
      becomes (update view (OrderEvent.failed ts r)) h ((keep s.0.0, refl, refl), refl)
  update-Shows (Order.bought config _ _) order' (OrderEvent.settled ts) view s h =
      becomes (update view (OrderEvent.settled ts)) h ((keep s.0.0, refl, refl), refl)
  update-Shows (Order.buying config _ _) order' (OrderEvent.placed ts) view s h =
      becomes (update view (OrderEvent.placed ts)) h (keep s.0.0, refl, refl)
  update-Shows order order' event view s h = absurd (ground arith)

  -- Over any events that the order can apply, the view goes from showing the order to showing the
  -- state that they lead to.
  pub order_view_follows :
      (order order' : Order) (events : List OrderEvent) (view : OrderView)
      → Shows order view
      → apply_all order events ≡ done order'
      → Shows order' (update_all view events)
  unfolding apply_all update_all
  order_view_follows order order' [] view s h = becomes view h s
  order_view_follows order order' (event ∷ events) view s h =
      let (next, e, k) = Outcome.>>=-eq-done (apply order event) (λ o. apply_all o events) h in
      order_view_follows next order' events (update view event)
        (update-Shows order next event view s e) k
