-- ===== src/Order/Laws.antt =====
-- What the steps of an order do to the accounts of its seller and its buyer.
use cqrs_account.Prelude.{
  string_eq, ℕ, ◌+◌, ◌<◌, ◌≡◌, ◌≢◌, sym, ◌∙◌, String, List, arith, none, some, ap,
}
use cqrs_account.Outcome.{Result, ok, u64_mod}
use cqrs_account.Types.{Platform, ByteArray32}
use cqrs_account.Account.Commands.{TransactionCommand}
use cqrs_account.Account.State.{Account, BankAccountState, in_service, balance}
use cqrs_account.Account.State.Valid.{IsValid, at}
use cqrs_account.Account.Effect.{Effect, lock}
use cqrs_account.Account.History.{wealth_of}
use cqrs_account.Account.Replay.{known}
use cqrs_account.Service.{AccountService, Flow, returned, Runtime}
use cqrs_account.Service.Laws.{IsEventSourced}
use cqrs_account.Order.Defs.{OrderConfig, continue, OrderEvent, Order, OrderError}
use cqrs_account.Order.Handle.{Surroundings, handle}
use cqrs_account.Order.Machine.{sell_side, buy_side, handle-IsSettled}
use cqrs_account.Order.Steps.{settle_ok, settle_again}

-- A settlement takes what the lock held, and gives the amount received.
pub settled_wealth :
    ⦃platform : Platform⦄ (s s' : BankAccountState) (order_id : ByteArray32)
    (pair given got : String) (gives gets : ℕ)
    → lock s order_id ≡ some (record { asset = given; amount = gives })
    → Effect s 0 order_id (TransactionCommand.settle pair got gets) s'
    → (a : String) → wealth_of s' a + at given gives a ≡ wealth_of s a + at got gets a
settled_wealth s s' order_id pair given got gives gets h x a =
    ground (arith, x.available a, x.held a, h)

module _ ⦃platform : Platform⦄ (service : AccountService) (load : String → service.World → Account)
    (es : IsEventSourced service load) (env : Surroundings) (config : OrderConfig) (buyer : String)
    (timestamp : ℕ) (rt : Runtime service) where
  -- What a settlement finds in an account: it is valid and in service, it does not know the order's
  -- id as a transaction, the id holds `gives` of the asset `given`, and it has room for `gets` of
  -- the asset `got`. The timestamp that `AccountCommand::settle` passes is 0.
  pub record IsReady (account : String) (s : BankAccountState) (given : String) (gives : ℕ)
      (got : String) (gets : ℕ) : Type 0 where
    pub state : load account rt.world ≡ in_service s
    pub valid : IsValid s
    pub fits : 0 + s.processed_transactions.ttl < u64_mod
    pub new : known s config.order_id ≡ none
    pub holds : lock s config.order_id ≡ some (record { asset = given; amount = gives })
    pub room : balance got s + gets < u64_mod

  abbrev pub settlement : Flow (Result (List OrderEvent) OrderError) × Runtime service
  settlement = handle service env (Order.bought config buyer timestamp) continue rt

  -- The settlement of an order between two different accounts that both are valid and in service, hold
  -- its funds, have room for what they receive and are new to its id: when it returns its events, it
  -- has swapped the funds: each account has the effect of its own settlement, together they
  -- own of each asset what they owned before, and no other account has changed.
  pub settlement_swaps :
      (s t : BankAccountState) (events : List OrderEvent)
      → IsReady config.seller s config.sell_asset config.sell_amount config.buy_asset
          config.buy_amount
      → IsReady buyer t config.buy_asset config.buy_amount config.sell_asset config.sell_amount
      → config.seller ≢ buyer
      → settlement.0 ≡ returned (ok events)
      → (s' : BankAccountState) × (t' : BankAccountState) × (load config.seller settlement.1.world
          ≡ in_service s')
        × (load buyer settlement.1.world ≡ in_service t')
        × Effect s 0 config.order_id
            (TransactionCommand.settle buyer config.buy_asset config.buy_amount)
            s'
        × Effect t 0 config.order_id
            (TransactionCommand.settle config.seller config.sell_asset config.sell_amount)
            t'
        × ((a : String) → wealth_of s' a + wealth_of t' a ≡ wealth_of s a + wealth_of t a)
        × ((other : String)
            → config.seller ≢ other
            → buyer ≢ other
            → load other settlement.1.world ≡ load other rt.world)
  settlement_swaps s t events r q ne h =
      let d = handle-IsSettled service env config buyer timestamp rt events h in
      let (s', ls, xs, others) =
        settle_ok service load es config.order_id config.seller buyer config.buy_asset
          config.buy_amount rt s r.state r.valid r.fits r.new r.room d.sold in
      let rt₁ = (sell_side service config buyer rt).1 in
      let (t', lt, xt, others') =
        settle_ok service load es config.order_id buyer config.seller config.sell_asset
          config.sell_amount rt₁ t (others buyer ne ∙ q.state) q.valid q.fits q.new q.room d.paid in
      let world : settlement.1.world ≡ (buy_side service config buyer rt₁).1.world =
        ap (λ (x : Runtime service). x.world) d.rest in
      (
        s',
        t',
        ap (load config.seller) world ∙ others' config.seller (λ e. ne (sym e)) ∙ ls,
        ap (load buyer) world ∙ lt,
        xs,
        xt,
        (λ a. omega (
          arith,
          settled_wealth s s' config.order_id buyer config.sell_asset config.buy_asset
              config.sell_amount config.buy_amount r.holds xs a,
          settled_wealth t t' config.order_id config.seller config.buy_asset config.sell_asset
              config.buy_amount config.sell_amount q.holds xt a,
        )),
        (λ other ns nb. ap (load other) world ∙ others' other nb ∙ others other ns),
      )

  -- The settlement of an order that its seller has bought, from a seller that is valid and in service,
  -- holds the order's funds, has room for the payment and is new to its id, when it returns its events: the account has lost
  -- what it sold and gained what it was to pay.
  pub self_settlement_gains :
      (s : BankAccountState) (events : List OrderEvent)
      → IsReady config.seller s config.sell_asset config.sell_amount config.buy_asset
          config.buy_amount
      → config.seller ≡ buyer
      → settlement.0 ≡ returned (ok events)
      → (s' : BankAccountState) × (load config.seller settlement.1.world ≡ in_service s')
        × ((a : String)
            → wealth_of s' a + at config.sell_asset config.sell_amount a
              ≡ wealth_of s a + at config.buy_asset config.buy_amount a)
  self_settlement_gains s events r same h =
      let d = handle-IsSettled service env config buyer timestamp rt events h in
      let (s', ls, xs, others) =
        settle_ok service load es config.order_id config.seller buyer config.buy_asset
          config.buy_amount rt s r.state r.valid r.fits r.new r.room d.sold in
      let rt₁ = (sell_side service config buyer rt).1 in
      let again =
        settle_again service load es config.order_id buyer config.seller config.sell_asset
          config.sell_amount rt₁ s' (ap (λ (a : String). load a rt₁.world) (sym same) ∙ ls) 0
          xs.known.inserted in
      (
        s',
        ap (λ (x : Runtime service). load config.seller x.world) d.rest ∙ again config.seller ∙ ls,
        settled_wealth s s' config.order_id buyer config.sell_asset config.buy_asset
            config.sell_amount config.buy_amount r.holds xs,
      )
