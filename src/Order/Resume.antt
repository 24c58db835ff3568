-- ===== src/Order/Resume.antt =====
-- A settlement that stops half way, and is continued.
use cqrs_account.Prelude.{
  string_eq, ℕ, ◌+◌, ◌≡◌, ◌≢◌, refl, sym, ◌∙◌, ap, String, List, [], ◌∷◌, arith, ◌⊎◌, inl, inr,
}
use cqrs_account.Outcome.{Result, ok, err}
use cqrs_account.Types.{Platform}
use cqrs_account.Account.Commands.{TransactionCommand}
use cqrs_account.Account.State.{Account, BankAccountState, in_service}
use cqrs_account.Account.Effect.{Effect}
use cqrs_account.Account.History.{wealth_of}
use cqrs_account.Service.{AccountService, Flow, returned, unwound, Runtime}
use cqrs_account.Service.Laws.{IsEventSourced}
use cqrs_account.Order.Defs.{OrderConfig, continue, OrderEvent, Order, OrderError}
use cqrs_account.Order.Handle.{Surroundings, Answer, and_then, handle}
use cqrs_account.Order.Machine.{sell_side, buy_side, handle-IsSettled}
use cqrs_account.Order.Sides.{Side, settle_elsewhere, settle-Side, settle-Settled}
use cqrs_account.Order.Laws.{IsReady, settled_wealth}

module _ (service : AccountService) (env : Surroundings) (config : OrderConfig) (buyer : String)
    (timestamp : ℕ) where
  abbrev pub attempt :
      Runtime service → Flow (Result (List OrderEvent) OrderError) × Runtime service
  attempt rt = handle service env (Order.bought config buyer timestamp) continue rt

  -- Attempts that return no events, one after the other, by an error or a panic: the order stays as it is.
  pub data Stopped : Runtime service → Runtime service → Type 0 where
    at_first : {rt : Runtime service} → Stopped rt rt
    by_error :
        {rt rt' : Runtime service} (e : OrderError)
        → (attempt rt).0 ≡ returned (err e)
        → Stopped (attempt rt).1 rt'
        → Stopped rt rt'
    by_panic :
        {rt rt' : Runtime service}
        → (attempt rt).0 ≡ unwound
        → Stopped (attempt rt).1 rt'
        → Stopped rt rt'

  -- What an attempt leaves is what the seller's side leaves, or what the buyer's side leaves after it.
  data Leaves (rt after : Runtime service) : Type 0 where
    at_seller : after ≡ (sell_side service config buyer rt).1 → Leaves rt after
    at_buyer :
        after ≡ (buy_side service config buyer (sell_side service config buyer rt).1).1
        → Leaves rt after

  and_then_splits :
      (answer : Answer service)
      (next : Runtime service → Flow (Result (List OrderEvent) OrderError) × Runtime service)
      → (and_then service answer next ≡ next answer.1)
        ⊎ ((and_then service answer next).1 ≡ answer.1)
  unfolding and_then
  and_then_splits (returned (ok tt), rt) next = inl refl
  and_then_splits (returned (err e), rt) next = inr refl
  and_then_splits (unwound, rt) next = inr refl

  attempt-Leaves : (rt : Runtime service) → Leaves rt (attempt rt).1
  unfolding handle
  attempt-Leaves rt =
      let last : Runtime service → Flow (Result (List OrderEvent) OrderError) × Runtime service =
        λ rt. (returned (ok (OrderEvent.settled timestamp ∷ [])), rt) in
      let sold = sell_side service config buyer rt in
      let bought = buy_side service config buyer sold.1 in
      let second : (and_then service bought last).1 ≡ bought.1 =
        elim (and_then_splits bought last) [
          | inl k ↦ ap (λ (x : Flow (Result (List OrderEvent) OrderError) × Runtime service). x.1) k
          | inr k ↦ k
        ] in
      elim (and_then_splits sold (λ rt. and_then service (buy_side service config buyer rt) last)) [
        | inr k ↦ at_seller k
        | inl k ↦ at_buyer (
            ap (λ (x : Flow (Result (List OrderEvent) OrderError) × Runtime service). x.1) k
            ∙ second)
      ]

module _ ⦃platform : Platform⦄ (service : AccountService) (load : String → service.World → Account)
    (es : IsEventSourced service load) where
  module _ (env : Surroundings) (config : OrderConfig) (buyer : String) (timestamp : ℕ)
      (start : Runtime service) (s t : BankAccountState)
      (r : IsReady service load es env config buyer timestamp start config.seller s
        config.sell_asset config.sell_amount config.buy_asset config.buy_amount)
      (q : IsReady service load es env config buyer timestamp start buyer t config.buy_asset
        config.buy_amount config.sell_asset config.sell_amount)
      (ne : config.seller ≢ buyer) where
    -- Between two attempts: each account may have been settled, and no other account has changed.
    record IsBetween (rt : Runtime service) : Type 0 where
      seller :
          Side service load es config.order_id config.seller buyer config.buy_asset
            config.buy_amount s rt
      paid :
          Side service load es config.order_id buyer config.seller config.sell_asset
            config.sell_amount t rt
      others :
          (other : String)
          → config.seller ≢ other
          → buyer ≢ other
          → load other rt.world ≡ load other start.world

    -- The account of the other side is where it was.
    sell_side-IsBetween :
        (rt : Runtime service) → IsBetween rt → IsBetween (sell_side service config buyer rt).1
    sell_side-IsBetween rt b =
        let away =
          settle_elsewhere service load es config.order_id config.seller buyer config.buy_asset
            config.buy_amount s r.valid r.fits r.new r.room rt in
        record {
          seller =
              settle-Side service load es config.order_id config.seller buyer config.buy_asset
                config.buy_amount s r.valid r.fits r.new r.room rt b.seller;
          paid = elim b.paid [
            | inl l ↦ inl (away buyer ne ∙ l)
            | inr (t', l, x) ↦ inr (t', away buyer ne ∙ l, x)
          ];
          others = λ other ns nb. away other ns ∙ b.others other ns nb;
        }

    buy_side-IsBetween :
        (rt : Runtime service) → IsBetween rt → IsBetween (buy_side service config buyer rt).1
    buy_side-IsBetween rt b =
        let away =
          settle_elsewhere service load es config.order_id buyer config.seller config.sell_asset
            config.sell_amount t q.valid q.fits q.new q.room rt in
        let back : buyer ≢ config.seller = λ e. ne (sym e) in
        record {
          seller = elim b.seller [
            | inl l ↦ inl (away config.seller back ∙ l)
            | inr (s', l, x) ↦ inr (s', away config.seller back ∙ l, x)
          ];
          paid =
              settle-Side service load es config.order_id buyer config.seller config.sell_asset
                config.sell_amount t q.valid q.fits q.new q.room rt b.paid;
          others = λ other ns nb. away other nb ∙ b.others other ns nb;
        }

    attempt-IsBetween :
        (rt : Runtime service)
        → IsBetween rt
        → IsBetween (attempt service env config buyer timestamp rt).1
    attempt-IsBetween rt b = elim (attempt-Leaves service env config buyer timestamp rt) [
      | at_seller e ↦ rw e (sell_side-IsBetween rt b)
      | at_buyer e ↦
          rw e (buy_side-IsBetween (sell_side service config buyer rt).1 (sell_side-IsBetween rt b))
    ]

    resumed-IsBetween :
        {rt rt' : Runtime service}
        → Stopped service env config buyer timestamp rt rt'
        → IsBetween rt
        → IsBetween rt'
    resumed-IsBetween at_first b = b
    resumed-IsBetween (by_error e h more) b = resumed-IsBetween more (attempt-IsBetween _ b)
    resumed-IsBetween (by_panic h more) b = resumed-IsBetween more (attempt-IsBetween _ b)

    abbrev pub settled_from : Runtime service → Runtime service
    settled_from rt = (attempt service env config buyer timestamp rt).1

    -- A settlement between two different accounts that both are valid and in service, hold the order's
    -- funds, have room for what they receive and are new to its id: when it returns its events after any
    -- attempts that ended in an error or a panic, it has settled each side once, whichever sides these
    -- attempts had settled: each
    -- account has the effect of its own settlement, together they own of each asset what they owned
    -- before the first attempt, and no other account has changed.
    pub settlement_resumes :
        (rt : Runtime service) (events : List OrderEvent)
        → Stopped service env config buyer timestamp start rt
        → (attempt service env config buyer timestamp rt).0 ≡ returned (ok events)
        → (s' : BankAccountState) × (t' : BankAccountState) × (load config.seller
              (settled_from rt).world
            ≡ in_service s')
          × (load buyer (settled_from rt).world ≡ in_service t')
          × Effect s 0 config.order_id
              (TransactionCommand.settle buyer config.buy_asset config.buy_amount)
              s'
          × Effect t 0 config.order_id
              (TransactionCommand.settle config.seller config.sell_asset config.sell_amount)
              t'
          × ((a : String) → wealth_of s' a + wealth_of t' a ≡ wealth_of s a + wealth_of t a)
          × ((other : String)
              → config.seller ≢ other
              → buyer ≢ other
              → load other (settled_from rt).world ≡ load other start.world)
    settlement_resumes rt events stopped h =
        let b =
          resumed-IsBetween stopped
            (record { seller = inl r.state; paid = inl q.state; others = λ other n m. refl }) in
        let d = handle-IsSettled service env config buyer timestamp rt events h in
        let (s', ls, xs) =
          settle-Settled service load es config.order_id config.seller buyer config.buy_asset
            config.buy_amount s r.valid r.fits r.new r.room rt b.seller d.sold in
        let rt₁ = (sell_side service config buyer rt).1 in
        let b₁ = sell_side-IsBetween rt b in
        let b₂ = buy_side-IsBetween rt₁ b₁ in
        let (t', lt, xt) =
          settle-Settled service load es config.order_id buyer config.seller config.sell_asset
            config.sell_amount t q.valid q.fits q.new q.room rt₁ b₁.paid d.paid in
        let others' =
          settle_elsewhere service load es config.order_id buyer config.seller config.sell_asset
            config.sell_amount t q.valid q.fits q.new q.room rt₁ in
        let world : (settled_from rt).world ≡ (buy_side service config buyer rt₁).1.world =
          ap (λ (x : Runtime service). x.world) d.rest in
        (
          s',
          t',
          ap (load config.seller) world ∙ others' config.seller (λ e. ne (sym e)) ∙ ls,
          ap (load buyer) world ∙ lt,
          xs,
          xt,
          (λ a. omega (
            arith,
            settled_wealth s s' config.order_id buyer config.sell_asset config.buy_asset
                config.sell_amount config.buy_amount r.holds xs a,
            settled_wealth t t' config.order_id config.seller config.buy_asset config.sell_asset
                config.buy_amount config.sell_amount q.holds xt a,
          )),
          (λ other ns nb. ap (load other) world ∙ b₂.others other ns nb),
        )
