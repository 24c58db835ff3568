-- ===== src/Order/Cancel.antt =====
-- The last step of an order that is cancelled.
use cqrs_account.Prelude.{
  string_eq, ℕ, ◌+◌, ◌<◌, ◌≡◌, ◌≢◌, refl, String, List, [], ◌∷◌, arith, none, some, beq_refl,
}
use cqrs_account.Outcome.{Result, ok, u64_mod}
use cqrs_account.Types.{Platform, ByteArray32, byte_array32_eq}
use cqrs_account.Account.Commands.{AccountCommand, TransactionCommand}
use cqrs_account.Account.Commands.Build as Command
use cqrs_account.Account.Events.Build as Event
use cqrs_account.Account.State.{Account, BankAccountState, in_service, balance}
use cqrs_account.Account.State.Valid.{IsValid, at}
use cqrs_account.Account.Handle.{handle_transaction}
use cqrs_account.Account.Effect.{Fits, lock}
use cqrs_account.Account.History.{wealth_of}
use cqrs_account.Service.{AccountService, Flow, returned, Runtime}
use cqrs_account.Service.Laws.{IsEventSourced}
use cqrs_account.Service.Effects.{executed-Effect}
use cqrs_account.Service.Available.{IsAvailable, executed_succeeds}
use cqrs_account.Order.Defs.{OrderConfig, continue, OrderEvent, Order, OrderError}
use cqrs_account.Order.Handle.{Surroundings, unlock_funds, unlock_result, and_then, handle}

unlock_accepted :
    ⦃platform : Platform⦄ (s : BankAccountState) (id : ByteArray32) (asset : String) (amount : ℕ)
    → lock s id ≡ some (record { asset = asset; amount = amount })
    → handle_transaction s 0 id TransactionCommand.unlock_funds
      ≡ ok (Event.funds_unlocked id 0 asset amount ∷ [])
unfolding handle_transaction
unlock_accepted s id asset amount h = ground arith

module _ ⦃platform : Platform⦄ (service : AccountService) (load : String → service.World → Account)
    (es : IsEventSourced service load) (available : IsAvailable service load) (env : Surroundings)
    (config : OrderConfig) (reason : String) (timestamp : ℕ) (rt : Runtime service) where
  abbrev pub cancellation : Flow (Result (List OrderEvent) OrderError) × Runtime service
  cancellation = handle service env (Order.cancelling config reason timestamp) continue rt

  -- What a cancelled order leaves: its event, and the seller's account `s'` with the funds in hand that
  -- the lock held, and no lock of the order; no other account has changed, and nothing is spawned.
  pub record IsReturned (s : BankAccountState) : Type 0 where
    pub result : cancellation.0 ≡ returned (ok (OrderEvent.cancelled timestamp ∷ []))
    pub state' : BankAccountState
    pub loaded : load config.seller cancellation.1.world ≡ in_service state'
    pub unlocked : lock state' config.order_id ≡ none
    pub balances :
        (a : String) → balance a state' ≡ balance a s + at config.sell_asset config.sell_amount a
    pub owned : (a : String) → wealth_of state' a ≡ wealth_of s a
    pub others :
        (other : String)
        → config.seller ≢ other
        → load other cancellation.1.world ≡ load other rt.world
    pub quiet : cancellation.1.spawned ≡ rt.spawned

  -- `Continue` on an order that is being cancelled, where its seller is valid and in service, has the
  -- order's funds locked under its id and room for them, while the account service is available: it
  -- returns the event, and the seller has the funds back.
  pub cancel-IsReturned :
      (s : BankAccountState)
      → load config.seller rt.world ≡ in_service s
      → IsValid s
      → 0 + s.processed_transactions.ttl < u64_mod
      → lock s config.order_id
        ≡ some (record { asset = config.sell_asset; amount = config.sell_amount })
      → balance config.sell_asset s + config.sell_amount < u64_mod
      → IsReturned s
  unfolding handle and_then unlock_funds unlock_result Command.unlock_funds
  cancel-IsReturned s l v f held room =
      let c = TransactionCommand.unlock_funds in
      let fits : Fits s config.order_id c = rw held room in
      let given =
        executed_succeeds service load available config.seller rt.world s 0 config.order_id c _ l v
          f fits (unlock_accepted s config.order_id config.sell_asset config.sell_amount held) in
      let (s', l', x) =
        executed-Effect service load es config.seller rt.world s 0 config.order_id c l v f fits
          given in
      record {
        result = rw (given, unlock_result, and_then) refl;
        state' = s';
        loaded = rw (given, unlock_result, and_then) l';
        unlocked = ground (arith, x.locks config.order_id, beq_refl config.order_id);
        balances = λ a. ground (arith, x.available a, held);
        owned = λ a. ground (arith, x.available a, x.held a, held);
        others = λ other ne.
            rw (given, unlock_result, and_then)
              (es.elsewhere config.seller other (AccountCommand.transaction 0 config.order_id c)
                rt.world ne);
        quiet = rw (given, unlock_result, and_then) refl;
      }
