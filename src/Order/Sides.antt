-- ===== src/Order/Sides.antt =====
-- One side of a settlement, however often it is tried.
use cqrs_account.Prelude.{ℕ, ◌+◌, ◌<◌, ◌≡◌, ◌≢◌, ◌∙◌, String, none, ◌⊎◌, inl, inr}
use cqrs_account.Outcome.{ok, u64_mod}
use cqrs_account.Types.{Platform, ByteArray32}
use cqrs_account.Account.Commands.{AccountCommand, TransactionCommand}
use cqrs_account.Account.Commands.Build as Command
use cqrs_account.Account.State.{Account, BankAccountState, in_service, balance}
use cqrs_account.Account.State.Valid.{IsValid}
use cqrs_account.Account.Effect.{Effect}
use cqrs_account.Account.Replay.{known}
use cqrs_account.Service.{AccountService, returned, Runtime}
use cqrs_account.Service.Laws.{IsEventSourced}
use cqrs_account.Service.Effects.{Committed-Effect, ending, succeeds, refuses, breaks, panics}
use cqrs_account.Order.Handle.{settle}
use cqrs_account.Order.Steps.{settle_ok, settle_again}

module _ ⦃platform : Platform⦄ (service : AccountService) (load : String → service.World → Account)
    (es : IsEventSourced service load) (order_id : ByteArray32) (id pair asset : String)
    (amount : ℕ) (s : BankAccountState) where
  -- The account has been settled, once.
  abbrev pub Settled : Runtime service → Type 0
  Settled rt =
      (s' : BankAccountState) × (load id rt.world ≡ in_service s')
      × Effect s 0 order_id (TransactionCommand.settle pair asset amount) s'

  -- The account has not been settled, or once.
  abbrev pub Side : Runtime service → Type 0
  Side rt = (load id rt.world ≡ in_service s) ⊎ Settled rt

  module _ (v : IsValid s) (f : 0 + s.processed_transactions.ttl < u64_mod)
      (new : known s order_id ≡ none) (room : balance asset s + amount < u64_mod)
      (rt : Runtime service) where
    -- No other account is touched.
    pub settle_elsewhere :
        (other : String)
        → id ≢ other
        → load other (settle service order_id id pair asset amount rt).1.world ≡ load other rt.world
    unfolding settle
    settle_elsewhere other ne =
        es.elsewhere id other (Command.settle order_id pair asset amount) rt.world ne

    -- However a settlement ends, the account has been settled at most once.
    pub settle-Side : Side rt → Side (settle service order_id id pair asset amount rt).1
    unfolding settle Command.settle
    settle-Side (inr (s', l, x)) = inr (
      s',
      settle_again service load es order_id id pair asset amount rt s' l 0 x.known.inserted id ∙ l,
      x,
    )
    settle-Side (inl l) =
        let c = TransactionCommand.settle pair asset amount in
        let command = AccountCommand.transaction 0 order_id c in
        elim (ending (service.execute id command rt.world).0) [
          | succeeds r ↦ inr (
              Committed-Effect service load es id rt.world s 0 order_id c l v f room
                (es.on_success id command rt.world r))
          | refuses e r ↦ inl ((es.on_user_error id command rt.world e r).1 ∙ l)
          | breaks e r ↦ inl (es.on_framework_error id command rt.world e r ∙ l)
          | panics r ↦ elim (es.on_panic id command rt.world r) [
            | inl same ↦ inl (same ∙ l)
            | inr committed ↦
                inr
                  (Committed-Effect service load es id rt.world s 0 order_id c l v f room committed)
          ]
        ]

    -- A settlement that returns has settled the account, now or before.
    pub settle-Settled :
        Side rt
        → (settle service order_id id pair asset amount rt).0 ≡ returned (ok tt)
        → Settled (settle service order_id id pair asset amount rt).1
    settle-Settled (inr (s', l, x)) h = (
      s',
      settle_again service load es order_id id pair asset amount rt s' l 0 x.known.inserted id ∙ l,
      x,
    )
    settle-Settled (inl l) h =
        let (s', l', x, _) =
          settle_ok service load es order_id id pair asset amount rt s l v f new room h in
        (s', l', x)
