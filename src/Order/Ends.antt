-- ===== src/Order/Ends.antt =====
-- What `Continue` makes of the result of `lock_funds`.
use cqrs_account.Prelude.{◌≡◌, refl, List, [], ◌∷◌, arith}
use cqrs_account.Outcome.{ok, err}
use cqrs_account.Account.Events.{AccountError}
use cqrs_account.Service
use cqrs_account.Service.{AccountService, returned, unwound, TransactionGuard}
use cqrs_account.Order.Defs.{OrderEvent, account_error, aggregate_error, invalid_state}
use cqrs_account.Order.Handle.{Locked, after_lock}

module _ (service : AccountService) where
  -- How a call of `lock_funds` ended, as far as `Continue` tells.
  pub data LockEnds (event : OrderEvent) (refusal : AccountError → OrderEvent)
      (locked : Locked service) (events : List OrderEvent) : Type 0 where
    locks :
        (g : TransactionGuard)
        → locked.0 ≡ returned (ok g)
        → events ≡ event ∷ []
        → LockEnds event refusal locked events
    denies :
        (e : AccountError)
        → locked.0 ≡ returned (err (account_error e))
        → events ≡ refusal e ∷ []
        → LockEnds event refusal locked events

  pub after_lock-LockEnds :
      (event : OrderEvent) (refusal : AccountError → OrderEvent) (locked : Locked service)
      (events : List OrderEvent)
      → (after_lock service event refusal locked).0 ≡ returned (ok events)
      → LockEnds event refusal locked events
        × ((after_lock service event refusal locked).1.world ≡ locked.1.world)
        × ((after_lock service event refusal locked).1.spawned ≡ locked.1.spawned)
  unfolding after_lock Service.commit Service.drop
  after_lock-LockEnds event refusal (returned (ok g), rt) events h =
      (locks g refl (ground arith), refl, refl)
  after_lock-LockEnds event refusal (returned (err (account_error e)), rt) events h =
      (denies e refl (ground arith), refl, refl)
  after_lock-LockEnds event refusal (returned (err (aggregate_error e)), rt) events h =
      absurd (ground arith)
  after_lock-LockEnds event refusal (returned (err (invalid_state e)), rt) events h =
      absurd (ground arith)
  after_lock-LockEnds event refusal (unwound, rt) events h = absurd (ground arith)
