-- ===== src/Order/Steps.antt =====
-- The calls of an order's services, each against the account that it works on.
use cqrs_account.Prelude.{
  string_eq, ℕ, ◌+◌, ◌<◌, ◌≡◌, ◌≢◌, refl, ◌∙◌, String, List, arith, ◌⊎◌, inl, inr, none, some, ap,
}
use cqrs_account.Outcome.{ok, err, u64_mod}
use cqrs_account.BTreeMap
use cqrs_account.Types.{Platform, ByteArray32}
use cqrs_account.Account.Commands.{AccountCommand, TransactionCommand}
use cqrs_account.Account.Commands.Build as Command
use cqrs_account.Account.Events.{duplicate_transaction, duplicate_lock, lock_not_found}
use cqrs_account.Account.State.{Account, BankAccountState, in_service, balance}
use cqrs_account.Account.State.Valid.{IsValid}
use cqrs_account.Account.Handle.{handle, handle_transaction}
use cqrs_account.Account.Effect.{Effect, lock}
use cqrs_account.Account.Replay.{known, known_refused}
use cqrs_account.Service.{
  AccountService, AggregateError, user_error, Executed, succeeded, failed, panicked, returned, Undo,
  TransactionGuard, Runtime, run_undo,
}
use cqrs_account.Service.Laws.{IsEventSourced}
use cqrs_account.Service.Effects.{executed-Effect, refused, refused_unchanged}
use cqrs_account.Transfer.Failures.{everywhere, failed_unchanged}
use cqrs_account.Order.Defs.{OrderError}
use cqrs_account.Order.Handle.{lock_funds, lock_result, undo_and_tell, settle, settle_result}

settle_result-ok :
    (r : Executed)
    → settle_result r ≡ returned (ok tt)
    → (r ≡ succeeded) ⊎ ((t : ℕ) × (r ≡ failed (user_error (duplicate_transaction t))))
unfolding settle_result
settle_result-ok succeeded h = inl refl
settle_result-ok (failed (user_error (duplicate_transaction t))) h = inr (t, refl)
settle_result-ok panicked h = absurd (ground arith)
settle_result-ok (failed e) h = absurd (ground arith)

-- What a call of `lock_funds` that returns its guard has met and left.
record IsLocked {W : Type 0} (r : Executed) (w w' : W) (q q' : List Undo) : Type 0 where
  ends : (r ≡ succeeded) ⊎ (r ≡ failed (user_error duplicate_lock))
  world : w' ≡ w
  spawned : q' ≡ q

module _ (service : AccountService) where
  undo_and_tell-not_ok :
      (undo : Undo) (e : AggregateError) (rt : Runtime service) (g : TransactionGuard)
      → (undo_and_tell service undo e rt).0 ≢ returned (ok g)
  unfolding undo_and_tell
  undo_and_tell-not_ok undo e rt g h = ground arith

  lock_result-IsLocked :
      (undo : Undo) (rt : Runtime service) (r : Executed) (g : TransactionGuard)
      → (lock_result service undo rt r).0 ≡ returned (ok g)
      → IsLocked r rt.world
          (lock_result service undo rt r).1.world
          rt.spawned
          (lock_result service undo rt r).1.spawned
  unfolding lock_result
  lock_result-IsLocked undo rt succeeded g h = record {
    ends = inl refl;
    world = refl;
    spawned = refl;
  }
  lock_result-IsLocked undo rt (failed (user_error duplicate_lock)) g h = record {
    ends = inr refl;
    world = refl;
    spawned = refl;
  }
  lock_result-IsLocked undo rt panicked g h = absurd (ground arith)
  lock_result-IsLocked undo rt (failed e) g h = absurd (undo_and_tell-not_ok undo e rt g h)

  -- A call of `lock_funds` that returns an error has run its undo.
  record IsUndone (undo : Undo) (r : Executed) (w w' : service.World) (q q' : List Undo)
      : Type 0 where
    ends : (e : AggregateError) × (r ≡ failed e)
    world : w' ≡ (run_undo service undo w).1
    spawned : q' ≡ q

  lock_result-IsUndone :
      (undo : Undo) (rt : Runtime service) (r : Executed) (e : OrderError)
      → (lock_result service undo rt r).0 ≡ returned (err e)
      → IsUndone undo r rt.world
          (lock_result service undo rt r).1.world
          rt.spawned
          (lock_result service undo rt r).1.spawned
  unfolding lock_result undo_and_tell
  lock_result-IsUndone undo rt succeeded e h = absurd (ground arith)
  lock_result-IsUndone undo rt (failed (user_error duplicate_lock)) e h = absurd (ground arith)
  lock_result-IsUndone undo rt panicked e h = absurd (ground arith)
  lock_result-IsUndone undo rt (failed e') e h = record {
    ends = (e', refl);
    world = refl;
    spawned = refl;
  }

module _ ⦃platform : Platform⦄ (service : AccountService) (load : String → service.World → Account)
    (es : IsEventSourced service load) (order_id : ByteArray32) (id : String) where
  free_lock :
      (s : BankAccountState) (ts : ℕ) (asset : String) (amount : ℕ)
      → lock s order_id ≡ none
      → handle_transaction s ts order_id (TransactionCommand.lock_funds asset amount)
        ≢ err duplicate_lock
  unfolding handle_transaction BTreeMap.contains_key
  free_lock s ts asset amount h d = ground arith

  -- A lock under a new id that returns its guard has locked the funds.
  pub lock_ok :
      (asset : String) (amount ts : ℕ) (rt : Runtime service) (s : BankAccountState)
      (g : TransactionGuard)
      → load id rt.world ≡ in_service s
      → IsValid s
      → ts + s.processed_transactions.ttl < u64_mod
      → lock s order_id ≡ none
      → let out = lock_funds service order_id id asset amount ts rt in
        out.0 ≡ returned (ok g)
        → (s' : BankAccountState) × (load id out.1.world ≡ in_service s')
          × Effect s ts order_id (TransactionCommand.lock_funds asset amount) s'
          × (out.1.spawned ≡ rt.spawned)
          × ((other : String) → id ≢ other → load other out.1.world ≡ load other rt.world)
  unfolding lock_funds Command.lock_funds
  lock_ok asset amount ts rt s g l v f free h =
      let c = TransactionCommand.lock_funds asset amount in
      let undo : Undo = record { account = id; command = Command.unlock_funds order_id } in
      let run = service.execute id (AccountCommand.transaction ts order_id c) rt.world in
      let k = lock_result-IsLocked service undo (record rt { world = run.1 }) run.0 g h in
      elim k.ends [
        | inl r ↦
            let (s', l', x) =
              executed-Effect service load es id rt.world s ts order_id c l v f tt r in
            (
              s',
              ap (load id) k.world ∙ l',
              x,
              k.spawned,
              (λ other ne.
                  ap (load other) k.world
                  ∙ es.elsewhere id other (AccountCommand.transaction ts order_id c) rt.world ne),
            )
        | inr r ↦ absurd (
            free_lock s ts asset amount free
              (refused service load es id rt.world s ts order_id c duplicate_lock l r))
      ]

  no_lock :
      (s : BankAccountState)
      → lock s order_id ≡ none
      → handle_transaction s 0 order_id TransactionCommand.unlock_funds ≡ err lock_not_found
  unfolding handle_transaction
  no_lock s h = ground arith

  -- A lock under a new id that returns an error has changed no account and spawned nothing.
  pub lock_failed :
      (asset : String) (amount ts : ℕ) (rt : Runtime service) (s : BankAccountState)
      (e : OrderError)
      → load id rt.world ≡ in_service s
      → lock s order_id ≡ none
      → let out = lock_funds service order_id id asset amount ts rt in
        out.0 ≡ returned (err e)
        → ((other : String) → load other out.1.world ≡ load other rt.world)
          × (out.1.spawned ≡ rt.spawned)
  unfolding lock_funds Command.lock_funds Command.unlock_funds run_undo handle
  lock_failed asset amount ts rt s e l free h =
      let c = AccountCommand.transaction ts order_id (TransactionCommand.lock_funds asset amount) in
      let u = AccountCommand.transaction 0 order_id TransactionCommand.unlock_funds in
      let undo : Undo = record { account = id; command = u } in
      let run = service.execute id c rt.world in
      let k = lock_result-IsUndone service undo (record rt { world = run.1 }) run.0 e h in
      let (e', r) = k.ends in
      let first = failed_unchanged service load es id c rt.world e' r in
      let second =
        refused_unchanged service load es id run.1 u lock_not_found
          (rw (first, l) (no_lock s free)) in
      (
        λ other.
            ap (load other) k.world
            ∙ everywhere service load es id u run.1 second other
            ∙ everywhere service load es id c rt.world first other,
        k.spawned,
      )

  module _ (pair asset : String) (amount : ℕ) (rt : Runtime service) (s : BankAccountState)
      (l : load id rt.world ≡ in_service s) where
    -- A settlement of a new id that returns has had its effect on the account.
    pub settle_ok :
        IsValid s
        → 0 + s.processed_transactions.ttl < u64_mod
        → known s order_id ≡ none
        → balance asset s + amount < u64_mod
        → (settle service order_id id pair asset amount rt).0 ≡ returned (ok tt)
        → (s' : BankAccountState) × (load id
              (settle service order_id id pair asset amount rt).1.world
            ≡ in_service s')
          × Effect s 0 order_id (TransactionCommand.settle pair asset amount) s'
          × ((other : String)
              → id ≢ other
              → load other (settle service order_id id pair asset amount rt).1.world
                ≡ load other rt.world)
    unfolding settle Command.settle handle_transaction
    settle_ok v f new room h =
        let c = TransactionCommand.settle pair asset amount in
        let run = service.execute id (AccountCommand.transaction 0 order_id c) rt.world in
        elim (settle_result-ok run.0 h) [
          | inl r ↦
              let (s', l', x) =
                executed-Effect service load es id rt.world s 0 order_id c l v f room r in
              (
                s',
                l',
                x,
                (λ other ne.
                    es.elsewhere id other (AccountCommand.transaction 0 order_id c) rt.world ne),
              )
          | inr (t, r) ↦ absurd (
              ground (
                arith,
                refused service load es id rt.world s 0 order_id c (duplicate_transaction t) l r,
              ))
        ]

    -- A settlement of an id that the account knows changes no account.
    pub settle_again :
        (t : ℕ)
        → known s order_id ≡ some t
        → (other : String)
        → load other (settle service order_id id pair asset amount rt).1.world ≡ load other rt.world
    unfolding settle Command.settle handle
    settle_again t k other =
        let c =
          AccountCommand.transaction 0 order_id (TransactionCommand.settle pair asset amount) in
        everywhere service load es id c rt.world
          (refused_unchanged service load es id rt.world c (duplicate_transaction t) (
            rw l
              (known_refused s 0 t order_id (TransactionCommand.settle pair asset amount) refl k)))
          other
