-- ===== src/Transfer/Steps.antt =====
-- The debit and the credit of a transfer, each against the account that it works on.
use cqrs_account.Prelude.{
  string_eq, ℕ, ◌+◌, ◌<◌, ◌≡◌, ◌≢◌, refl, ◌∙◌, String, List, arith, ◌⊎◌, inl, inr, none, ap,
}
use cqrs_account.Outcome.{ok, err, u64_mod}
use cqrs_account.Types.{Platform, ByteArray32}
use cqrs_account.Account.Commands.{AccountCommand, TransactionCommand}
use cqrs_account.Account.Commands.Build as Command
use cqrs_account.Account.Events.{duplicate_transaction}
use cqrs_account.Account.State.{Account, BankAccountState, in_service, balance}
use cqrs_account.Account.State.Valid.{IsValid}
use cqrs_account.Account.Handle.{handle_transaction}
use cqrs_account.Account.Effect.{Effect}
use cqrs_account.Account.Replay.{known}
use cqrs_account.Service
use cqrs_account.Service.{
  AccountService, AggregateError, user_error, framework_error, Executed, succeeded, failed,
  panicked, Flow, returned, unwound, Undo, TransactionGuard, Runtime, run_undo,
}
use cqrs_account.Service.Laws.{IsEventSourced}
use cqrs_account.Service.Effects.{executed-Effect, refused}
use cqrs_account.Transfer.Defs.{TransferError}
use cqrs_account.Transfer.Handle.{debit, credit, guarded, undo_and_fail}

-- What a guarded call tells when it returns a guard.
pub record IsGuarded {W : Type 0} (undo : Undo) (r : Executed) (w w' : W) (q q' : List Undo)
    (g : TransactionGuard) : Type 0 where
  pub ends : (r ≡ succeeded) ⊎ ((t : ℕ) × (r ≡ failed (user_error (duplicate_transaction t))))
  pub world : w' ≡ w
  pub spawned : q' ≡ q
  pub guard : g ≡ Service.new undo

module _ (service : AccountService) where
  undo_and_fail-not_ok :
      (undo : Undo) (e : AggregateError) (rt : Runtime service) (g : TransactionGuard)
      → (undo_and_fail service undo e rt).0 ≢ returned (ok g)
  unfolding undo_and_fail
  undo_and_fail-not_ok undo e rt g h = ground arith

  pub guarded-IsGuarded :
      (undo : Undo) (rt : Runtime service) (r : Executed) (g : TransactionGuard)
      → (guarded service undo rt r).0 ≡ returned (ok g)
      → IsGuarded undo r rt.world
          (guarded service undo rt r).1.world
          rt.spawned
          (guarded service undo rt r).1.spawned
          g
  unfolding guarded
  guarded-IsGuarded undo rt succeeded g h = record {
    ends = inl refl;
    world = refl;
    spawned = refl;
    guard = ground arith;
  }
  guarded-IsGuarded undo rt (failed (user_error (duplicate_transaction t))) g h = record {
    ends = inr (t, refl);
    world = refl;
    spawned = refl;
    guard = ground arith;
  }
  guarded-IsGuarded undo rt panicked g h = absurd (ground arith)
  guarded-IsGuarded undo rt (failed e) g h =
      absurd (ground (arith, undo_and_fail-not_ok undo e rt g))

  -- A guarded call that returns an error has run its undo, if `execute` has failed.
  pub record IsUndone (undo : Undo) (r : Executed) (w w' : service.World) (q q' : List Undo)
      : Type 0 where
    pub ends : (e : AggregateError) × (r ≡ failed e)
    pub world : w' ≡ (run_undo service undo w).1
    pub spawned : q' ≡ q

  pub guarded-IsUndone :
      (undo : Undo) (rt : Runtime service) (r : Executed) (e : TransferError)
      → (guarded service undo rt r).0 ≡ returned (err e)
      → IsUndone undo r rt.world
          (guarded service undo rt r).1.world
          rt.spawned
          (guarded service undo rt r).1.spawned
  unfolding guarded undo_and_fail
  guarded-IsUndone undo rt succeeded e h = absurd (ground arith)
  guarded-IsUndone undo rt (failed (user_error (duplicate_transaction t))) e h =
      absurd (ground arith)
  guarded-IsUndone undo rt panicked e h = absurd (ground arith)
  guarded-IsUndone undo rt (failed e') e h = record {
    ends = (e', refl);
    world = refl;
    spawned = refl;
  }

module _ ⦃platform : Platform⦄ (service : AccountService) (load : String → service.World → Account)
    (es : IsEventSourced service load) (txid : ByteArray32) (from_account to_account asset : String)
    (amount : ℕ) (rt : Runtime service) (s : BankAccountState) (v : IsValid s)
    (f : 0 + s.processed_transactions.ttl < u64_mod) (new : known s txid ≡ none) where
  -- A debit of a new id that returns its guard has taken the amount.
  pub debit_ok :
      (g : TransactionGuard)
      → load from_account rt.world ≡ in_service s
      → (debit service txid from_account to_account asset amount 0 rt).0 ≡ returned (ok g)
      → (s' : BankAccountState) × (load from_account
            (debit service txid from_account to_account asset amount 0 rt).1.world
          ≡ in_service s')
        × Effect s 0 txid (TransactionCommand.debit to_account asset amount) s'
        × ((debit service txid from_account to_account asset amount 0 rt).1.spawned ≡ rt.spawned)
        × ((other : String)
            → from_account ≢ other
            → load other (debit service txid from_account to_account asset amount 0 rt).1.world
              ≡ load other rt.world)
        × (g
            ≡ Service.new (record {
              account = from_account;
              command = Command.reverse_debit txid 0 to_account asset amount;
            }))
  unfolding debit Command.debit handle_transaction
  debit_ok g l h =
      let c = TransactionCommand.debit to_account asset amount in
      let undo : Undo = record {
        account = from_account;
        command = Command.reverse_debit txid 0 to_account asset amount;
      } in
      let run = service.execute from_account (AccountCommand.transaction 0 txid c) rt.world in
      let k = guarded-IsGuarded service undo (record rt { world = run.1 }) run.0 g h in
      elim k.ends [
        | inl r ↦
            let (s', l', x) =
              executed-Effect service load es from_account rt.world s 0 txid c l v f tt r in
            (
              s',
              ap (load from_account) k.world ∙ l',
              x,
              k.spawned,
              (λ other ne.
                  ap (load other) k.world
                  ∙ es.elsewhere from_account other (AccountCommand.transaction 0 txid c) rt.world
                      ne),
              k.guard,
            )
        | inr (t, r) ↦ absurd (
            ground (
              arith,
              refused service load es from_account rt.world s 0 txid c (duplicate_transaction t) l
                  r,
            ))
      ]

  -- A credit of a new id that returns its guard has added the amount, where the sum is in `u64`.
  pub credit_ok :
      (g : TransactionGuard)
      → load to_account rt.world ≡ in_service s
      → balance asset s + amount < u64_mod
      → (credit service txid from_account to_account asset amount 0 rt).0 ≡ returned (ok g)
      → (s' : BankAccountState) × (load to_account
            (credit service txid from_account to_account asset amount 0 rt).1.world
          ≡ in_service s')
        × Effect s 0 txid (TransactionCommand.credit from_account asset amount) s'
        × ((credit service txid from_account to_account asset amount 0 rt).1.spawned ≡ rt.spawned)
        × ((other : String)
            → to_account ≢ other
            → load other (credit service txid from_account to_account asset amount 0 rt).1.world
              ≡ load other rt.world)
        × (g
            ≡ Service.new (record {
              account = to_account;
              command = Command.reverse_credit txid 0 from_account asset amount;
            }))
  unfolding credit Command.credit handle_transaction
  credit_ok g l room h =
      let c = TransactionCommand.credit from_account asset amount in
      let undo : Undo = record {
        account = to_account;
        command = Command.reverse_credit txid 0 from_account asset amount;
      } in
      let run = service.execute to_account (AccountCommand.transaction 0 txid c) rt.world in
      let k = guarded-IsGuarded service undo (record rt { world = run.1 }) run.0 g h in
      elim k.ends [
        | inl r ↦
            let (s', l', x) =
              executed-Effect service load es to_account rt.world s 0 txid c l v f room r in
            (
              s',
              ap (load to_account) k.world ∙ l',
              x,
              k.spawned,
              (λ other ne.
                  ap (load other) k.world
                  ∙ es.elsewhere to_account other (AccountCommand.transaction 0 txid c) rt.world
                      ne),
              k.guard,
            )
        | inr (t, r) ↦ absurd (
            ground (
              arith,
              refused service load es to_account rt.world s 0 txid c (duplicate_transaction t) l r,
            ))
      ]
