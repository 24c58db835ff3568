-- ===== src/Transfer/Failures.antt =====
-- What the debit and the credit of a transfer leave when they fail, or when the id is known.
use cqrs_account.Prelude.{
  Bool-cases, string_eq, ◌==◌, subst, ℕ, ◌≡◌, refl, ◌∙◌, String, arith, inl, inr, none, some, ap,
}
use cqrs_account.Outcome.{ok, err}
use cqrs_account.Types.{Platform, ByteArray32}
use cqrs_account.Account.Commands.{AccountCommand, TransactionCommand}
use cqrs_account.Account.Commands.Build as Command
use cqrs_account.Account.Events.{
  account_not_found, account_not_in_service, AccountError, duplicate_transaction,
  transaction_not_found,
}
use cqrs_account.Account.State.{
  uninitialized, closed, disabled, Account, BankAccountState, in_service,
}
use cqrs_account.Account.Handle.{handle, handle_transaction}
use cqrs_account.Account.Replay.{known, known_refused}
use cqrs_account.Service.{
  AccountService, AggregateError, user_error, framework_error, failed, returned, Undo,
  TransactionGuard, Runtime, run_undo,
}
use cqrs_account.Service.Laws.{IsEventSourced}
use cqrs_account.Service.Effects.{refused_unchanged}
use cqrs_account.Transfer.Defs.{TransferError}
use cqrs_account.Transfer.Handle.{debit, credit, guarded}
use cqrs_account.Transfer.Steps.{guarded-IsGuarded, guarded-IsUndone}

-- An account that, if it is in service, does not know the id.
abbrev pub IsStranger : ⦃platform : Platform⦄ → Account → ByteArray32 → Type 0
IsStranger a txid = (t : BankAccountState) → a ≡ in_service t → known t txid ≡ none

module _ ⦃platform : Platform⦄ (service : AccountService) (load : String → service.World → Account)
    (es : IsEventSourced service load) where
  -- An execution that leaves its own account alone leaves every account alone.
  pub everywhere :
      (id : String) (c : AccountCommand) (w : service.World)
      → load id (service.execute id c w).1 ≡ load id w
      → (other : String) → load other (service.execute id c w).1 ≡ load other w
  everywhere id c w h other = elim (Bool-cases (id == other)) [
    | inl same ↦
        let e : id ≡ other = (string_eq.reflects id other).0 same in
        subst (λ (o : String). load o (service.execute id c w).1 ≡ load o w) e h
    | inr differs ↦ es.elsewhere id other c w (λ e. cc ((string_eq.reflects id other).1 e))
  ]

  -- A credit of an id that the account knows returns its guard and changes no account.
  pub credit_again :
      (txid : ByteArray32) (from_account to_account asset : String) (amount : ℕ)
      (rt : Runtime service) (s : BankAccountState) (t : ℕ)
      → known s txid ≡ some t
      → (g : TransactionGuard) → load to_account rt.world ≡ in_service s
      → (credit service txid from_account to_account asset amount 0 rt).0 ≡ returned (ok g)
      → (other : String)
      → load other (credit service txid from_account to_account asset amount 0 rt).1.world
        ≡ load other rt.world
  unfolding credit Command.credit handle
  credit_again txid from_account to_account asset amount rt s t k g l h other =
      let c = TransactionCommand.credit from_account asset amount in
      let undo : Undo = record {
        account = to_account;
        command = Command.reverse_credit txid 0 from_account asset amount;
      } in
      let run = service.execute to_account (AccountCommand.transaction 0 txid c) rt.world in
      let x = guarded-IsGuarded service undo (record rt { world = run.1 }) run.0 g h in
      ap (load other) x.world
      ∙ everywhere to_account (AccountCommand.transaction 0 txid c) rt.world
          (refused_unchanged service load es to_account rt.world
            (AccountCommand.transaction 0 txid c) (duplicate_transaction t)
            (rw l (known_refused s 0 t txid c refl k)))
          other

  pub failed_unchanged :
      (id : String) (c : AccountCommand) (w : service.World) (e : AggregateError)
      → (service.execute id c w).0 ≡ failed e
      → load id (service.execute id c w).1 ≡ load id w
  failed_unchanged id c w (user_error e) r = (es.on_user_error id c w e r).1
  failed_unchanged id c w (framework_error e) r = es.on_framework_error id c w e r

  -- A failed call whose undo finds an id that its account does not know changes no account.
  failed_step :
      (id : String) (c u : AccountCommand) (e₀ : AccountError) (rt : Runtime service)
      (e : TransferError)
      → handle (load id rt.world) u ≡ err e₀
      → let run = service.execute id c rt.world in
        let out =
          guarded service
            (record { account = id; command = u })
            (record rt { world = run.1 })
            run.0 in
        out.0 ≡ returned (err e)
        → ((other : String) → load other out.1.world ≡ load other rt.world)
          × (out.1.spawned ≡ rt.spawned)
  unfolding run_undo
  failed_step id c u e₀ rt e deny h =
      let undo : Undo = record { account = id; command = u } in
      let run = service.execute id c rt.world in
      let k = guarded-IsUndone service undo (record rt { world = run.1 }) run.0 e h in
      let (e', r) = k.ends in
      let first = failed_unchanged id c rt.world e' r in
      let second = refused_unchanged service load es id run.1 u e₀ (rw first deny) in
      (
        λ other.
            ap (load other) k.world
            ∙ everywhere id u run.1 second other
            ∙ everywhere id c rt.world first other,
        k.spawned,
      )

  unknown_reversal :
      (s : BankAccountState) (txid : ByteArray32) (party asset : String) (amount : ℕ)
      → known s txid ≡ none
      → (handle_transaction s 0 txid (TransactionCommand.reverse_debit party asset amount)
          ≡ err transaction_not_found)
        × (handle_transaction s 0 txid (TransactionCommand.reverse_credit party asset amount)
            ≡ err transaction_not_found)
  unfolding handle_transaction
  unknown_reversal s txid party asset amount h = (ground arith, ground arith)

  module _ (txid : ByteArray32) (from_account to_account asset : String) (amount : ℕ)
      (rt : Runtime service) (s : BankAccountState) (new : known s txid ≡ none) where
    -- A debit of a new id that returns an error has changed no account.
    pub debit_failed :
        (e : TransferError)
        → load from_account rt.world ≡ in_service s
        → let out = debit service txid from_account to_account asset amount 0 rt in
          out.0 ≡ returned (err e)
          → ((other : String) → load other out.1.world ≡ load other rt.world)
            × (out.1.spawned ≡ rt.spawned)
    unfolding debit Command.debit Command.reverse_debit handle
    debit_failed e l h =
        failed_step from_account
          (AccountCommand.transaction 0 txid (TransactionCommand.debit to_account asset amount))
          (AccountCommand.transaction 0 txid
            (TransactionCommand.reverse_debit to_account asset amount))
          transaction_not_found rt e (rw l (unknown_reversal s txid to_account asset amount new).0)
          h

  stranger_refuses :
      (a : Account) (txid : ByteArray32) (party asset : String) (amount : ℕ)
      → IsStranger a txid
      → (e : AccountError) × (handle a (
            AccountCommand.transaction 0 txid
              (TransactionCommand.reverse_credit party asset amount))
          ≡ err e)
  unfolding handle
  stranger_refuses uninitialized txid party asset amount q = (account_not_found, refl)
  stranger_refuses closed txid party asset amount q = (account_not_found, refl)
  stranger_refuses (disabled s) txid party asset amount q = (account_not_in_service, refl)
  stranger_refuses (in_service s) txid party asset amount q =
      (transaction_not_found, (unknown_reversal s txid party asset amount (q s refl)).1)

  -- A credit that returns an error has changed no account, if the account that was to receive it
  -- does not know the id.
  pub credit_failed :
      (txid : ByteArray32) (from_account to_account asset : String) (amount : ℕ)
      (rt : Runtime service) (e : TransferError)
      → IsStranger (load to_account rt.world) txid
      → let out = credit service txid from_account to_account asset amount 0 rt in
        out.0 ≡ returned (err e)
        → ((other : String) → load other out.1.world ≡ load other rt.world)
          × (out.1.spawned ≡ rt.spawned)
  unfolding credit Command.credit Command.reverse_credit
  credit_failed txid from_account to_account asset amount rt e q h =
      let (e₀, deny) =
        stranger_refuses (load to_account rt.world) txid from_account asset amount q in
      failed_step to_account
        (AccountCommand.transaction 0 txid (TransactionCommand.credit from_account asset amount))
        (AccountCommand.transaction 0 txid
          (TransactionCommand.reverse_credit from_account asset amount))
        e₀ rt e deny h
