-- ===== src/Transfer/Rollback.antt =====
-- `Continue` when it fails: the debit that has gone through is undone by its guard.
use cqrs_account.Prelude.{
  string_eq, ℕ, ◌+◌, ◌<◌, ◌≡◌, ◌≢◌, refl, ◌∙◌, String, [], ◌∷◌, arith, none, ap, beq_refl,
}
use cqrs_account.Outcome.{err, u64_mod}
use cqrs_account.Types.{Platform, ByteArray32, byte_array32_eq}
use cqrs_account.Account.Commands.{AccountCommand, TransactionCommand}
use cqrs_account.Account.Commands.Build as Command
use cqrs_account.Account.State.{Account, BankAccountState, in_service}
use cqrs_account.Account.State.Valid.{IsValid}
use cqrs_account.Account.Effect.{Effect, Fits}
use cqrs_account.Account.Replay.{known}
use cqrs_account.Account.Undo.{SameFunds}
use cqrs_account.Service
use cqrs_account.Service.{AccountService, succeeded, returned, Undo, Runtime, run_undo, run_spawned}
use cqrs_account.Service.Laws.{IsEventSourced}
use cqrs_account.Service.Effects.{executed-Effect}
use cqrs_account.Transfer.Defs.{Config, TransferError}
use cqrs_account.Transfer.Steps.{debit_ok}
use cqrs_account.Transfer.Failures.{IsStranger, debit_failed, credit_failed}
use cqrs_account.Transfer.Laws.{
  after, result, debited, credited, at_debit, at_credit, result-Fails, IsReady,
}

module _ ⦃platform : Platform⦄ (service : AccountService) (load : String → service.World → Account)
    (es : IsEventSourced service load) where
  -- A reversal that the service lets through takes back the effect of a debit.
  reversed_debit :
      (id : String) (w : service.World) (s s₁ : BankAccountState) (ts : ℕ) (txid : ByteArray32)
      (party asset : String) (amount : ℕ)
      → IsValid s
      → ts + s.processed_transactions.ttl < u64_mod
      → Effect s ts txid (TransactionCommand.debit party asset amount) s₁
      → load id w ≡ in_service s₁
      → let c =
          AccountCommand.transaction ts txid
            (TransactionCommand.reverse_debit party asset amount) in
        (service.execute id c w).0 ≡ succeeded
        → (s₂ : BankAccountState) × (load id (service.execute id c w).1 ≡ in_service s₂)
          × SameFunds s₂ s
          × (known s₂ txid ≡ none)
  reversed_debit id w s s₁ ts txid party asset amount v f x l r =
      let stamp : ts + s₁.processed_transactions.ttl < u64_mod = rw (x.known.same_ttl) f in
      let fits : Fits s₁ txid (TransactionCommand.reverse_debit party asset amount) =
        ground (arith, x.available asset, v.bounded asset, beq_refl asset) in
      let (s₂, l', y) =
        executed-Effect service load es id w s₁ ts txid
          (TransactionCommand.reverse_debit party asset amount) l x.valid stamp fits r in
      (
        s₂,
        l',
        record {
          balances = λ a. omega (arith, x.available a, y.available a);
          locks = λ i. y.locks i ∙ x.locks i;
        },
        y.known.shows txid ∙ rw (beq_refl txid) refl,
      )

  run_none :
      (rt : Runtime service) → rt.spawned ≡ [] → run_spawned service rt.spawned rt.world ≡ rt.world
  unfolding run_spawned
  run_none rt h = rw h refl

  run_one :
      (rt : Runtime service) (undo : Undo)
      → rt.spawned ≡ undo ∷ []
      → run_spawned service rt.spawned rt.world
        ≡ (service.execute undo.account undo.command rt.world).1
  unfolding run_spawned run_undo
  run_one rt undo h = rw h refl

  module _ (config : Config) (rt : Runtime service) where
    -- A transfer between two different accounts returns an error; nothing was spawned before it, the
    -- sender was valid and in service, neither account knew the transfer's id, and the spawned undo,
    -- if there is one, is let through by the framework. Then the sender has the balances and the locks
    -- that it had and does not know the id, and no other account has changed, the receiver included.
    pub transfer_rolls_back :
        (s : BankAccountState) (e : TransferError)
        → IsReady service load es config rt config.from_account s
        → IsStranger (load config.to_account rt.world) config.transfer_id
        → config.from_account ≢ config.to_account
        → rt.spawned ≡ []
        → result service config rt ≡ returned (err e)
        → ((undo : Undo)
            → (after service config rt).spawned ≡ undo ∷ []
            → (service.execute undo.account undo.command (after service config rt).world).0
              ≡ succeeded)
        → let final =
            run_spawned service (after service config rt).spawned (after service config rt).world in
          (s' : BankAccountState) × (load config.from_account final ≡ in_service s')
          × SameFunds s' s
          × (known s' config.transfer_id ≡ none)
          × ((other : String)
              → config.from_account ≢ other
              → load other final ≡ load other rt.world)
    unfolding Service.drop Service.new Command.reverse_debit
    transfer_rolls_back s e r q ne idle h reliable = elim (result-Fails service config rt e h) [
      | at_debit e' d eq ↦
          let (same, quiet) =
            debit_failed service load es config.transfer_id config.from_account config.to_account
              config.asset config.amount rt s r.new e' r.state d in
          let still : run_spawned service (after service config rt).spawned
                (after service config rt).world
              ≡ (after service config rt).world =
            run_none (after service config rt)
              (ap (λ (x : Runtime service). x.spawned) eq ∙ quiet ∙ idle) in
          let back : (other : String)
              → load other (
                  run_spawned service (after service config rt).spawned
                    (after service config rt).world)
                ≡ load other rt.world =
            λ other.
              ap (load other) (still ∙ ap (λ (x : Runtime service). x.world) eq) ∙ same other in
          (
            s,
            back config.from_account ∙ r.state,
            record { balances = λ a. refl; locks = λ i. refl },
            r.new,
            (λ other nf. back other),
          )
      | at_credit g e' d c eq ↦
          let (s₁, ls, xs, qs, others, gs) =
            debit_ok service load es config.transfer_id config.from_account config.to_account
              config.asset config.amount rt s r.valid r.fits r.new g r.state d in
          let (same, quiet) =
            credit_failed service load es config.transfer_id config.from_account config.to_account
              config.asset config.amount (debited service config rt).1 e'
              (rw (others config.to_account ne) q) c in
          let undo : Undo = record {
            account = config.from_account;
            command =
                Command.reverse_debit config.transfer_id 0 config.to_account config.asset
                  config.amount;
          } in
          let queue : (after service config rt).spawned ≡ undo ∷ [] =
            ap (λ (x : Runtime service). x.spawned) eq ∙ rw (gs, quiet, qs, idle) refl in
          let world : (after service config rt).world ≡ (credited service config rt).1.world =
            ap (λ (x : Runtime service). x.world) eq in
          let last = run_one (after service config rt) undo queue in
          let before : (other : String)
              → load other (after service config rt).world
                ≡ load other (debited service config rt).1.world =
            λ other. ap (load other) world ∙ same other in
          let (s₂, l, funds, forgot) =
            reversed_debit config.from_account (after service config rt).world s s₁ 0
              config.transfer_id config.to_account config.asset config.amount r.valid r.fits xs
              (before config.from_account ∙ ls) (reliable undo queue) in
          (
            s₂,
            ap (load config.from_account) last ∙ l,
            funds,
            forgot,
            (λ other nf.
                ap (load other) last
                ∙ es.elsewhere config.from_account other undo.command
                    (after service config rt).world nf
                ∙ before other
                ∙ others other nf),
          )
    ]
