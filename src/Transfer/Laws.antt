-- ===== src/Transfer/Laws.antt =====
-- `Continue`: what a transfer does to the two accounts, and what an error leaves.
use cqrs_account.Prelude.{
  ◌+◌, ◌<◌, ◌≡◌, ◌≢◌, refl, sym, ◌∙◌, String, string_eq, List, [], ◌∷◌, arith, none, ap, beq_refl,
}
use cqrs_account.Outcome.{Result, ok, err, u64_mod}
use cqrs_account.Types.{Platform, byte_array32_eq}
use cqrs_account.Account.Commands.{TransactionCommand}
use cqrs_account.Account.State.{Account, BankAccountState, in_service, balance}
use cqrs_account.Account.State.Valid.{IsValid}
use cqrs_account.Account.Effect.{Effect}
use cqrs_account.Account.History.{wealth_of}
use cqrs_account.Account.Replay.{known}
use cqrs_account.Service
use cqrs_account.Service.{
  AccountService, succeeded, Flow, returned, unwound, Undo, TransactionGuard, Runtime, run_undo,
}
use cqrs_account.Service.Laws.{IsEventSourced}
use cqrs_account.Transfer.Defs.{Config, continue, TransferEvent, Transfer, TransferError}
use cqrs_account.Transfer.Handle.{debit, credit, dropped, with_credit, handle}
use cqrs_account.Transfer.Steps.{debit_ok, credit_ok}
use cqrs_account.Transfer.Failures.{credit_again}

-- How a call of async code ends, with the equation.
data FlowEnds {A E : Type 0} (r : Flow (Result A E)) : Type 0 where
  good : (a : A) → r ≡ returned (ok a) → FlowEnds r
  bad : (e : E) → r ≡ returned (err e) → FlowEnds r
  unwinds : r ≡ unwound → FlowEnds r

flow_ends : {A E : Type 0} (r : Flow (Result A E)) → FlowEnds r
flow_ends (returned (ok a)) = good a refl
flow_ends (returned (err e)) = bad e refl
flow_ends unwound = unwinds refl

module _ (service : AccountService) (config : Config) (rt : Runtime service) where
  abbrev pub after : Runtime service
  after = (handle service (Transfer.opened config) continue rt).1

  abbrev pub result : Flow (Result (List TransferEvent) TransferError)
  result = (handle service (Transfer.opened config) continue rt).0

  abbrev pub debited : Flow (Result TransactionGuard TransferError) × Runtime service
  debited =
      debit service config.transfer_id config.from_account config.to_account config.asset
        config.amount 0 rt

  abbrev pub credited : Flow (Result TransactionGuard TransferError) × Runtime service
  credited =
      credit service config.transfer_id config.from_account config.to_account config.asset
        config.amount 0 debited.1

  -- A transfer that returns events has returned from both calls with their guards.
  pub record IsDone (events : List TransferEvent) : Type 0 where
    pub debit_guard : TransactionGuard
    pub credit_guard : TransactionGuard
    pub debit_returns : debited.0 ≡ returned (ok debit_guard)
    pub credit_returns : credited.0 ≡ returned (ok credit_guard)
    pub event : events ≡ TransferEvent.finished 0 ∷ []
    pub world : after.world ≡ credited.1.world
    pub spawned : after.spawned ≡ credited.1.spawned

  pub result-IsDone : (events : List TransferEvent) → result ≡ returned (ok events) → IsDone events
  unfolding handle with_credit dropped Service.commit Service.drop
  result-IsDone events h = elim (flow_ends debited.0) [
    | good g e ↦ elim (flow_ends credited.0) [
      | good g' e' ↦ record {
        debit_guard = g;
        credit_guard = g';
        debit_returns = e;
        credit_returns = e';
        event = ground arith;
        world = ground arith;
        spawned = ground arith;
      }
      | bad x e' ↦ absurd (ground arith)
      | unwinds e' ↦ absurd (ground arith)
    ]
    | bad x e ↦ absurd (ground arith)
    | unwinds e ↦ absurd (ground arith)
  ]

  -- A transfer that returns an error has failed at the debit, or at the credit with the debit's
  -- guard dropped.
  pub data Fails : Type 0 where
    at_debit : (e : TransferError) → debited.0 ≡ returned (err e) → after ≡ debited.1 → Fails
    at_credit :
        (g : TransactionGuard) (e : TransferError)
        → debited.0 ≡ returned (ok g)
        → credited.0 ≡ returned (err e)
        → after ≡ record { world = credited.1.world; spawned = Service.drop g credited.1.spawned }
        → Fails

  pub result-Fails : (e : TransferError) → result ≡ returned (err e) → Fails
  unfolding handle with_credit dropped
  result-Fails e h = elim (flow_ends debited.0) [
    | good g d ↦ elim (flow_ends credited.0) [
      | good g' c ↦ absurd (ground arith)
      | bad x c ↦ at_credit g x d c (ground arith)
      | unwinds c ↦ absurd (ground arith)
    ]
    | bad x d ↦ at_debit x d (ground arith)
    | unwinds d ↦ absurd (ground arith)
  ]

module _ ⦃platform : Platform⦄ (service : AccountService) (load : String → service.World → Account)
    (es : IsEventSourced service load) (config : Config) (rt : Runtime service) where
  -- What a transfer asks of an account: it is valid and in service, and does not know the
  -- transfer's id. The timestamp that `Continue` passes is 0.
  pub record IsReady (account : String) (s : BankAccountState) : Type 0 where
    pub state : load account rt.world ≡ in_service s
    pub valid : IsValid s
    pub fits : 0 + s.processed_transactions.ttl < u64_mod
    pub new : known s config.transfer_id ≡ none

  -- A transfer between two different accounts, both valid, in service and new to its id, where the
  -- receiver has room for the amount: if it returns its event, it has debited the one and credited the other with the amount, has changed no other
  -- account, and has spawned no undo.
  pub transfer_moves :
      (s t : BankAccountState) (events : List TransferEvent)
      → IsReady config.from_account s
      → IsReady config.to_account t
      → config.from_account ≢ config.to_account
      → balance config.asset t + config.amount < u64_mod
      → result service config rt ≡ returned (ok events)
      → (s' : BankAccountState) × (t' : BankAccountState) × (load config.from_account
            (after service config rt).world
          ≡ in_service s')
        × (load config.to_account (after service config rt).world ≡ in_service t')
        × Effect s 0 config.transfer_id
            (TransactionCommand.debit config.to_account config.asset config.amount)
            s'
        × Effect t 0 config.transfer_id
            (TransactionCommand.credit config.from_account config.asset config.amount)
            t'
        × ((other : String)
            → config.from_account ≢ other
            → config.to_account ≢ other
            → load other (after service config rt).world ≡ load other rt.world)
        × ((after service config rt).spawned ≡ rt.spawned)
        × (events ≡ TransferEvent.finished 0 ∷ [])
  transfer_moves s t events r q ne room h =
      let d = result-IsDone service config rt events h in
      let id = config.transfer_id in
      let (s', ls, xs, qs, others, gs) =
        debit_ok service load es id config.from_account config.to_account config.asset config.amount
          rt s r.valid r.fits r.new d.debit_guard r.state d.debit_returns in
      let rt₁ = (debited service config rt).1 in
      let (t', lt, xt, qt, others', gt) =
        credit_ok service load es id config.from_account config.to_account config.asset
          config.amount rt₁ t q.valid q.fits q.new d.credit_guard
          (others config.to_account ne ∙ q.state) room d.credit_returns in
      (
        s',
        t',
        ap (load config.from_account) d.world ∙ others' config.from_account (λ e. ne (sym e)) ∙ ls,
        ap (load config.to_account) d.world ∙ lt,
        xs,
        xt,
        (λ other nf nt. ap (load other) d.world ∙ others' other nt ∙ others other nf),
        d.spawned ∙ qt ∙ qs,
        d.event,
      )

  -- A transfer from an account to itself, which was valid, in service and new to the id, that returns
  -- its event: the account has lost the amount.
  pub self_transfer_loses :
      (s : BankAccountState) (events : List TransferEvent)
      → IsReady config.from_account s
      → config.from_account ≡ config.to_account
      → result service config rt ≡ returned (ok events)
      → (s' : BankAccountState) × (load config.from_account (after service config rt).world
          ≡ in_service s')
        × (wealth_of s' config.asset + config.amount ≡ wealth_of s config.asset)
        × (events ≡ TransferEvent.finished 0 ∷ [])
  self_transfer_loses s events r same h =
      let d = result-IsDone service config rt events h in
      let id = config.transfer_id in
      let (s', ls, xs, qs, others, gs) =
        debit_ok service load es id config.from_account config.to_account config.asset config.amount
          rt s r.valid r.fits r.new d.debit_guard r.state d.debit_returns in
      let rt₁ = (debited service config rt).1 in
      let again =
        credit_again service load es id config.from_account config.to_account config.asset
          config.amount rt₁ s' 0 xs.known.inserted d.credit_guard
          (ap (λ (a : String). load a rt₁.world) (sym same) ∙ ls) d.credit_returns in
      (
        s',
        ap (load config.from_account) d.world ∙ again config.from_account ∙ ls,
        ground (arith, xs.available config.asset, xs.held config.asset, beq_refl config.asset),
        d.event,
      )
