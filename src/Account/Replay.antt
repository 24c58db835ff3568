-- ===== src/Account/Replay.antt =====
-- Transaction ids: which commands an account refuses because it knows their id.
pub mod Early
use cqrs_account.Prelude.{
  ℕ, ◌+◌, ◌≤◌, ◌<◌, ◌≡◌, Bool, true, false, ◌&&◌, List, arith, string_eq, Option, some, ◌==◌, ◌⊎◌,
}
use cqrs_account.Outcome.{done, ok, err, u64_mod}
use cqrs_account.Types.{Platform, ByteArray32, byte_array32_eq}
use cqrs_account.Account.Commands.{
  TransactionCommand, deposit, withdraw, debit, reverse_debit, credit, reverse_credit, lock_funds,
  unlock_funds, settle,
}
use cqrs_account.Account.Events.{AccountEvent, duplicate_transaction}
use cqrs_account.Account.Processed.{ProcessedTransactions, get_timestamp}
use cqrs_account.Account.Processed.Sync.{stamp}
use cqrs_account.Account.Processed.Laws.{Inserted}
use cqrs_account.Account.State.{BankAccountState, in_service}
use cqrs_account.Account.State.Valid.{IsValid}
use cqrs_account.Account.Handle.{handle_transaction}
use cqrs_account.Account.Apply.{apply_all}
use cqrs_account.Account.Effect.{Effect, Fits, KnownAfter}
use cqrs_account.Account.Effect.Accepted.{accepted-Effect}

-- The commands whose id must be new, and which record it.
abbrev pub records_id : TransactionCommand → Bool
records_id (deposit _ _) = true
records_id (withdraw _ _) = true
records_id (debit _ _ _) = true
records_id (credit _ _ _) = true
records_id (settle _ _ _) = true
records_id _ = false

abbrev pub reverses : TransactionCommand → Bool
reverses (reverse_debit _ _ _) = true
reverses (reverse_credit _ _ _) = true
reverses _ = false

module _ ⦃platform : Platform⦄ where
  abbrev pub known : BankAccountState → ByteArray32 → Option ℕ
  known state id = get_timestamp state.processed_transactions id

  -- The timestamp of an id in the queue, by which it expires.
  abbrev pub queued : BankAccountState → ByteArray32 → Option ℕ
  queued state id = stamp id state.processed_transactions.timeseries

  pub recorded-Inserted :
      (c : TransactionCommand) (txid : ByteArray32) (ts : ℕ) (p p' : ProcessedTransactions)
      → records_id c ≡ true
      → KnownAfter txid ts c p p'
      → Inserted txid ts p p'
  recorded-Inserted (deposit _ _) txid ts p p' r k = k
  recorded-Inserted (withdraw _ _) txid ts p p' r k = k
  recorded-Inserted (debit _ _ _) txid ts p p' r k = k
  recorded-Inserted (credit _ _ _) txid ts p p' r k = k
  recorded-Inserted (settle _ _ _) txid ts p p' r k = k
  recorded-Inserted _ txid ts p p' r k = absurd (cc)

  -- An id that is known and has not expired in the queue stays known; its timestamp in the queue is
  -- what it was, or that of the command.
  abbrev Remembered : ByteArray32 → ℕ → ℕ → ℕ → ProcessedTransactions → Type 0
  Remembered id s q ts p' =
      (get_timestamp p' id ≡ some s)
      × ((stamp id p'.timeseries ≡ some q) ⊎ (stamp id p'.timeseries ≡ some ts))

  same_ttl :
      (c : TransactionCommand) (txid : ByteArray32) (ts : ℕ) (p p' : ProcessedTransactions)
      → KnownAfter txid ts c p p'
      → p'.ttl ≡ p.ttl
  same_ttl (deposit _ _) txid ts p p' k = k.same_ttl
  same_ttl (withdraw _ _) txid ts p p' k = k.same_ttl
  same_ttl (debit _ _ _) txid ts p p' k = k.same_ttl
  same_ttl (credit _ _ _) txid ts p p' k = k.same_ttl
  same_ttl (settle _ _ _) txid ts p p' k = k.same_ttl
  same_ttl (reverse_debit _ _ _) txid ts p p' k = k.same_ttl
  same_ttl (reverse_credit _ _ _) txid ts p p' k = k.same_ttl
  same_ttl (lock_funds _ _) txid ts p p' k = cc
  same_ttl unlock_funds txid ts p p' k = cc

  pub known_refused :
      (state : BankAccountState) (ts s : ℕ) (txid : ByteArray32) (c : TransactionCommand)
      → records_id c ≡ true
      → known state txid ≡ some s
      → handle_transaction state ts txid c ≡ err (duplicate_transaction s)
  unfolding handle_transaction
  known_refused state ts s txid (deposit _ _) r h = ground arith
  known_refused state ts s txid (withdraw _ _) r h = ground arith
  known_refused state ts s txid (debit _ _ _) r h = ground arith
  known_refused state ts s txid (credit _ _ _) r h = ground arith
  known_refused state ts s txid (settle _ _ _) r h = ground arith
  known_refused state ts s txid _ r h = absurd (cc)

  -- One accepted transaction command, with its events applied.
  pub record Step (state : BankAccountState) (ts : ℕ) (txid : ByteArray32) (c : TransactionCommand)
      (state' : BankAccountState) : Type 0 where
    pub events : List AccountEvent
    pub stamp_fits : ts + state.processed_transactions.ttl < u64_mod
    pub fits : Fits state txid c
    pub accepted : handle_transaction state ts txid c ≡ ok events
    pub applied : apply_all (in_service state) events ≡ done (in_service state')

  pub Step-Effect :
      {state state' : BankAccountState} {ts : ℕ} {txid : ByteArray32} {c : TransactionCommand}
      → IsValid state
      → Step state ts txid c state'
      → Effect state ts txid c state'
  Step-Effect {state} {state'} {ts} {txid} {c} v t =
      accepted-Effect state ts txid c v t.stamp_fits t.fits t.accepted t.applied

  -- Accepted commands with timestamps from `since` to `deadline`, none of which reverses `id`.
  pub data Meanwhile (id : ByteArray32) (since deadline : ℕ) (state : BankAccountState)
      : BankAccountState → Type 0 where
    start : Meanwhile id since deadline state state
    next :
        {state₁ : BankAccountState} (state₂ : BankAccountState) (ts : ℕ) (txid : ByteArray32)
        (c : TransactionCommand)
        → Meanwhile id since deadline state state₁
        → Step state₁ ts txid c state₂
        → since ≤ ts
        → ts ≤ deadline
        → (reverses c && txid == id) ≡ false
        → Meanwhile id since deadline state state₂

  -- What such commands keep.
  record Keeps (id : ByteArray32) (s deadline : ℕ) (state : BankAccountState) : Type 0 where
    valid : IsValid state
    still : known state id ≡ some s
    place : ℕ
    waits : queued state id ≡ some place
    late : s ≤ place
    deadline_eq : deadline ≡ s + state.processed_transactions.ttl
