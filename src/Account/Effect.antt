-- ===== src/Account/Effect.antt =====
-- What an accepted transaction command means, told apart from the code: which amounts come and go,
-- which lock and which transaction id change. The children prove that `handle` and `apply` do it.
pub mod Moves
pub mod Accepted
pub mod Locks
use cqrs_account.Prelude.{
  ◌||◌, Bool, false, ◌||◌, ℕ, ◌+◌, ◌≤◌, ◌<◌, ◌≡◌, String, Option, none, some, string_eq, ◌==◌,
  if◌then◌else◌,
}
use cqrs_account.Outcome.{u64_mod}
use cqrs_account.BTreeMap
use cqrs_account.Types.{Platform, ByteArray32, byte_array32_eq, hex}
use cqrs_account.Account.Commands.{
  TransactionCommand, deposit, withdraw, debit, reverse_debit, credit, reverse_credit, lock_funds,
  unlock_funds, settle,
}
use cqrs_account.Account.Processed.{ProcessedTransactions}
use cqrs_account.Account.Processed.Laws.{Inserted, Removed}
use cqrs_account.Account.State.{BankAccountState, ReservedFunds, balance}
use cqrs_account.Account.State.Valid.{IsValid, at, funds_of, reserved}

module _ ⦃platform : Platform⦄ where
  -- The lock that a transaction id holds.
  abbrev pub lock : BankAccountState → ByteArray32 → Option ReservedFunds
  lock state txid = BTreeMap.get (hex txid) state.reserving

  abbrev pub locked_amount : Option ReservedFunds → String → ℕ
  locked_amount none a = 0
  locked_amount (some r) a = funds_of a r

  -- What comes to the account, and what leaves it, by asset.
  abbrev pub incoming : TransactionCommand → String → ℕ
  incoming (deposit asset amount) = at asset amount
  incoming (credit _ asset amount) = at asset amount
  incoming (reverse_debit _ asset amount) = at asset amount
  incoming (settle _ asset amount) = at asset amount
  incoming _ = λ a. 0

  abbrev pub outgoing : BankAccountState → ByteArray32 → TransactionCommand → String → ℕ
  outgoing state txid (withdraw asset amount) = at asset amount
  outgoing state txid (debit _ asset amount) = at asset amount
  outgoing state txid (reverse_credit _ asset amount) = at asset amount
  outgoing state txid (settle _ _ _) = locked_amount (lock state txid)
  outgoing state txid _ = λ a. 0

  -- What goes into locks, and what comes out of them.
  abbrev pub locking : TransactionCommand → String → ℕ
  locking (lock_funds asset amount) = at asset amount
  locking _ = λ a. 0

  abbrev pub unlocking : BankAccountState → ByteArray32 → TransactionCommand → String → ℕ
  unlocking state txid unlock_funds = locked_amount (lock state txid)
  unlocking state txid (settle _ _ _) = locked_amount (lock state txid)
  unlocking state txid _ = λ a. 0

  -- The asset whose balance the command writes, which is listed from then on.
  abbrev pub locked_asset : Option ReservedFunds → String → Bool
  locked_asset none a = false
  locked_asset (some r) a = r.asset == a

  abbrev pub writes : BankAccountState → ByteArray32 → TransactionCommand → String → Bool
  writes state txid (deposit asset _) a = asset == a
  writes state txid (withdraw asset _) a = asset == a
  writes state txid (debit _ asset _) a = asset == a
  writes state txid (reverse_debit _ asset _) a = asset == a
  writes state txid (credit _ asset _) a = asset == a
  writes state txid (reverse_credit _ asset _) a = asset == a
  writes state txid (lock_funds asset _) a = asset == a
  writes state txid unlock_funds a = locked_asset (lock state txid) a
  writes state txid (settle _ asset _) a = asset == a

  -- The sums and differences that `apply` makes stay in `u64`.
  abbrev pub HasRoom : BankAccountState → Option ReservedFunds → Type 0
  HasRoom state none = Unit
  HasRoom state (some r) = balance r.asset state + r.amount < u64_mod

  abbrev pub Fits : BankAccountState → ByteArray32 → TransactionCommand → Type 0
  Fits state txid (deposit asset amount) = balance asset state + amount < u64_mod
  Fits state txid (credit _ asset amount) = balance asset state + amount < u64_mod
  Fits state txid (reverse_debit _ asset amount) = balance asset state + amount < u64_mod
  Fits state txid (reverse_credit _ asset amount) = amount ≤ balance asset state
  Fits state txid unlock_funds = HasRoom state (lock state txid)
  Fits state txid (settle _ asset amount) = balance asset state + amount < u64_mod
  Fits state txid _ = Unit

  -- The lock of `id` afterwards.
  abbrev pub lock_after :
      BankAccountState → ByteArray32 → TransactionCommand → ByteArray32 → Option ReservedFunds
  lock_after state txid (lock_funds asset amount) id =
      if txid == id then some (record { asset = asset; amount = amount }) else lock state id
  lock_after state txid unlock_funds id = if txid == id then none else lock state id
  lock_after state txid (settle _ _ _) id = if txid == id then none else lock state id
  lock_after state txid _ id = lock state id

  -- The known transactions afterwards: a reversal forgets the id, a lock and an unlock change
  -- nothing, and any other command records the id.
  abbrev pub KnownAfter :
      ByteArray32 → ℕ → TransactionCommand → ProcessedTransactions → ProcessedTransactions → Type 0
  KnownAfter txid ts (reverse_debit _ _ _) p p' = Removed txid p p'
  KnownAfter txid ts (reverse_credit _ _ _) p p' = Removed txid p p'
  KnownAfter txid ts (lock_funds _ _) p p' = p' ≡ p
  KnownAfter txid ts unlock_funds p p' = p' ≡ p
  KnownAfter txid ts _ p p' = Inserted txid ts p p'

  pub record Effect (state : BankAccountState) (ts : ℕ) (txid : ByteArray32)
      (c : TransactionCommand) (state' : BankAccountState) : Type 0 where
    pub valid : IsValid state'
    pub available :
        (a : String)
        → balance a state' + outgoing state txid c a + locking c a
          ≡ balance a state + incoming c a + unlocking state txid c a
    pub listed :
        (a : String)
        → BTreeMap.contains_key a state'.assets
          ≡ (writes state txid c a || BTreeMap.contains_key a state.assets)
    pub held :
        (a : String) → reserved a state' + unlocking state txid c a ≡ reserved a state + locking c a
    pub locks : (id : ByteArray32) → lock state' id ≡ lock_after state txid c id
    pub known : KnownAfter txid ts c state.processed_transactions state'.processed_transactions
    pub same_id : state'.account_id ≡ state.account_id
