-- ===== src/Account/History.antt =====
-- Accounts over a whole history of accepted commands, as the event store replays it.
use cqrs_account.Prelude.{ℕ, ◌+◌, ◌≡◌, String, true, List, arith, string_eq, subst}
use cqrs_account.Outcome.{done, ok}
use cqrs_account.BTreeMap
use cqrs_account.Types.{Platform}
use cqrs_account.Account.Commands.{AccountCommand, LifecycleCommand, open_account, close}
use cqrs_account.Account.Events.{AccountEvent}
use cqrs_account.Account.Events.Build
use cqrs_account.Account.State.{
  Account, BankAccountState, uninitialized, in_service, disabled, closed, balance, is_empty,
}
use cqrs_account.Account.State.Valid.{reserved}
use cqrs_account.Account.Handle.{handle, handle_lifecycle}
use cqrs_account.Account.Apply.{apply, apply_all, apply_lifecycle}
use cqrs_account.Account.Effect.{incoming, outgoing}
use cqrs_account.Account.Effect.Accepted.{
  IsValidAccount, FitsAccount, accepted_applies, handle_transaction-Applies,
}

-- What an account owns of an asset: its balance, and what its locks hold.
abbrev pub wealth_of : BankAccountState → String → ℕ
wealth_of state a = balance a state + reserved a state

abbrev pub wealth : Account → String → ℕ
wealth uninitialized a = 0
wealth (in_service state) a = wealth_of state a
wealth (disabled state) a = wealth_of state a
wealth closed a = 0

is_empty-wealth :
    (state : BankAccountState) (a : String) → is_empty state ≡ true → wealth_of state a ≡ 0
unfolding is_empty BTreeMap.is_empty BTreeMap.get
is_empty-wealth state a h = ground arith

module _ ⦃platform : Platform⦄ where
  abbrev pub account_incoming : Account → AccountCommand → String → ℕ
  account_incoming (in_service state) (AccountCommand.transaction ts txid c) = incoming c
  account_incoming _ _ = λ a. 0

  abbrev pub account_outgoing : Account → AccountCommand → String → ℕ
  account_outgoing (in_service state) (AccountCommand.transaction ts txid c) = outgoing state txid c
  account_outgoing _ _ = λ a. 0

  lifecycle_keeps_wealth :
      (account account' : Account) (c : LifecycleCommand) (events : List AccountEvent) (a : String)
      → handle_lifecycle account c ≡ ok events
      → apply_all account events ≡ done account'
      → wealth account' a ≡ wealth account a
  unfolding handle_lifecycle apply_all apply apply_lifecycle Build.account_opened
      Build.account_disabled Build.account_enabled Build.account_closed BTreeMap.get
  lifecycle_keeps_wealth uninitialized account' (open_account id) events a h e = ground arith
  lifecycle_keeps_wealth closed account' (open_account id) events a h e = ground arith
  lifecycle_keeps_wealth (in_service s) account' close events a h e =
      ground (arith, is_empty-wealth s a)
  lifecycle_keeps_wealth (disabled s) account' close events a h e =
      ground (arith, is_empty-wealth s a)
  lifecycle_keeps_wealth (in_service s) account' c events a h e = ground arith
  lifecycle_keeps_wealth (disabled s) account' c events a h e = ground arith
  lifecycle_keeps_wealth account account' c events a h e = ground arith

  -- A command that a valid account accepts, and whose timestamp and amounts stay in `u64`, changes what
  -- the account owns by what it names: deposits, credits, reversed
  -- debits and the receiving side of a settlement come in; withdrawals, debits, reversed credits and
  -- the settled lock go out. Locking, unlocking and the lifecycle move nothing in or out.
  pub accepted_conserves :
      (account account' : Account) (command : AccountCommand) (events : List AccountEvent)
      (a : String)
      → IsValidAccount account
      → FitsAccount account command
      → handle account command ≡ ok events
      → apply_all account events ≡ done account'
      → wealth account' a + account_outgoing account command a
        ≡ wealth account a + account_incoming account command a
  unfolding handle
  accepted_conserves account account' (AccountCommand.lifecycle c) events a v f h e =
      ground (arith, lifecycle_keeps_wealth account account' c events a h e)
  accepted_conserves (in_service s) account' (AccountCommand.transaction ts txid c) events a v f h
        e =
      let (s', e', x) = handle_transaction-Applies s ts txid c v f.0 f.1 h in
      let same : account' ≡ in_service s' = cc in rw same (omega (arith, x.available a, x.held a))
  accepted_conserves uninitialized account' (AccountCommand.transaction ts txid c) events a v f h
        e =
      absurd (cc)
  accepted_conserves closed account' (AccountCommand.transaction ts txid c) events a v f h e =
      absurd (cc)
  accepted_conserves (disabled s) account' (AccountCommand.transaction ts txid c) events a v f h e =
      absurd (cc)

  -- A history: accepted commands, each with the events that `handle` gave and what they led to.
  pub data History (account : Account) : Account → Type 0 where
    start : History account account
    next :
        {account₁ : Account} (account₂ : Account) (command : AccountCommand)
        (events : List AccountEvent)
        → History account account₁
        → FitsAccount account₁ command
        → handle account₁ command ≡ ok events
        → apply_all account₁ events ≡ done account₂
        → History account account₂

  -- All that came in and went out.
  abbrev pub received : {account account' : Account} → History account account' → String → ℕ
  received start a = 0
  received (next {account₁ = account₁} account₂ command events past f h e) a =
      received past a + account_incoming account₁ command a

  abbrev pub sent : {account account' : Account} → History account account' → String → ℕ
  sent start a = 0
  sent (next {account₁ = account₁} account₂ command events past f h e) a =
      sent past a + account_outgoing account₁ command a

  pub History-IsValidAccount :
      {account account' : Account}
      → IsValidAccount account
      → History account account'
      → IsValidAccount account'
  History-IsValidAccount v start = v
  History-IsValidAccount v (next {account₁ = account₁} account₂ command events past f h e) =
      let (s', e', x) = accepted_applies account₁ command (History-IsValidAccount v past) f h in
      subst (λ (t : Account). IsValidAccount t) (cc) x

  -- Over every history of a new account, whose timestamps and amounts stay in `u64`, what it owns and
  -- what it has sent are together what it has received, for each asset.
  pub history_balances :
      {account : Account} (past : History uninitialized account) (a : String)
      → wealth account a + sent past a ≡ received past a
  history_balances start a = omega arith
  history_balances (next {account₁ = account₁} account₂ command events past f h e) a = omega (
    arith,
    history_balances past a,
    accepted_conserves account₁ account₂ command events a
        (History-IsValidAccount {account = uninitialized} tt past) f h e,
  )
