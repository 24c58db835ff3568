-- ===== src/Account/Tests/Runs.antt =====
-- Runs of the account aggregate on concrete commands: the states that the tests start from.
use cqrs_account.Prelude.{◌≡◌, refl, string_eq, [], ◌∷◌, arith}
use cqrs_account.Outcome.{done, ok}
use cqrs_account.BTreeMap
use cqrs_account.Types.{hex}
use cqrs_account.TestPlatform.{test_platform, id_of}
use cqrs_account.Account.Commands.{deposit, debit, credit, lock_funds, settle}
use cqrs_account.Account.Events.Build as Event
use cqrs_account.Account.Processed.{get_timestamp, insert, expire}
use cqrs_account.Account.State.{BankAccountState, in_service, add_balance, sub_balance, save_txid}
use cqrs_account.Account.State.Valid.{IsValid}
use cqrs_account.Account.Handle.{handle_transaction}
use cqrs_account.Account.Apply.{apply, apply_all, apply_transaction, receive}
use cqrs_account.Account.Effect.Accepted.{fresh, fresh-IsValid}
use cqrs_account.Account.Replay.{Step, Step-Effect}

abbrev pub opened : BankAccountState
opened = fresh "alice"

-- A thousand satoshi deposited at time 1.
abbrev pub funded : BankAccountState
funded = record {
  account_id = "alice";
  assets = ("BTC", 1000) ∷ [];
  reserving = [];
  processed_transactions = record {
    ttl = 2592000;
    txids = (hex (id_of 1), 1) ∷ [];
    timeseries = (1, id_of 1) ∷ [];
  };
}

pub deposit-run :
    apply_all (in_service opened) (Event.deposited (id_of 1) 1 "BTC" 1000 ∷ [])
    ≡ done (in_service funded)
unfolding apply_all apply apply_transaction save_txid add_balance insert expire hex BTreeMap.get
    BTreeMap.insert BTreeMap.remove Event.deposited
deposit-run = refl

pub deposit_accepted :
    handle_transaction opened 1 (id_of 1) (deposit "BTC" 1000)
    ≡ ok (Event.deposited (id_of 1) 1 "BTC" 1000 ∷ [])
unfolding handle_transaction get_timestamp hex BTreeMap.get
deposit_accepted = refl

pub first_deposit : Step opened 1 (id_of 1) (deposit "BTC" 1000) funded
first_deposit = record {
  events = Event.deposited (id_of 1) 1 "BTC" 1000 ∷ [];
  stamp_fits = omega arith;
  fits = unfold BTreeMap.get in omega arith;
  accepted = deposit_accepted;
  applied = deposit-run;
}

pub opened-IsValid : IsValid opened
opened-IsValid = fresh-IsValid "alice"

pub funded-IsValid : IsValid funded
funded-IsValid = (Step-Effect opened-IsValid first_deposit).valid

-- 300 of it debited at time 5.
abbrev pub paid : BankAccountState
paid = record {
  account_id = "alice";
  assets = ("BTC", 700) ∷ [];
  reserving = [];
  processed_transactions = record {
    ttl = 2592000;
    txids = (hex (id_of 1), 1) ∷ (hex (id_of 2), 5) ∷ [];
    timeseries = (5, id_of 1) ∷ (5, id_of 2) ∷ [];
  };
}

-- 400 of it locked at time 6, and the lock settled against 5 units of another asset.
abbrev pub locked : BankAccountState
locked = record funded {
  assets = ("BTC", 600) ∷ [];
  reserving = (hex (id_of 3), record { asset = "BTC"; amount = 400 }) ∷ [];
}

abbrev pub settled : BankAccountState
settled = record {
  account_id = "alice";
  assets = ("BTC", 600) ∷ ("ETH", 5) ∷ [];
  reserving = [];
  processed_transactions = record {
    ttl = 2592000;
    txids = (hex (id_of 1), 1) ∷ (hex (id_of 3), 7) ∷ [];
    timeseries = (7, id_of 1) ∷ (7, id_of 3) ∷ [];
  };
}

pub debit_step : Step funded 5 (id_of 2) (debit "bob" "BTC" 300) paid
unfolding handle_transaction get_timestamp apply_all apply apply_transaction save_txid sub_balance
    insert expire hex BTreeMap.get BTreeMap.insert BTreeMap.remove Event.debited
debit_step = record {
  events = Event.debited (id_of 2) 5 "bob" "BTC" 300 ∷ [];
  stamp_fits = omega arith;
  fits = tt;
  accepted = refl;
  applied = refl;
}

-- The same amounts as a credit.
abbrev pub credited : BankAccountState
credited = record paid { assets = ("BTC", 1300) ∷ [] }

pub credit_step : Step funded 5 (id_of 2) (credit "bob" "BTC" 300) credited
unfolding handle_transaction get_timestamp apply_all apply apply_transaction save_txid add_balance
    insert expire hex BTreeMap.get BTreeMap.insert BTreeMap.remove Event.credited
credit_step = record {
  events = Event.credited (id_of 2) 5 "bob" "BTC" 300 ∷ [];
  stamp_fits = omega arith;
  fits = omega arith;
  accepted = refl;
  applied = refl;
}

pub lock_step : Step funded 6 (id_of 3) (lock_funds "BTC" 400) locked
unfolding handle_transaction get_timestamp apply_all apply apply_transaction sub_balance hex
    BTreeMap.get BTreeMap.contains_key BTreeMap.insert Event.funds_locked
lock_step = record {
  events = Event.funds_locked (id_of 3) 6 "BTC" 400 ∷ [];
  stamp_fits = omega arith;
  fits = tt;
  accepted = refl;
  applied = refl;
}

pub locked-IsValid : IsValid locked
locked-IsValid = (Step-Effect funded-IsValid lock_step).valid

unfoldable pub settle_step : Step locked 7 (id_of 3) (settle "bob" "ETH" 5) settled
unfolding handle_transaction get_timestamp apply_all apply apply_transaction save_txid receive
    insert expire hex BTreeMap.get BTreeMap.insert BTreeMap.remove Event.settlement
settle_step = record {
  events = Event.settlement (id_of 3) 7 "bob" "BTC" 400 "ETH" 5 ∷ [];
  stamp_fits = omega arith;
  fits = omega arith;
  accepted = refl;
  applied = refl;
}
