-- ===== src/Order/Tests/Runs.antt =====
-- The buyer of the tests: five units of an asset deposited, and then locked for an order.
use cqrs_account.Prelude.{refl, string_eq, [], ◌∷◌, arith}
use cqrs_account.BTreeMap
use cqrs_account.Types.{hex}
use cqrs_account.TestPlatform.{test_platform, id_of}
use cqrs_account.Account.Commands.{deposit, lock_funds}
use cqrs_account.Account.Events.Build as Event
use cqrs_account.Account.Processed.{get_timestamp, insert, expire}
use cqrs_account.Account.State.{BankAccountState, add_balance, sub_balance, save_txid}
use cqrs_account.Account.State.Valid.{IsValid}
use cqrs_account.Account.Handle.{handle_transaction}
use cqrs_account.Account.Apply.{apply, apply_all, apply_transaction}
use cqrs_account.Account.Effect.Accepted.{fresh, fresh-IsValid}
use cqrs_account.Account.Replay.{Step, Step-Effect}

abbrev pub bob_funded : BankAccountState
bob_funded = record {
  account_id = "bob";
  assets = ("ETH", 5) ∷ [];
  reserving = [];
  processed_transactions = record {
    ttl = 2592000;
    txids = (hex (id_of 4), 1) ∷ [];
    timeseries = (1, id_of 4) ∷ [];
  };
}

bob_deposit : Step (fresh "bob") 1 (id_of 4) (deposit "ETH" 5) bob_funded
unfolding handle_transaction get_timestamp apply_all apply apply_transaction save_txid add_balance
    insert expire hex BTreeMap.get BTreeMap.insert BTreeMap.remove Event.deposited
bob_deposit = record {
  events = Event.deposited (id_of 4) 1 "ETH" 5 ∷ [];
  stamp_fits = omega arith;
  fits = omega arith;
  accepted = refl;
  applied = refl;
}

pub bob_funded-IsValid : IsValid bob_funded
bob_funded-IsValid = (Step-Effect (fresh-IsValid "bob") bob_deposit).valid

abbrev pub bob_locked : BankAccountState
bob_locked = record bob_funded {
  assets = ("ETH", 0) ∷ [];
  reserving = (hex (id_of 3), record { asset = "ETH"; amount = 5 }) ∷ [];
}

bob_lock : Step bob_funded 5 (id_of 3) (lock_funds "ETH" 5) bob_locked
unfolding handle_transaction get_timestamp apply_all apply apply_transaction sub_balance hex
    BTreeMap.get BTreeMap.contains_key BTreeMap.insert Event.funds_locked
bob_lock = record {
  events = Event.funds_locked (id_of 3) 5 "ETH" 5 ∷ [];
  stamp_fits = omega arith;
  fits = tt;
  accepted = refl;
  applied = refl;
}

pub bob_locked-IsValid : IsValid bob_locked
bob_locked-IsValid = (Step-Effect bob_funded-IsValid bob_lock).valid
