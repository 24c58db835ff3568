-- ===== src/Account/Tests/Early.antt =====
-- An id whose entry of the queue is stamped with an earlier time, and a deposit made twice.
use cqrs_account.Prelude.{◌≡◌, refl, string_eq, [], ◌∷◌, arith}
use cqrs_account.Outcome.{ok}
use cqrs_account.BTreeMap
use cqrs_account.Types.{hex}
use cqrs_account.TestPlatform.{test_platform, id_of}
use cqrs_account.Account.Commands.{deposit, debit}
use cqrs_account.Account.Events.Build as Event
use cqrs_account.Account.Processed.{get_timestamp, insert, expire}
use cqrs_account.Account.State.{BankAccountState, add_balance, sub_balance, save_txid}
use cqrs_account.Account.State.Valid.{IsValid}
use cqrs_account.Account.Handle.{handle_transaction}
use cqrs_account.Account.Apply.{apply, apply_all, apply_transaction}
use cqrs_account.Account.Replay.{Step, Step-Effect}
use cqrs_account.Account.Replay.Early.{restamped_is_forgotten}
use cqrs_account.Account.Tests.Runs.{opened, opened-IsValid}

-- A thousand satoshi deposited in November 2023.
abbrev deposited : BankAccountState
deposited = record {
  account_id = "alice";
  assets = ("BTC", 1000) ∷ [];
  reserving = [];
  processed_transactions = record {
    ttl = 2592000;
    txids = (hex (id_of 1), 1700000000) ∷ [];
    timeseries = (1700000000, id_of 1) ∷ [];
  };
}

deposit_step : Step opened 1700000000 (id_of 1) (deposit "BTC" 1000) deposited
unfolding handle_transaction get_timestamp apply_all apply apply_transaction save_txid add_balance
    insert expire hex BTreeMap.get BTreeMap.insert BTreeMap.remove Event.deposited
deposit_step = record {
  events = Event.deposited (id_of 1) 1700000000 "BTC" 1000 ∷ [];
  stamp_fits = omega arith;
  fits = omega arith;
  accepted = refl;
  applied = refl;
}

deposited-IsValid : IsValid deposited
deposited-IsValid = (Step-Effect opened-IsValid deposit_step).valid

-- 300 of it transferred, which is stamped with 0.
abbrev transferred : BankAccountState
transferred = record {
  account_id = "alice";
  assets = ("BTC", 700) ∷ [];
  reserving = [];
  processed_transactions = record {
    ttl = 2592000;
    txids = (hex (id_of 1), 1700000000) ∷ (hex (id_of 2), 0) ∷ [];
    timeseries = (0, id_of 1) ∷ (0, id_of 2) ∷ [];
  };
}

debit_step : Step deposited 0 (id_of 2) (debit "bob" "BTC" 300) transferred
unfolding handle_transaction get_timestamp apply_all apply apply_transaction save_txid sub_balance
    insert expire hex BTreeMap.get BTreeMap.insert BTreeMap.remove Event.debited
debit_step = record {
  events = Event.debited (id_of 2) 0 "bob" "BTC" 300 ∷ [];
  stamp_fits = omega arith;
  fits = tt;
  accepted = refl;
  applied = refl;
}

-- And 5 more deposited a second after the first deposit.
abbrev topped_up : BankAccountState
topped_up = record {
  account_id = "alice";
  assets = ("BTC", 705) ∷ [];
  reserving = [];
  processed_transactions = record {
    ttl = 2592000;
    txids = (hex (id_of 3), 1700000001) ∷ [];
    timeseries = (1700000001, id_of 3) ∷ [];
  };
}

second_step : Step transferred 1700000001 (id_of 3) (deposit "BTC" 5) topped_up
unfolding handle_transaction get_timestamp apply_all apply apply_transaction save_txid add_balance
    insert expire hex BTreeMap.get BTreeMap.insert BTreeMap.remove Event.deposited
second_step = record {
  events = Event.deposited (id_of 3) 1700000001 "BTC" 5 ∷ [];
  stamp_fits = omega arith;
  fits = omega arith;
  accepted = refl;
  applied = refl;
}

restamped_is_forgotten_example :
    handle_transaction topped_up 1700000002 (id_of 1) (deposit "BTC" 1000)
    ≡ ok (Event.deposited (id_of 1) 1700000002 "BTC" 1000 ∷ [])
restamped_is_forgotten_example =
    restamped_is_forgotten deposited transferred topped_up (id_of 1) (id_of 2) (id_of 3) 1700000000
      0 1700000001 (debit "bob" "BTC" 300) (deposit "BTC" 5) [] deposited-IsValid refl debit_step
      refl second_step refl (omega arith) (omega arith) 1700000002 "BTC" 1000
