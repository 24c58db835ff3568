-- ===== src/Account/Tests/Views.antt =====
-- The theorems about the account view at concrete inputs.
use cqrs_account.Prelude.{◌+◌, ◌≤◌, ◌≡◌, refl, string_eq, some, [], ◌∷◌, arith, length}
use cqrs_account.Outcome.{done, panic, ok, asset_not_found_due_to_lock}
use cqrs_account.BTreeMap
use cqrs_account.Types.{hex}
use cqrs_account.TestPlatform.{test_platform, id_of}
use cqrs_account.Account.Commands.{lock_funds}
use cqrs_account.Account.Events.Build as Event
use cqrs_account.Account.State.Valid.{reserved}
use cqrs_account.Account.Handle.{handle_transaction}
use cqrs_account.Account.View.{
  AccountView, LedgerDetail, default, update, update_all, update_transaction, upsert, add_ledger,
}
use cqrs_account.Account.View.Mirror.{Mirrors, shown}
use cqrs_account.Account.View.Gaps.{settled_stays_locked, empty_lock_breaks_view}
use cqrs_account.Account.View.Ledger.{update_all_bounds_ledger}
use cqrs_account.Account.Tests.Runs.{funded, locked, settled, locked-IsValid, settle_step}

-- Views of the states of the runs; the ledger is cut short.
abbrev pub view_funded : AccountView
view_funded = record default { account_id = some "alice"; balance = ("BTC", 1000) ∷ [] }

abbrev view_locked : AccountView
view_locked = record default {
  account_id = some "alice";
  balance = ("BTC", 600) ∷ [];
  locked_balance = ("BTC", 400) ∷ [];
}

abbrev view_settled : AccountView
view_settled = record view_locked {
  balance = ("BTC", 600) ∷ ("ETH", 5) ∷ [];
  recent_ledger =
      record {
        timestamp = 7;
        txid = hex (id_of 3);
        detail = LedgerDetail.settlement "bob" "BTC" 400 "ETH" 5;
      }
      ∷ [];
}

pub funded-Mirrors : Mirrors view_funded funded
unfolding BTreeMap.get
funded-Mirrors = record {
  amounts = λ a. refl;
  entries = λ a. refl;
  covers = λ a. omega arith;
  locks = λ id. tt;
}

settlement-run : update_all view_locked settle_step.events ≡ done view_settled
unfolding settle_step update_all update update_transaction upsert add_ledger hex BTreeMap.get
    BTreeMap.insert Event.settlement
settlement-run = refl

settled_stays_locked_example :
    shown "BTC" view_settled.locked_balance ≡ reserved "BTC" settled + 400
unfolding BTreeMap.get hex
settled_stays_locked_example =
    settled_stays_locked view_locked view_settled locked settled 7 (id_of 3) "bob" "ETH" 5
      (record { asset = "BTC"; amount = 400 }) locked-IsValid refl refl settle_step settlement-run

empty_lock_breaks_view_example :
    (handle_transaction funded 9 (id_of 4) (lock_funds "ETH" 0)
      ≡ ok (Event.funds_locked (id_of 4) 9 "ETH" 0 ∷ []))
    × (update_all view_funded (Event.funds_locked (id_of 4) 9 "ETH" 0 ∷ [])
        ≡ panic asset_not_found_due_to_lock)
unfolding BTreeMap.contains_key BTreeMap.get
empty_lock_breaks_view_example =
    empty_lock_breaks_view view_funded funded 9 (id_of 4) "ETH" funded-Mirrors refl refl

update_all_bounds_ledger_example : length view_settled.recent_ledger ≤ 100
update_all_bounds_ledger_example =
    update_all_bounds_ledger view_locked view_settled settle_step.events (omega arith)
      settlement-run
