-- ===== src/Transfer/View.antt =====
-- `TransferView` of `src/transfer/queries.rs`.
use cqrs_account.Prelude.{ℕ, String, Bool, true, false, Option, none, some}
use cqrs_account.Types.{ByteArray32}
use cqrs_account.Transfer.Defs.{TransferEvent}

pub record TransferView : Type 0 where
  pub transfer_id : Option ByteArray32
  pub from_account : String
  pub to_account : String
  pub amount : ℕ
  pub asset : String
  pub create_timestamp : ℕ
  pub update_timestamp : ℕ
  pub description : String
  pub is_done : Bool
  pub failed_reason : Option String

abbrev pub default : TransferView
default = record {
  transfer_id = none;
  from_account = "";
  to_account = "";
  amount = 0;
  asset = "";
  create_timestamp = 0;
  update_timestamp = 0;
  description = "";
  is_done = false;
  failed_reason = none;
}

unfoldable pub update : TransferView → TransferEvent → TransferView
update view (TransferEvent.opened config) = record view {
  transfer_id = some config.transfer_id;
  from_account = config.from_account;
  to_account = config.to_account;
  amount = config.amount;
  asset = config.asset;
  create_timestamp = config.timestamp;
  description = config.description;
  is_done = false;
}
update view (TransferEvent.finished timestamp) = record view {
  update_timestamp = timestamp;
  is_done = true;
}
update view (TransferEvent.failed reason timestamp) = record view {
  update_timestamp = timestamp;
  failed_reason = some reason;
}
