-- ===== src/Transfer/Defs.antt =====
-- `src/transfer/commands.rs`, `src/transfer/events.rs`, and the state of `src/transfer/aggregate.rs`.
use cqrs_account.Prelude.{ℕ, String, [], ◌∷◌}
use cqrs_account.Types.{ByteArray32}
use cqrs_account.Account.Events.{AccountError}
use cqrs_account.Service.{AggregateError}

-- `Config`; the fields of `TransferCommand::Open` and of `TransferEvent::Opened` are the same.
pub record Config : Type 0 where
  pub transfer_id : ByteArray32
  pub from_account : String
  pub to_account : String
  pub asset : String
  pub amount : ℕ
  pub timestamp : ℕ
  pub description : String

-- `Config::default()`
abbrev pub default : Config
default = record {
  transfer_id = record {
    bytes =
        0 ∷ 0 ∷ 0 ∷ 0 ∷ 0 ∷ 0 ∷ 0 ∷ 0 ∷ 0 ∷ 0 ∷ 0 ∷ 0 ∷ 0 ∷ 0 ∷ 0 ∷ 0 ∷ 0 ∷ 0 ∷ 0 ∷ 0 ∷ 0 ∷ 0 ∷ 0
        ∷ 0 ∷ 0 ∷ 0 ∷ 0 ∷ 0 ∷ 0 ∷ 0 ∷ 0 ∷ 0 ∷ [];
  };
  from_account = "";
  to_account = "";
  asset = "";
  amount = 0;
  timestamp = 0;
  description = "";
}

pub data TransferCommand : Type 0 where
  open_transfer : Config → TransferCommand
  continue : TransferCommand

pub data TransferEvent : Type 0 where
  opened : Config → TransferEvent
  -- timestamp
  finished : ℕ → TransferEvent
  -- reason, timestamp
  failed : String → ℕ → TransferEvent

pub data Transfer : Type 0 where
  uninitialized : Transfer
  opened : Config → Transfer
  -- timestamp
  finished : Config → ℕ → Transfer
  -- reason, timestamp
  failed : Config → String → ℕ → Transfer
  -- reason
  canceled : Config → String → Transfer

pub data TransferError : Type 0 where
  invalid_state : String → TransferError
  account_error : AccountError → TransferError
  aggregate_error : AggregateError → TransferError

-- `if let Transfer::Opened { config } = self { swap(&mut temp, config) }`
abbrev pub taken_config : Transfer → Config
taken_config (Transfer.opened config) = config
taken_config _ = default

-- `Aggregate::apply` for `Transfer`.
unfoldable pub apply : Transfer → TransferEvent → Transfer
apply transfer (TransferEvent.opened config) = Transfer.opened config
apply transfer (TransferEvent.failed reason timestamp) =
    Transfer.failed (taken_config transfer) reason timestamp
apply transfer (TransferEvent.finished timestamp) =
    Transfer.finished (taken_config transfer) timestamp
