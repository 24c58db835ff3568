-- ===== src/Transfer/Follow.antt =====
-- `TransferView::update` against the transfer aggregate.
use cqrs_account.Prelude.{◌≡◌, refl, true, false, some, none, List, [], ◌∷◌, arith}
use cqrs_account.Outcome.{ok}
use cqrs_account.Service.{AccountService, returned, Runtime}
use cqrs_account.Transfer.Defs.{
  Config, TransferCommand, open_transfer, continue, TransferEvent, Transfer, apply,
}
use cqrs_account.Transfer.Handle.{handle}
use cqrs_account.Transfer.Laws.{IsDone, result-IsDone}
use cqrs_account.Transfer.View.{TransferView, default, update}

pub record ShowsConfig (config : Config) (view : TransferView) : Type 0 where
  pub transfer_id : view.transfer_id ≡ some config.transfer_id
  pub from_account : view.from_account ≡ config.from_account
  pub to_account : view.to_account ≡ config.to_account
  pub asset : view.asset ≡ config.asset
  pub amount : view.amount ≡ config.amount
  pub create_timestamp : view.create_timestamp ≡ config.timestamp
  pub description : view.description ≡ config.description

-- What the view of a transfer should show: its parties and its amount from the time it is opened,
-- and whether, when and why it has ended.
abbrev pub Shows : Transfer → TransferView → Type 0
Shows Transfer.uninitialized view = view ≡ default
Shows (Transfer.opened config) view =
    ShowsConfig config view × (view.is_done ≡ false) × (view.failed_reason ≡ none)
Shows (Transfer.finished config timestamp) view =
    ShowsConfig config view
    × (view.is_done ≡ true)
    × (view.failed_reason ≡ none)
    × (view.update_timestamp ≡ timestamp)
Shows (Transfer.failed config reason timestamp) view =
    ShowsConfig config view
    × (view.is_done ≡ false)
    × (view.failed_reason ≡ some reason)
    × (view.update_timestamp ≡ timestamp)
Shows (Transfer.canceled _ _) view = ⊥

unfoldable pub apply_all : Transfer → List TransferEvent → Transfer
apply_all transfer [] = transfer
apply_all transfer (event ∷ events) = apply_all (apply transfer event) events

unfoldable pub update_all : TransferView → List TransferEvent → TransferView
update_all view [] = view
update_all view (event ∷ events) = update_all (update view event) events

module _ (service : AccountService) where
  -- Whatever the account service does, the view takes the events of an accepted command from showing
  -- the transfer to showing the next state of the transfer.
  pub transfer_view_follows :
      (transfer : Transfer) (view : TransferView) (c : TransferCommand) (rt : Runtime service)
      (events : List TransferEvent)
      → Shows transfer view
      → (handle service transfer c rt).0 ≡ returned (ok events)
      → Shows (apply_all transfer events) (update_all view events)
  unfolding handle apply apply_all update update_all
  transfer_view_follows Transfer.uninitialized view (open_transfer config) rt events s h =
      let e : events ≡ TransferEvent.opened config ∷ [] = ground arith in
      rw (e, s)
        (
          record {
            transfer_id = refl;
            from_account = refl;
            to_account = refl;
            asset = refl;
            amount = refl;
            create_timestamp = refl;
            description = refl;
          },
          refl,
          refl,
        )
  transfer_view_follows (Transfer.opened config) view continue rt events s h =
      rw (IsDone.event (result-IsDone service config rt events h)) (
        record {
          transfer_id = s.0.transfer_id;
          from_account = s.0.from_account;
          to_account = s.0.to_account;
          asset = s.0.asset;
          amount = s.0.amount;
          create_timestamp = s.0.create_timestamp;
          description = s.0.description;
        },
        refl,
        s.2,
        refl,
      )
  transfer_view_follows Transfer.uninitialized view continue rt events s h = absurd (ground arith)
  transfer_view_follows (Transfer.opened _) view (open_transfer _) rt events s h =
      absurd (ground arith)
  transfer_view_follows (Transfer.finished _ _) view (open_transfer _) rt events s h =
      absurd (ground arith)
  transfer_view_follows (Transfer.finished _ _) view continue rt events s h = absurd (ground arith)
  transfer_view_follows (Transfer.failed _ _ _) view (open_transfer _) rt events s h =
      absurd (ground arith)
  transfer_view_follows (Transfer.failed _ _ _) view continue rt events s h = absurd (ground arith)
  transfer_view_follows (Transfer.canceled _ _) view c rt events s h = absurd s
