-- ===== src/Transfer/Names.antt =====
-- The names under which the events of transfers are stored, `src/transfer/events.rs`.
use cqrs_account.Prelude.{ℕ, ◌≡◌, refl, sym, ap, ◌∙◌, String, string_eq, ◌==◌, if◌then◌else◌}
use cqrs_account.Transfer.Defs.{TransferEvent, opened, finished, failed}

-- `TransferEvent::event_type`
unfoldable event_type : TransferEvent → String
event_type (opened _) = "Opened"
event_type (finished _) = "Done"
event_type (failed _ _) = "Failed"

-- `TransferEvent::event_version`
unfoldable event_version : TransferEvent → String
event_version event = "1.0"

-- The variant of an event, by its place in the source.
abbrev variant : TransferEvent → ℕ
variant (opened _) = 0
variant (finished _) = 1
variant (failed _ _) = 2

-- What a reader of the stored name makes of it.
abbrev variant_of : String → ℕ
variant_of name = if name == "Opened" then 0 else if name == "Done" then 1 else 2

variant_of-event_type : (event : TransferEvent) → variant_of (event_type event) ≡ variant event
unfolding event_type
variant_of-event_type (opened _) = refl
variant_of-event_type (finished _) = refl
variant_of-event_type (failed _ _) = refl

-- Events of different variants are stored under different names.
event_type-injective :
    (event event' : TransferEvent)
    → event_type event ≡ event_type event'
    → variant event ≡ variant event'
event_type-injective event event' h =
    sym (variant_of-event_type event) ∙ ap variant_of h ∙ variant_of-event_type event'
