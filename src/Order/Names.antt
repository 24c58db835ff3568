-- ===== src/Order/Names.antt =====
-- The names under which the events of orders are stored, `src/order/events.rs`.
use cqrs_account.Prelude.{ℕ, ◌≡◌, refl, sym, ap, ◌∙◌, String, string_eq, ◌==◌, if◌then◌else◌}
use cqrs_account.Order.Defs.{
  OrderEvent, initialized, placed, cancelling, cancelled, buying, bought, failed, settled,
}

-- `OrderEvent::event_type`
unfoldable event_type : OrderEvent → String
event_type (initialized _) = "Initialized"
event_type (placed _) = "Placed"
event_type (cancelling _ _) = "Cancelling"
event_type (cancelled _) = "Cancelled"
event_type (buying _ _) = "Buying"
event_type (bought _) = "Bought"
event_type (failed _ _) = "Failed"
event_type (settled _) = "Settled"

-- `OrderEvent::event_version`
unfoldable event_version : OrderEvent → String
event_version event = "1.0"

-- The variant of an event, by its place in the source.
abbrev variant : OrderEvent → ℕ
variant (initialized _) = 0
variant (placed _) = 1
variant (cancelling _ _) = 2
variant (cancelled _) = 3
variant (buying _ _) = 4
variant (bought _) = 5
variant (failed _ _) = 6
variant (settled _) = 7

-- What a reader of the stored name makes of it.
abbrev variant_of : String → ℕ
variant_of name =
    if name == "Initialized"
    then 0
    else if name == "Placed"
    then 1
    else if name == "Cancelling"
    then 2
    else if name == "Cancelled"
    then 3
    else if name == "Buying"
    then 4
    else if name == "Bought"
    then 5
    else if name == "Failed"
    then 6
    else 7

variant_of-event_type : (event : OrderEvent) → variant_of (event_type event) ≡ variant event
unfolding event_type
variant_of-event_type (initialized _) = refl
variant_of-event_type (placed _) = refl
variant_of-event_type (cancelling _ _) = refl
variant_of-event_type (cancelled _) = refl
variant_of-event_type (buying _ _) = refl
variant_of-event_type (bought _) = refl
variant_of-event_type (failed _ _) = refl
variant_of-event_type (settled _) = refl

-- Events of different variants are stored under different names.
event_type-injective :
    (event event' : OrderEvent)
    → event_type event ≡ event_type event'
    → variant event ≡ variant event'
event_type-injective event event' h =
    sym (variant_of-event_type event) ∙ ap variant_of h ∙ variant_of-event_type event'
