-- ===== src/Shared/Event.antt =====
-- shared/shared/events/schema.py: the envelope of every message on the bus.
use text.Mathlib.Text.{◌==◌ as str_eq}
use ordermesh.Prelude.{ℕ, String, Option, none, some, List, [], ◌∷◌, Text, if◌then◌else◌}
use ordermesh.Prelude.Int.{ℤ}
use ordermesh.Shared.Outcome.{Result, ok, raise, key_error, type_error}

pub data EventType : Type 0 where
  order_created order_cancelled stock_reserved stock_unavailable stock_released shipment_created
        shipment_delivered :
      EventType

-- `str(event_type)` of the `StrEnum`
abbrev pub name : EventType → String
name EventType.order_created = "OrderCreated"
name EventType.order_cancelled = "OrderCancelled"
name EventType.stock_reserved = "StockReserved"
name EventType.stock_unavailable = "StockUnavailable"
name EventType.stock_released = "StockReleased"
name EventType.shipment_created = "ShipmentCreated"
name EventType.shipment_delivered = "ShipmentDelivered"

-- One entry of an order: `{"product_id": …, "quantity": …}`.
pub record Item : Type 0 where
  pub product_id : ℕ
  pub quantity : ℤ

-- The values that the publishers put into payloads.
pub data Value : Type 0 where
  id : ℕ → Value
  str : Text → Value
  ids : List ℕ → Value
  items : List Item → Value

abbrev pub Payload : Type 0
Payload = List (String × Value)

-- `payload.get(key)`
abbrev pub field : String → Payload → Option Value
field key [] = none
field key ((k, v) ∷ rest) = if str_eq k key then some v else field key rest

-- `payload[key]` where a whole number is needed, and where a list of items is.
abbrev as_id : String → Option Value → Result ℕ
as_id key none = raise (key_error key)
as_id key (some (Value.id n)) = ok n
as_id key (some _) = raise type_error

abbrev as_items : String → Option Value → Result (List Item)
as_items key none = raise (key_error key)
as_items key (some (Value.items l)) = ok l
as_items key (some _) = raise type_error

abbrev pub require_id : String → Payload → Result ℕ
require_id key p = as_id key (field key p)

abbrev pub require_items : String → Payload → Result (List Item)
require_items key p = as_items key (field key p)

pub record Event : Type 0 where
  pub event_type : String
  pub timestamp : Text
  pub request_id : Option String
  pub payload : Payload

-- `Event.create`: the request id is the context's, the time `_now_iso()`.
abbrev pub create : EventType → Payload → String → Text → Event
create event_type payload request_id now = record {
  event_type = name event_type;
  timestamp = now;
  request_id = some request_id;
  payload = payload;
}
