-- ===== src/System/Typed/Payloads.antt =====
-- The payloads of the services have the fields, and the types, that the consumers read.
use ordermesh.Prelude.{ℕ, refl, List, [], ◌∷◌, map}
use ordermesh.Shared.Event.{EventType, Item, Value, name}
use ordermesh.Order.Model.{Order}
use ordermesh.Order.Service.{event_item}
use ordermesh.Order.Service as OrderService
use ordermesh.Inventory.Consumers.{reserved_payload}
use ordermesh.Shipping.Model.{Shipment}
use ordermesh.Shipping.Routes.{delivered_payload}
use ordermesh.Shipping.Consumers as ShippingConsumers
use ordermesh.System.Typed.Bus.{IsTyped, plain-IsTyped}

pub created-IsTyped :
    (o : Order) → IsTyped (name EventType.order_created) (OrderService.created_payload o)
unfolding OrderService.created_payload
created-IsTyped o = record {
  id = o.id;
  order = refl;
  items = λ key. (map event_item o.items, refl);
}

pub cancelled-IsTyped :
    (o : Order) → IsTyped (name EventType.order_cancelled) (OrderService.cancelled_payload o)
unfolding OrderService.cancelled_payload
cancelled-IsTyped o = plain-IsTyped "OrderCancelled" _ o.id refl (λ e. cc)

pub reserved-IsTyped :
    (id : ℕ) (items : List Item)
    → IsTyped (name EventType.stock_reserved) (reserved_payload id items)
reserved-IsTyped id items = plain-IsTyped "StockReserved" _ id refl (λ e. cc)

pub unavailable-IsTyped :
    (id : ℕ) → IsTyped (name EventType.stock_unavailable) (("order_id", Value.id id) ∷ [])
unavailable-IsTyped id = plain-IsTyped "StockUnavailable" _ id refl (λ e. cc)

pub released-IsTyped :
    (id : ℕ) (ids : List ℕ)
    → IsTyped
        (name EventType.stock_released)
        (("order_id", Value.id id) ∷ ("product_ids", Value.ids ids) ∷ [])
released-IsTyped id ids = plain-IsTyped "StockReleased" _ id refl (λ e. cc)

pub shipped-IsTyped :
    (id : ℕ) (s : Shipment)
    → IsTyped (name EventType.shipment_created) (ShippingConsumers.created_payload id s)
unfolding ShippingConsumers.created_payload
shipped-IsTyped id s = plain-IsTyped "ShipmentCreated" _ id refl (λ e. cc)

pub delivered-IsTyped :
    (s : Shipment) → IsTyped (name EventType.shipment_delivered) (delivered_payload s)
delivered-IsTyped s = plain-IsTyped "ShipmentDelivered" _ s.order_id refl (λ e. cc)
