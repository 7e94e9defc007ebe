-- ===== src/Notification/Recipient.antt =====
-- Whom the events of the other services reach.
use ordermesh.Prelude.{ℕ, String, ◌≡◌, refl, List, ◌++◌, Text, codes}
use ordermesh.Prelude.Decimal.{to_text}
use ordermesh.Shared.Event.{EventType, Item, Payload, Value, create}
use ordermesh.Order.Model.{Order}
use ordermesh.Order.Service.{created_payload}
use ordermesh.Inventory.Consumers.{reserved_payload}
use ordermesh.Shipping.Model.{Shipment}
use ordermesh.Shipping.Consumers
use ordermesh.Shipping.Routes.{delivered_payload}
use ordermesh.Notification.Consumers.{recipient}

abbrev pub address : Text → Text
address customer = codes "customer-" ++ (customer ++ codes "@example.com")

-- The confirmation of an order goes to its customer. The events of the inventory and of shipping,
-- as those services publish them, name no customer, and what is sent for them goes to one address
-- that is the same for all: `customer-unknown`.
pub recipient_of_published :
    (dumps : Payload → Text) (str_of_list : Value → Text) (order : Order) (order_id : ℕ)
    (items : List Item) (shipment : Shipment) (rid : String) (now : Text)
    → let to = recipient dumps str_of_list in
      (to (create EventType.order_created (created_payload order) rid now)
        ≡ address (to_text order.customer_id))
      × (to (create EventType.stock_reserved (reserved_payload order_id items) rid now)
          ≡ address (codes "unknown"))
      × (to (
            create EventType.shipment_created (Consumers.created_payload order_id shipment) rid now)
          ≡ address (codes "unknown"))
      × (to (create EventType.shipment_delivered (delivered_payload shipment) rid now)
          ≡ address (codes "unknown"))
unfolding recipient created_payload Consumers.created_payload
recipient_of_published dumps str_of_list order order_id items shipment rid now =
    (refl, refl, refl, refl)
