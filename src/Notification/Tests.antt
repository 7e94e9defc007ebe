-- ===== src/Notification/Tests.antt =====
-- A history of three rows, and the events of one order.
use ordermesh.Prelude.{ℕ, ◌≤◌, ◌≡◌, refl, some, List, [], ◌∷◌, ◌++◌, All, Text, codes, length}
use ordermesh.Shared.Outcome.{ok}
use ordermesh.Shared.Event.{EventType, create, name}
use ordermesh.Shared.Consumer.{handler_for}
use ordermesh.Order.Model.{Order, confirmed}
use ordermesh.Order.Service.{created_payload}
use ordermesh.Inventory.Consumers.{reserved_payload}
use ordermesh.Shipping.Model.{Shipment, delivered}
use ordermesh.Shipping.Consumers as ShippingConsumers
use ordermesh.Shipping.Routes.{delivered_payload}
use ordermesh.Notification.Service.{Notification, Db, list_notifications}
use ordermesh.Notification.Consumers.{recipient}
use ordermesh.Notification.Consumers
use ordermesh.Notification.Dispatch.{run, recorded, subject, handlers_record}
use ordermesh.Notification.Recipient.{address, recipient_of_published}

abbrev sent : ℕ → Notification
sent id = record {
  id = id;
  type = "Stock Reserved";
  recipient = codes "customer-10@example.com";
  payload = [];
  status = "SENT";
  order_id = some 1;
}

abbrev history : Db
history = record { notifications = sent 1 ∷ sent 2 ∷ sent 3 ∷ []; notification_seq = 4 }

page_test : list_notifications 2 history ≡ sent 3 ∷ sent 2 ∷ []
unfolding list_notifications
page_test = refl

abbrev no_text : {A : Type 0} → A → Text
no_text _ = []

abbrev order : Order
order = record { id = 1; customer_id = 10; total_amount = 3998; status = confirmed; items = [] }

abbrev shipment : Shipment
shipment = record {
  id = 5;
  order_id = 1;
  tracking_number = codes "TRK-2024-000005";
  courier_name = "DHL";
  status = delivered;
}

recipient_of_published_example :
    let to = recipient no_text no_text in
    (to (create EventType.order_created (created_payload order) "r" []) ≡ address (codes "10"))
    × (to (create EventType.stock_reserved (reserved_payload 1 []) "r" [])
        ≡ address (codes "unknown"))
    × (to (create EventType.shipment_created (ShippingConsumers.created_payload 1 shipment) "r" [])
        ≡ address (codes "unknown"))
    × (to (create EventType.shipment_delivered (delivered_payload shipment) "r" [])
        ≡ address (codes "unknown"))
unfolding ordermesh.Prelude.Decimal.to_text
recipient_of_published_example = recipient_of_published no_text no_text order 1 [] shipment "r" []

handlers_record_example :
    let event = create EventType.stock_reserved (reserved_payload 1 []) "r" [] in
    run
      (handler_for (name EventType.stock_reserved) (Consumers.handlers no_text no_text))
      event
      "r"
      history
    ≡ (ok tt, recorded no_text no_text (subject EventType.stock_reserved) event (some 1) history)
handlers_record_example =
    handlers_record no_text no_text EventType.stock_reserved (reserved_payload 1 []) 1 "r" []
      history refl
