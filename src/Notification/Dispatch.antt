-- ===== src/Notification/Dispatch.antt =====
-- What each kind of event leaves in the history.
use ordermesh.Prelude.{ℕ, ◌+◌, String, ◌≡◌, refl, Option, none, some, [], ◌∷◌, ◌++◌, Text}
use ordermesh.Shared.Outcome.{Result, ok}
use ordermesh.Shared.Event.{EventType, Event, Payload, Value, field, name, create}
use ordermesh.Shared.Consumer.{Handler, handler_for}
use ordermesh.Notification.Service.{Db, send_notification}
use ordermesh.Notification.Consumers.{
  recipient, on_order_created, on_stock_reserved, on_shipment_created, on_shipment_delivered,
  handlers,
}

-- The email that a kind of event is announced with; the others are not announced.
abbrev pub subject : EventType → Option String
subject EventType.order_created = some "Order Confirmation"
subject EventType.stock_reserved = some "Stock Reserved"
subject EventType.shipment_created = some "Shipment Created"
subject EventType.shipment_delivered = some "Shipment Delivered"
subject _ = none

-- A delivery to the handler that is registered, if there is one.
abbrev pub run : Option (Handler Db) → Event → String → Db → Result (Unit {0}) × Db
run none event rid db = (ok tt, db)
run (some h) event rid db = h event rid db

module _ (dumps : Payload → Text) (str_of_list : Value → Text) where
  abbrev pub recorded : Option String → Event → Option ℕ → Db → Db
  recorded none event order_id db = db
  recorded (some type) event order_id db = record {
    notifications =
        db.notifications
        ++ record {
          id = db.notification_seq;
          type = type;
          recipient = recipient dumps str_of_list event;
          payload = dumps event.payload;
          status = "SENT";
          order_id = order_id;
        }
          ∷ [];
    notification_seq = db.notification_seq + 1;
  }

  -- An event whose payload has an order id is handled without an exception. The four kinds that
  -- are announced add exactly one row, with the next id, their subject, the event's recipient,
  -- the text of its whole payload, the status SENT and the order's id; the other kinds add none.
  pub handlers_record :
      (t : EventType) (payload : Payload) (order_id : ℕ) (rid : String) (now : Text) (db : Db)
      → field "order_id" payload ≡ some (Value.id order_id)
      → let event = create t payload rid now in
        run (handler_for (name t) (handlers dumps str_of_list)) event rid db
        ≡ (ok tt, recorded (subject t) event (some order_id) db)
  unfolding handlers on_order_created on_stock_reserved on_shipment_created on_shipment_delivered
      send_notification
  handlers_record EventType.order_created payload n rid now db e = rw e
  handlers_record EventType.order_cancelled payload n rid now db e = refl
  handlers_record EventType.stock_reserved payload n rid now db e = rw e
  handlers_record EventType.stock_unavailable payload n rid now db e = refl
  handlers_record EventType.stock_released payload n rid now db e = refl
  handlers_record EventType.shipment_created payload n rid now db e = rw e
  handlers_record EventType.shipment_delivered payload n rid now db e = rw e
