-- ===== src/Notification/Consumers.antt =====
-- services/notification/app/consumers.py. The service has no bus of its own and no cache: its
-- state is its table.
use ordermesh.Prelude.{ℕ, String, Option, none, some, [], ◌++◌, Text, codes}
use ordermesh.Prelude.Decimal.{to_text}
use ordermesh.Shared.Outcome.{Result, ok, raise, type_error}
use ordermesh.Shared.Event.{Event, EventType, Value, Payload, field}
use ordermesh.Shared.Consumer.{Handler, Handlers, on}
use ordermesh.Notification.Service.{Db, send_notification}

-- `json.dumps`, and `str` of a list, which nothing but a malformed event brings up.
module _ (dumps : Payload → Text) (str_of_list : Value → Text) where
  abbrev pub value_text : Option Value → Text
  value_text none = codes "unknown"
  value_text (some (Value.id n)) = to_text n
  value_text (some (Value.str t)) = t
  value_text (some (Value.ids l)) = str_of_list (Value.ids l)
  value_text (some (Value.items l)) = str_of_list (Value.items l)

  unfoldable pub recipient : Event → Text
  recipient event =
      codes "customer-" ++ (value_text (field "customer_id" event.payload) ++ codes "@example.com")

  -- `event.payload.get("order_id")`, in a column of integers that may be null.
  abbrev pub order_id_of : Option Value → Result (Option ℕ)
  order_id_of none = ok none
  order_id_of (some (Value.id n)) = ok (some n)
  order_id_of (some _) = raise type_error

  abbrev pub notify_with : String → Event → Result (Option ℕ) → Db → Result (Unit {0}) × Db
  notify_with type event (ok order_id) db =
      (ok tt, (send_notification dumps type (recipient event) event.payload order_id db).1)
  notify_with type event (raise e) db = (raise e, db)

  abbrev pub notify : String → Handler Db
  notify type event rid db =
      notify_with type event (order_id_of (field "order_id" event.payload)) db

  unfoldable pub on_order_created : Handler Db
  unfolding recipient
  on_order_created = notify "Order Confirmation"

  unfoldable pub on_stock_reserved : Handler Db
  unfolding recipient
  on_stock_reserved = notify "Stock Reserved"

  unfoldable pub on_shipment_created : Handler Db
  unfolding recipient
  on_shipment_created = notify "Shipment Created"

  unfoldable pub on_shipment_delivered : Handler Db
  unfolding recipient
  on_shipment_delivered = notify "Shipment Delivered"

  -- The handlers of `build_consumer`, on the queue `notification.events`.
  unfoldable pub handlers : Handlers Db
  unfolding on_order_created on_stock_reserved on_shipment_created on_shipment_delivered
  handlers = on EventType.shipment_delivered on_shipment_delivered (
      on EventType.shipment_created on_shipment_created (
        on EventType.stock_reserved on_stock_reserved
          (on EventType.order_created on_order_created [])))
