-- ===== src/Order/Consumers.antt =====
-- services/order/app/consumers.py: what the other services report moves the order's status.
use ordermesh.Prelude.{ℕ, String, []}
use ordermesh.Shared.Outcome.{Result, ok, raise}
use ordermesh.Shared.Event.{Event, EventType, require_id}
use ordermesh.Shared.Consumer.{Handlers, on}
use ordermesh.Shared.Platform.{Platform}
use ordermesh.Order.Model.{OrderOut, OrderStatus, confirmed, shipped, cancelled}
use ordermesh.Order.Service.{State, set_status}

module _ {C X Body : Type 0} (platform : Platform OrderOut C X Body) where
  abbrev pub set_on : Result ℕ → OrderStatus → State platform → Result (Unit {0}) × State platform
  set_on (ok order_id) status h = (ok tt, set_status platform order_id status h)
  set_on (raise e) status h = (raise e, h)

  unfoldable pub on_stock_reserved :
      Event → String → State platform → Result (Unit {0}) × State platform
  on_stock_reserved event rid h = set_on (require_id "order_id" event.payload) confirmed h

  unfoldable pub on_stock_unavailable :
      Event → String → State platform → Result (Unit {0}) × State platform
  on_stock_unavailable event rid h = set_on (require_id "order_id" event.payload) cancelled h

  unfoldable pub on_shipment_created :
      Event → String → State platform → Result (Unit {0}) × State platform
  on_shipment_created event rid h = set_on (require_id "order_id" event.payload) shipped h

  -- The handlers of `build_consumer`, on the queue `order.events`.
  unfoldable pub handlers : Handlers (State platform)
  unfolding on_stock_reserved on_stock_unavailable on_shipment_created
  handlers = on EventType.shipment_created on_shipment_created (
      on EventType.stock_unavailable on_stock_unavailable
        (on EventType.stock_reserved on_stock_reserved []))
