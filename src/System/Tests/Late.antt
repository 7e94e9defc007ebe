-- ===== src/System/Tests/Late.antt =====
-- An order that is cancelled too late.
use ordermesh.Prelude.{
  ℕ, ◌+◌, ◌-◌, ◌*◌, ◌^◌, ◌≡◌, refl, String, Bool, true, some, none, List, [], ◌∷◌, ◌++◌, codes, leb,
  if◌then◌else◌, arith, map,
}
use ordermesh.Prelude.Int.{pos, ◌+ℤ◌}
use ordermesh.Prelude.Decimal.{parse_int}
use ordermesh.Shared.Broker.{Message}
use ordermesh.Order.Decimal.{plus, times, rounded}
use ordermesh.Order.Model.{Order, shipped, accepts}
use ordermesh.Order.Service.{total_of, item_rows}
use ordermesh.Order.Routes.{caller_id}
use ordermesh.Inventory.Service.{wanted_of, available}
use ordermesh.Inventory.Consumers as InventoryConsumers
use ordermesh.System.Rabbit.{
  Queue, order_events, inventory_events, shipping_events, notification_events, Net, bound, mem_key,
}
use ordermesh.System.Tests.{env, start, two_widgets, customer}
use ordermesh.System.{
  System, Env, Action, create_order, cancel_order, step, deliver, disturb, run, consume, platform,
  inventory_host,
}

-- A cancelled order that the late StockReserved and the shipment bring back.
abbrev late : List Action
late =
    create_order two_widgets customer "r1"
    ∷ deliver inventory_events
    ∷ cancel_order 1 customer "r2"
    ∷ deliver inventory_events
    ∷ deliver shipping_events
    ∷ deliver order_events
    ∷ deliver order_events
    ∷ []

revived : map (λ (o : Order). o.status) (run env late start).order_db.orders ≡ shipped ∷ []
unfolding run step ordermesh.Order.Routes.cancel_order ordermesh.Order.Service.get_order
    ordermesh.Order.Routes.create_order accepts parse_int ordermesh.Order.Service.create_order
    total_of plus rounded times item_rows ordermesh.Shared.Platform.publish_event
    ordermesh.Shared.Broker.publish_on_bus ordermesh.System.Rabbit.exchange
    ordermesh.Order.Service.cancel_order ordermesh.Shared.Consumer.handle
    ordermesh.Shared.Consumer.attempt ordermesh.Shared.Consumer.on_failure
    InventoryConsumers.handlers ordermesh.Shipping.Consumers.handlers
    ordermesh.Order.Consumers.handlers InventoryConsumers.reserve_and_announce
    InventoryConsumers.release_and_announce ordermesh.Inventory.Service.reserve_for_order
    ordermesh.Inventory.Service.release_for_order ordermesh.Inventory.Service.reserve_all
    ordermesh.Inventory.Service.release_all wanted_of available ◌+ℤ◌ ordermesh.Prelude.Int.◌-ℤ◌
    ordermesh.Shipping.Service.create_shipment ordermesh.Order.Service.set_status
    ordermesh.Order.Service.created_payload ordermesh.Order.Service.cancelled_payload
    ordermesh.Shipping.Consumers.created_payload ordermesh.Shared.Broker.publish
    ordermesh.Order.Consumers.on_stock_reserved ordermesh.Order.Consumers.on_shipment_created
    ordermesh.Inventory.Consumers.on_order_created ordermesh.Inventory.Consumers.on_order_cancelled
    ordermesh.Shipping.Consumers.on_stock_reserved
revived = refl
