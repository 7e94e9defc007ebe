-- ===== src/System.antt =====
-- The services together, over one RabbitMQ server: the topic exchange, a queue for each service
-- with the keys that its consumer binds, and the requests and deliveries that happen in any order.
pub mod Rabbit
pub mod Keeping
pub mod Kept
pub mod Facts
pub mod Truth
pub mod Rows
pub mod Working
pub mod OrderSide
pub mod OrderRequests
pub mod InventoryRows
pub mod InventorySide
pub mod ShippingRows
pub mod ShippingSide
pub mod Invariant
pub mod Life
pub mod FanOut
pub mod Tracing
pub mod Boot
pub mod Coherent
pub mod Typed
pub mod Units
mod Tests
use ordermesh.Prelude.{ℕ, String, Bool, Text, List, [], ◌∷◌, some}
use ordermesh.Shared.Outcome.{Result}
use ordermesh.Shared.Auth.{Identity}
use ordermesh.Shared.Cache.{Client}
use ordermesh.Shared.Event.{Event, Payload, Value}
use ordermesh.Shared.Broker.{Message}
use ordermesh.Shared.Consumer.{Handler, Handlers, handle}
use ordermesh.Shared.Platform.{Platform, Host}
use ordermesh.System.Rabbit.{
  Queue, order_events, inventory_events, shipping_events, notification_events, Net, exchange,
  channel, without, settle, requeue,
}
use ordermesh.Order.Model as OrderModel
use ordermesh.Order.Service as OrderService
use ordermesh.Order.Routes as OrderRoutes
use ordermesh.Order.Consumers as OrderConsumers
use ordermesh.Inventory.Model as InventoryModel
use ordermesh.Inventory.Routes as InventoryRoutes
use ordermesh.Inventory.Consumers as InventoryConsumers
use ordermesh.Shipping.Model as ShippingModel
use ordermesh.Shipping.Routes as ShippingRoutes
use ordermesh.Shipping.Consumers as ShippingConsumers
use ordermesh.Notification.Service as NotificationService
use ordermesh.Notification.Consumers as NotificationConsumers

-- What is outside the repository.
pub record Env (C Body : Type 0) : Type 0 where
  pub order_redis : Client C OrderModel.OrderOut
  pub inventory_redis : Client C InventoryModel.ProductOut
  pub shipping_redis : Client C ShippingModel.ShipmentOut
  pub cache_ttl : ℕ
  pub model_dump_json : Event → Body
  pub validate : Body → Result Event
  pub now : Net Body → Text
  pub year : Net Body → ℕ
  pub draw : Net Body → ℕ
  pub numeric : OrderService.Numeric
  pub dumps : Payload → Text
  pub str_of_list : Value → Text

pub record System (C Body : Type 0) : Type 0 where
  pub order_db : OrderModel.Db
  pub order_cache : C
  pub inventory_db : InventoryModel.Db
  pub inventory_cache : C
  pub shipping_db : ShippingModel.Db
  pub shipping_cache : C
  pub notification_db : NotificationService.Db
  pub net : Net Body

-- What happens next: a request at a service, the delivery of the first message of a queue, the
-- return of an unacknowledged message to its queue, or a change of what `publish` will do.
pub data Action : Type 0 where
  create_order : OrderModel.OrderCreate → Identity → String → Action
  cancel_order : ℕ → Identity → String → Action
  read_order : ℕ → Identity → Action
  create_product : InventoryModel.ProductCreate → Identity → Action
  read_product : ℕ → Identity → Action
  update_shipment : ℕ → ShippingModel.ShipmentStatus → Identity → String → Action
  read_shipment : ℕ → Identity → Action
  deliver redeliver : Queue → Action
  disturb : List Bool → Action

module _ {C Body : Type 0} where
  abbrev pub order_host : System C Body → Host OrderModel.Db C (Net Body)
  order_host s = record { db = s.order_db; cache = s.order_cache; net = s.net }

  abbrev pub put_order : Host OrderModel.Db C (Net Body) → System C Body → System C Body
  put_order h s = record s { order_db = h.db; order_cache = h.cache; net = h.net }

  abbrev pub inventory_host : System C Body → Host InventoryModel.Db C (Net Body)
  inventory_host s = record { db = s.inventory_db; cache = s.inventory_cache; net = s.net }

  abbrev pub put_inventory : Host InventoryModel.Db C (Net Body) → System C Body → System C Body
  put_inventory h s = record s { inventory_db = h.db; inventory_cache = h.cache; net = h.net }

  abbrev pub shipping_host : System C Body → Host ShippingModel.Db C (Net Body)
  shipping_host s = record { db = s.shipping_db; cache = s.shipping_cache; net = s.net }

  abbrev pub put_shipping : Host ShippingModel.Db C (Net Body) → System C Body → System C Body
  put_shipping h s = record s { shipping_db = h.db; shipping_cache = h.cache; net = h.net }

  -- The notification service has no cache.
  abbrev pub notification_host : System C Body → Host NotificationService.Db (Unit {0}) (Net Body)
  notification_host s = record { db = s.notification_db; cache = tt; net = s.net }

  abbrev pub put_notification :
      Host NotificationService.Db (Unit {0}) (Net Body) → System C Body → System C Body
  put_notification h s = record s { notification_db = h.db; net = h.net }

-- A handler of the tables alone, on the service's whole state.
abbrev pub on_tables : {D C X : Type 0} → Handler D → Handler (Host D C X)
on_tables f event ctx h = let (r, db) = f event ctx h.db in (r, record h { db = db })

abbrev pub all_on_tables : {D C X : Type 0} → Handlers D → Handlers (Host D C X)
all_on_tables [] = []
all_on_tables ((k, f) ∷ fs) = (k, on_tables f) ∷ all_on_tables fs

module _ {C Body : Type 0} (env : Env C Body) where
  abbrev pub platform : {V : Type 0} → Client C V → Platform V C (Net Body) Body
  platform redis = record {
    redis = redis;
    cache_ttl = env.cache_ttl;
    bus = some (record { exchange = some exchange });
    model_dump_json = env.model_dump_json;
    now = env.now;
  }

  -- One callback of a consumer, from the default of the context variable.
  abbrev pub consume :
      {D K : Type 0}
      → Queue
      → Handlers (Host D K (Net Body))
      → Message Body
      → Host D K (Net Body)
      → Host D K (Net Body)
  consume q hs m h =
      let (r, (ctx, h')) =
        handle (channel q) env.validate hs m "-" (record h { net = without q m h.net }) in
      record h' { net = settle q m r h'.net }

  unfoldable pub consumed : Queue → Message Body → System C Body → System C Body
  consumed order_events m s =
      put_order
        (consume order_events (OrderConsumers.handlers (platform env.order_redis)) m (order_host s))
        s
  consumed inventory_events m s =
      put_inventory
        (consume inventory_events (InventoryConsumers.handlers (platform env.inventory_redis)) m
          (inventory_host s))
        s
  consumed shipping_events m s =
      put_shipping
        (consume shipping_events
          (ShippingConsumers.handlers (platform env.shipping_redis) env.year env.draw) m
          (shipping_host s))
        s
  consumed notification_events m s =
      put_notification
        (consume notification_events
          (all_on_tables (NotificationConsumers.handlers env.dumps env.str_of_list)) m
          (notification_host s))
        s

  abbrev pub deliver_first : Queue → List (Message Body) → System C Body → System C Body
  deliver_first q [] s = s
  deliver_first q (m ∷ ms) s = consumed q m s

  unfoldable pub step : Action → System C Body → System C Body
  unfolding consumed
  step (create_order payload identity rid) s =
      put_order
        (OrderRoutes.create_order (platform env.order_redis) env.numeric payload identity rid
          (order_host s)).1
        s
  step (cancel_order id identity rid) s =
      put_order
        (OrderRoutes.cancel_order (platform env.order_redis) id identity rid (order_host s)).1 s
  step (read_order id identity) s = record s {
    order_cache =
        (OrderRoutes.get_order (platform env.order_redis) id identity s.order_db s.order_cache).1;
  }
  step (create_product payload identity) s = record s {
    inventory_db = (InventoryRoutes.create_product payload identity s.inventory_db).1;
  }
  step (read_product id identity) s = record s {
    inventory_cache =
        (InventoryRoutes.get_product (platform env.inventory_redis) id identity s.inventory_db
          s.inventory_cache).1;
  }
  step (update_shipment id status identity rid) s =
      put_shipping
        (ShippingRoutes.update_shipment_status (platform env.shipping_redis) id status identity rid
          (shipping_host s)).1
        s
  step (read_shipment id identity) s = record s {
    shipping_cache =
        (ShippingRoutes.get_shipment (platform env.shipping_redis) id identity s.shipping_db
          s.shipping_cache).1;
  }
  step (deliver q) s = deliver_first q (s.net.queues q) s
  step (redeliver q) s = record s { net = requeue q (s.net.unacked q) s.net }
  step (disturb faults) s = record s { net = record s.net { faults = faults } }

  unfoldable pub run : List Action → System C Body → System C Body
  run [] s = s
  run (a ∷ actions) s = run actions (step a s)
