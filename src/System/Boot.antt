-- ===== src/System/Boot.antt =====
-- services/*/app/main.py: the startup of the services that consume events.
use ordermesh.Prelude.{String, ◌≡◌}
use ordermesh.Shared.Outcome.{Result, ok}
use ordermesh.Shared.Connection.{Amqp, Links}
use ordermesh.Shared.Consumer.Start.{Topology}
use ordermesh.Shared.Consumer.Start.Bound.{Fact, IsServer}
use ordermesh.Shared.Lifespan.Ready.{IsReady, boot-IsReady}
use ordermesh.Order.Main as OrderMain
use ordermesh.Inventory.Main as InventoryMain
use ordermesh.Shipping.Main as ShippingMain
use ordermesh.Notification.Main as NotificationMain
use ordermesh.Order.Consumers as OrderConsumers
use ordermesh.Inventory.Consumers as InventoryConsumers
use ordermesh.Shipping.Consumers as ShippingConsumers
use ordermesh.Notification.Consumers as NotificationConsumers
use ordermesh.System.Rabbit.{
  Queue, order_events, inventory_events, shipping_events, notification_events, bound,
}
use ordermesh.System.{Env, platform}

abbrev pub name_of_queue : Queue → String
name_of_queue order_events = OrderMain.queue_name
name_of_queue inventory_events = InventoryMain.queue_name
name_of_queue shipping_events = ShippingMain.queue_name
name_of_queue notification_events = NotificationMain.queue_name

module _ {C Body Conn Chan Exch Q W : Type 0} (env : Env C Body) (amqp : Amqp Conn Chan Exch W)
    (topology : Topology Chan Exch Q W) where
  -- The startup of the service that consumes from the queue.
  abbrev pub startup_of : Queue → W → Result (Unit {0}) × (Links Conn Chan Exch × W)
  startup_of order_events w = OrderMain.startup (platform env env.order_redis) amqp topology w
  startup_of inventory_events w =
      InventoryMain.startup (platform env env.inventory_redis) amqp topology w
  startup_of shipping_events w =
      ShippingMain.startup (platform env env.shipping_redis) env.year env.draw amqp topology w
  startup_of notification_events w =
      NotificationMain.startup env.dumps env.str_of_list amqp topology w

  module _ (exchange_name : Exch → String) {name_of : Q → String} {Knows : W → Fact Exch → Type 0}
      (server : IsServer topology name_of Knows)
      (declares : (ch : Chan) (name : String) (w w' : W) (x : Exch)
        → amqp.declare_exchange ch name w ≡ (ok x, w')
        → exchange_name x ≡ name) where
    -- When the startup of a service returns, at a server whose calls do what RabbitMQ documents, the
    -- broker is connected with both exchanges declared; the service's queue listens, is bound to
    -- the exchange of the events under every key that `bound` lists for it, and its dead letters go
    -- to the exchange that the broker holds as its dead-letter exchange, `logistics.dlx`, under the
    -- key to which the queue `….dlq` is bound there.
    pub startup-IsReady :
        (q : Queue) (w : W)
        → (startup_of q w).0 ≡ ok tt
        → IsReady amqp topology exchange_name server declares
            (name_of_queue q)
            (bound q)
            (startup_of q w).1
    unfolding OrderMain.startup InventoryMain.startup ShippingMain.startup NotificationMain.startup
        OrderConsumers.handlers InventoryConsumers.handlers ShippingConsumers.handlers
        NotificationConsumers.handlers
    startup-IsReady order_events w h =
        boot-IsReady amqp topology exchange_name server declares OrderMain.queue_name
          (OrderConsumers.handlers (platform env env.order_redis)) w h
    startup-IsReady inventory_events w h =
        boot-IsReady amqp topology exchange_name server declares InventoryMain.queue_name
          (InventoryConsumers.handlers (platform env env.inventory_redis)) w h
    startup-IsReady shipping_events w h =
        boot-IsReady amqp topology exchange_name server declares ShippingMain.queue_name
          (ShippingConsumers.handlers (platform env env.shipping_redis) env.year env.draw) w h
    startup-IsReady notification_events w h =
        boot-IsReady amqp topology exchange_name server declares NotificationMain.queue_name
          (NotificationConsumers.handlers env.dumps env.str_of_list) w h
