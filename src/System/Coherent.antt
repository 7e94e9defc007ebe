-- ===== src/System/Coherent.antt =====
-- The caches of the order, the inventory and the shipping service, while the whole system runs.
pub mod Orders
pub mod Products
pub mod Shipments
use ordermesh.Prelude.{ℕ, ◌≡◌, ◌≢◌, ap, arith, List, [], ◌∷◌, Option, Text}
use ordermesh.Shared.Auth.{Identity}
use ordermesh.Shared.Broker.{Message}
use ordermesh.Shared.Cache.{Raw}
use ordermesh.Shared.Cache.Server.{IsServer, IsReachable}
use ordermesh.Order.Model as OrderModel
use ordermesh.Order.Service as OrderService
use ordermesh.Order.Routes as OrderRoutes
use ordermesh.Order.Coherence as OrderCoherence
use ordermesh.Inventory.Model as InventoryModel
use ordermesh.Inventory.Service as InventoryService
use ordermesh.Inventory.Routes as InventoryRoutes
use ordermesh.Inventory.ReadThrough as ReadThrough
use ordermesh.Shipping.Model as ShippingModel
use ordermesh.Shipping.Service as ShippingService
use ordermesh.Shipping.Routes as ShippingRoutes
use ordermesh.Shipping.Coherence as ShippingCoherence
use ordermesh.System.Rabbit.{
  Queue, order_events, inventory_events, shipping_events, notification_events,
}
use ordermesh.System.{
  System, Env, Action, create_order, cancel_order, read_order, create_product, read_product,
  update_shipment, read_shipment, deliver, redeliver, disturb, step, run, consumed, platform,
  order_host, inventory_host, shipping_host, deliver_first,
}

-- What Redis documents, for the three clients, and that it can be reached when something is to be
-- deleted.
pub record Servers {C Body : Type 0} (env : Env C Body) : Type 0 where
  pub order_view : C → Text → Option (Raw OrderModel.OrderOut)
  pub order_server : IsServer env.order_redis order_view
  pub order_up : IsReachable env.order_redis
  pub inventory_view : C → Text → Option (Raw InventoryModel.ProductOut)
  pub inventory_server : IsServer env.inventory_redis inventory_view
  pub inventory_up : IsReachable env.inventory_redis
  pub shipping_view : C → Text → Option (Raw ShippingModel.ShipmentOut)
  pub shipping_server : IsServer env.shipping_redis shipping_view
  pub shipping_up : IsReachable env.shipping_redis

abbrev initial : Text → ℕ
initial [] = 0
initial (c ∷ t) = c

-- The services share one Redis server: no key of one is a key of another, so that each has a part
-- of the server to itself.
pub keys_apart :
    (a b c : ℕ)
    → (OrderService.cache_key a ≢ InventoryService.cache_key b)
      × (InventoryService.cache_key b ≢ ShippingService.cache_key c)
      × (ShippingService.cache_key c ≢ OrderService.cache_key a)
unfolding OrderService.cache_key InventoryService.cache_key ShippingService.cache_key
keys_apart a b c = (
  λ e. omega (arith, ap initial e),
  λ e. omega (arith, ap initial e),
  λ e. omega (arith, ap initial e),
)

module _ {C Body : Type 0} (env : Env C Body) (redis : Servers env) where
  -- What the three servers hold is what the tables hold.
  pub record IsCoherent (s : System C Body) : Type 0 where
    pub orders : Orders.Agrees env redis.order_server s.order_db s.order_cache
    pub products : Products.Agrees env redis.inventory_server s.inventory_db s.inventory_cache
    pub shipments : Shipments.Agrees env redis.shipping_server s.shipping_db s.shipping_cache

  consumed-IsCoherent :
      (q : Queue) (m : Message Body) (s : System C Body)
      → IsCoherent s
      → IsCoherent (consumed env q m s)
  unfolding consumed
  consumed-IsCoherent order_events m s k = record {
    orders = Orders.consume-At env redis.order_server redis.order_up m (order_host s) k.orders;
    products = k.products;
    shipments = k.shipments;
  }
  consumed-IsCoherent inventory_events m s k = record {
    orders = k.orders;
    products =
        Products.consume-At env redis.inventory_server redis.inventory_up m (inventory_host s)
          k.products;
    shipments = k.shipments;
  }
  consumed-IsCoherent shipping_events m s k = record {
    orders = k.orders;
    products = k.products;
    shipments = Shipments.consume-At env redis.shipping_server m (shipping_host s) k.shipments;
  }
  consumed-IsCoherent notification_events m s k = record {
    orders = k.orders;
    products = k.products;
    shipments = k.shipments;
  }

  deliver_first-IsCoherent :
      (q : Queue) (ms : List (Message Body)) (s : System C Body)
      → IsCoherent s
      → IsCoherent (deliver_first env q ms s)
  deliver_first-IsCoherent q [] s k = k
  deliver_first-IsCoherent q (m ∷ ms) s k = consumed-IsCoherent q m s k

  step-IsCoherent : (a : Action) (s : System C Body) → IsCoherent s → IsCoherent (step env a s)
  unfolding step
  step-IsCoherent (create_order payload identity rid) s k = record {
    orders =
        Orders.create_order-At env redis.order_server payload identity rid (order_host s) k.orders;
    products = k.products;
    shipments = k.shipments;
  }
  step-IsCoherent (cancel_order id identity rid) s k = record {
    orders =
        Orders.cancel_order-At env redis.order_server redis.order_up id identity rid (order_host s)
          k.orders;
    products = k.products;
    shipments = k.shipments;
  }
  step-IsCoherent (read_order id identity) s k = record {
    orders =
        (OrderCoherence.get_order_transparent (platform env env.order_redis) redis.order_server id
          identity s.order_db s.order_cache k.orders).1;
    products = k.products;
    shipments = k.shipments;
  }
  step-IsCoherent (create_product payload identity) s k = record {
    orders = k.orders;
    products =
        Products.create_product-Agrees env redis.inventory_server payload identity s.inventory_db
          s.inventory_cache k.products;
    shipments = k.shipments;
  }
  step-IsCoherent (read_product id identity) s k = record {
    orders = k.orders;
    products =
        (ReadThrough.get_product_transparent (platform env env.inventory_redis)
          redis.inventory_server id identity s.inventory_db s.inventory_cache k.products).1;
    shipments = k.shipments;
  }
  step-IsCoherent (update_shipment id status identity rid) s k = record {
    orders = k.orders;
    products = k.products;
    shipments =
        Shipments.update-At env redis.shipping_server redis.shipping_up id status identity rid
          (shipping_host s) k.shipments;
  }
  step-IsCoherent (read_shipment id identity) s k = record {
    orders = k.orders;
    products = k.products;
    shipments =
        (ShippingCoherence.get_shipment_transparent (platform env env.shipping_redis)
          redis.shipping_server id identity s.shipping_db s.shipping_cache k.shipments).1;
  }
  step-IsCoherent (deliver q) s k = deliver_first-IsCoherent q (s.net.queues q) s k
  step-IsCoherent (redeliver q) s k = record {
    orders = k.orders;
    products = k.products;
    shipments = k.shipments;
  }
  step-IsCoherent (disturb faults) s k = record {
    orders = k.orders;
    products = k.products;
    shipments = k.shipments;
  }

  -- While Redis can be reached for deletions, requests, reads, deliveries, redeliveries and calls
  -- of `publish` that raise may come in any order: if what the three servers hold is what the
  -- tables hold, it stays so. A value may vanish from a server at any time, and its calls that
  -- read or store may raise.
  pub run-IsCoherent :
      (actions : List Action) (s : System C Body) → IsCoherent s → IsCoherent (run env actions s)
  unfolding run
  run-IsCoherent [] s k = k
  run-IsCoherent (a ∷ actions) s k = run-IsCoherent actions (step env a s) (step-IsCoherent a s k)

  -- The caches cannot be told from their absence. While Redis can be reached for deletions, after
  -- any run from a system in which the servers hold what the tables hold, each of the three routes
  -- that read a single row answers what its table holds at that moment: the row or the 404, for an
  -- order with the check of the caller.
  pub reads_after_run :
      (actions : List Action) (s : System C Body)
      → IsCoherent s
      → (id : ℕ) (identity : Identity)
      → let t = run env actions s in
        ((OrderRoutes.get_order
            (platform env env.order_redis)
            id
            identity
            t.order_db
            t.order_cache).0
          ≡ OrderCoherence.shown_to identity (OrderService.find_order id t.order_db.orders))
        × ((InventoryRoutes.get_product
              (platform env env.inventory_redis)
              id
              identity
              t.inventory_db
              t.inventory_cache).0
            ≡ ReadThrough.answer (InventoryService.find_product id t.inventory_db.products))
        × ((ShippingRoutes.get_shipment
              (platform env env.shipping_redis)
              id
              identity
              t.shipping_db
              t.shipping_cache).0
            ≡ ShippingCoherence.answer (ShippingService.get_shipment id t.shipping_db))
  reads_after_run actions s k id identity =
      let t = run env actions s in
      let k' = run-IsCoherent actions s k in
      (
        (OrderCoherence.get_order_transparent (platform env env.order_redis) redis.order_server id
            identity t.order_db t.order_cache k'.orders).0,
        (ReadThrough.get_product_transparent (platform env env.inventory_redis)
            redis.inventory_server id identity t.inventory_db t.inventory_cache k'.products).0,
        (ShippingCoherence.get_shipment_transparent (platform env env.shipping_redis)
            redis.shipping_server id identity t.shipping_db t.shipping_cache k'.shipments).0,
      )
