-- ===== src/System/Tests/Caches.antt =====
-- Three servers that keep what they are told, in one state.
use ordermesh.Prelude.{◌≡◌, ◌∙◌, sym, ap, refl, List, [], ◌∷◌, Option, some, Text}
use ordermesh.Shared.Cache.{Client, Raw}
use ordermesh.Shared.Cache.Server.{IsServer}
use ordermesh.Shared.Cache.Memory.{Memory, memory, held, nothing, memory-IsServer}
use ordermesh.Shared.Event.{Event}
use ordermesh.Order.Model.{OrderOut}
use ordermesh.Order.Service as OrderService
use ordermesh.Order.Routes as OrderRoutes
use ordermesh.Order.Coherence.{shown_to}
use ordermesh.Inventory.Model.{ProductOut}
use ordermesh.Inventory.Service as InventoryService
use ordermesh.Inventory.Routes as InventoryRoutes
use ordermesh.Inventory.ReadThrough as ReadThrough
use ordermesh.Shipping.Model.{ShipmentOut}
use ordermesh.Shipping.Service as ShippingService
use ordermesh.Shipping.Routes as ShippingRoutes
use ordermesh.Shipping.Coherence as ShippingCoherence
use ordermesh.System.Rabbit.{order_events, inventory_events, shipping_events}
use ordermesh.System.Coherent.{Servers, IsCoherent, run-IsCoherent, reads_after_run}
use ordermesh.System.Tests.{env, start, two_widgets, customer}
use ordermesh.System.{
  System, Env, Action, create_order, cancel_order, read_order, read_product, read_shipment, deliver,
  run, platform,
}

-- A client that works on a part of the state.
module _ {A B V : Type 0} (get : A → B) (put : B → A → A) where
  abbrev part : Client B V → Client A V
  part c = record {
    get = λ key a. let (r, b) = c.get key (get a) in (r, put b a);
    set = λ key value ttl a. let (r, b) = c.set key value ttl (get a) in (r, put b a);
    delete = λ keys a. let (r, b) = c.delete keys (get a) in (r, put b a);
  }

  module _ (law : (b : B) (a : A) → get (put b a) ≡ b) {c : Client B V}
      {view : B → Text → Option (Raw V)} (server : IsServer c view) where
    seen :
        (b : B) (a : A) (j : Text) (raw : Raw V)
        → view (get (put b a)) j ≡ some raw
        → view b j ≡ some raw
    seen b a j raw e = ap (λ x. view x j) (sym (law b a)) ∙ e

    part-IsServer : IsServer (part c) (λ a. view (get a))
    part-IsServer = record {
      get_answers = λ k a raw e. server.get_answers k (get a) raw e;
      get_keeps = λ k a j raw e. server.get_keeps k (get a) j raw (seen _ a j raw e);
      set_keeps =
          λ k new ttl a j raw e. server.set_keeps k new ttl (get a) j raw (seen _ a j raw e);
      delete_keeps = λ ks a j raw e. server.delete_keeps ks (get a) j raw (seen _ a j raw e);
      delete_removes = λ ks a k e among.
          ap (λ x. view x k) (law _ a) ∙ server.delete_removes ks (get a) k e among;
    }

abbrev Caches : Type 0
Caches = Memory OrderOut × Memory ProductOut × Memory ShipmentOut

abbrev put_orders : Memory OrderOut → Caches → Caches
put_orders m (a, b, c) = (m, b, c)

abbrev put_products : Memory ProductOut → Caches → Caches
put_products m (a, b, c) = (a, m, c)

abbrev put_shipments : Memory ShipmentOut → Caches → Caches
put_shipments m (a, b, c) = (a, b, m)

abbrev cached_env : Env Caches Event
cached_env = record {
  order_redis = part (λ s. s.0) put_orders memory;
  inventory_redis = part (λ s. s.1) put_products memory;
  shipping_redis = part (λ s. s.2) put_shipments memory;
  cache_ttl = env.cache_ttl;
  model_dump_json = env.model_dump_json;
  validate = env.validate;
  now = env.now;
  year = env.year;
  draw = env.draw;
  numeric = env.numeric;
  dumps = env.dumps;
  str_of_list = env.str_of_list;
}

servers : Servers cached_env
servers = record {
  order_view = λ s. held s.0;
  order_server = part-IsServer (λ s. s.0) put_orders (λ b a. refl) memory-IsServer;
  order_up = record { deletes = λ ks c. refl };
  inventory_view = λ s. held s.1;
  inventory_server = part-IsServer (λ s. s.1) put_products (λ b a. refl) memory-IsServer;
  inventory_up = record { deletes = λ ks c. refl };
  shipping_view = λ s. held s.2;
  shipping_server = part-IsServer (λ s. s.2) put_shipments (λ b a. refl) memory-IsServer;
  shipping_up = record { deletes = λ ks c. refl };
}

abbrev cold : System Caches Event
cold = record {
  order_db = start.order_db;
  order_cache = (nothing, nothing, nothing);
  inventory_db = start.inventory_db;
  inventory_cache = (nothing, nothing, nothing);
  shipping_db = start.shipping_db;
  shipping_cache = (nothing, nothing, nothing);
  notification_db = start.notification_db;
  net = start.net;
}

cold-IsCoherent : IsCoherent cached_env servers cold
unfolding servers
cold-IsCoherent = record {
  orders = record { agrees = λ id out e. cc e };
  products = record { agrees = λ id out e. cc e };
  shipments = record { agrees = λ id out e. cc e };
}

-- Reads that fill the caches, and the writes that must empty them.
abbrev busy : List Action
busy =
    read_product 1 customer
    ∷ create_order two_widgets customer "r1"
    ∷ read_order 1 customer
    ∷ deliver inventory_events
    ∷ deliver shipping_events
    ∷ read_shipment 1 customer
    ∷ cancel_order 1 customer "r2"
    ∷ deliver order_events
    ∷ []

run-IsCoherent_example : IsCoherent cached_env servers (run cached_env busy cold)
run-IsCoherent_example = run-IsCoherent cached_env servers busy cold cold-IsCoherent

reads_after_run_example :
    let t = run cached_env busy cold in
    ((OrderRoutes.get_order
        (platform cached_env cached_env.order_redis)
        1
        customer
        t.order_db
        t.order_cache).0
      ≡ shown_to customer (OrderService.find_order 1 t.order_db.orders))
    × ((InventoryRoutes.get_product
          (platform cached_env cached_env.inventory_redis)
          1
          customer
          t.inventory_db
          t.inventory_cache).0
        ≡ ReadThrough.answer (InventoryService.find_product 1 t.inventory_db.products))
    × ((ShippingRoutes.get_shipment
          (platform cached_env cached_env.shipping_redis)
          1
          customer
          t.shipping_db
          t.shipping_cache).0
        ≡ ShippingCoherence.answer (ShippingService.get_shipment 1 t.shipping_db))
reads_after_run_example = reads_after_run cached_env servers busy cold cold-IsCoherent 1 customer
