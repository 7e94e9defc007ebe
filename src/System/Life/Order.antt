-- ===== src/System/Life/Order.antt =====
-- services/order/app/consumers.py: the status of the order moves.
use ordermesh.Prelude.{ℕ, ◌≡◌, refl, sym, ap, subst, String, false, some, List, [], ◌∷◌, arith}
use ordermesh.Shared.Outcome.{ok}
use ordermesh.Shared.Event.{Item}
use ordermesh.Shared.Broker.{Message}
use ordermesh.Shared.Cache.{invalidate}
use ordermesh.Shared.Consumer.{Handler, has_request_id, handler_for}
use ordermesh.Shared.Platform.{Host}
use ordermesh.Inventory.Model as InventoryModel
use ordermesh.Order.Model.{Order, OrderStatus, Db, same_status, confirmed, shipped, cancelled}
use ordermesh.Order.Service.{find_order, get_order, write_status, set_status, cache_key}
use ordermesh.Order.Consumers.{
  on_stock_reserved, on_stock_unavailable, on_shipment_created, handlers,
}
use ordermesh.System.Rabbit.{Net, inventory_events, shipping_events, order_events, without}
use ordermesh.System.Life.Stage.{
  Stage, reserved, confirmed_first, sent_first, announced, over, declined, dropped, waiting,
  status_at,
}
use ordermesh.System.Life.Serve.{served, taken, context_of}
use ordermesh.System.Life.At.{At, Says, Saying, Sent, stock_at}
use ordermesh.System.{System, Env, platform, order_host, put_order, consumed, deliver_first}

pub find-written :
    (id : ℕ) (status : OrderStatus) (os : List Order) (row : Order)
    → find_order id os ≡ some row
    → find_order id (write_status id status os) ≡ some (record row { status = status })
find-written id status [] row h = cc
find-written id status (o ∷ os) row h = ground (arith, find-written id status os row)

module _ {C Body : Type 0} (env : Env C Body) (id : ℕ) (items : List Item) (o : Order)
    (before : InventoryModel.Db) (s : System C Body) (m : Message Body) where
  abbrev pub moved_host : OrderStatus → Host Db C (Net Body)
  moved_host status = record {
    db = record (s.order_db) { orders = write_status id status s.order_db.orders };
    cache = invalidate env.order_redis (cache_key id ∷ []) s.order_cache;
    net = without order_events m s.net;
  }

  abbrev pub start : Host Db C (Net Body)
  start = taken env order_events (handlers (platform env env.order_redis)) m (order_host s)

  set-moved :
      (row : Order) (status : OrderStatus)
      → find_order id s.order_db.orders ≡ some row
      → same_status row.status status ≡ false
      → set_status (platform env env.order_redis) id status start ≡ moved_host status
  unfolding set_status get_order
  set-moved row status found other = rw (found, other)

  -- One of the handlers, on an event about this order.
  consumed_moved :
      (kind : String) (status : OrderStatus) (row : Order) (f : Handler (Host Db C (Net Body)))
      (says : Says env id items kind m)
      → handler_for kind (handlers (platform env env.order_redis)) ≡ some f
      → ((ctx : String)
          → f says.event ctx start
            ≡ (ok tt, set_status (platform env env.order_redis) id status start))
      → find_order id s.order_db.orders ≡ some row
      → same_status row.status status ≡ false
      → consumed env order_events m s ≡ put_order (moved_host status) s
  unfolding consumed
  consumed_moved kind status row f says handler sets found other =
      ap (λ h. put_order h s)
        (served env order_events (handlers (platform env env.order_redis)) m (order_host s) 0
          says.event f (moved_host status) says.count says.valid (rw says.kind_of handler)
          (rw (
            sets (context_of (has_request_id says.event.request_id)),
            set-moved row status found other,
          )))

  module _ (st st' : Stage) (at : At env id items o before st s) where
    moved-At :
        (rest : List (Message Body))
        → s.net.queues order_events ≡ m ∷ rest
        → Saying env id items (waiting st' order_events) rest
        → waiting st inventory_events ≡ waiting st' inventory_events
        → waiting st shipping_events ≡ waiting st' shipping_events
        → stock_at env id items st before ≡ stock_at env id items st' before
        → Sent env id items st' s.shipping_db.shipments
        → At env id items o before st' (put_order (moved_host (status_at st')) s)
    moved-At rest e says inventory shipping stock sent = record {
      inventory =
          subst (λ ks. Saying env id items ks (s.net.queues inventory_events)) inventory
            at.inventory;
      shipping =
          subst (λ ks. Saying env id items ks (s.net.queues shipping_events)) shipping at.shipping;
      order = rw e says;
      emails = at.emails;
      calm = at.calm;
      found = find-written id (status_at st') s.order_db.orders _ at.found;
      stock = cc (at.stock, stock);
      sent = sent;
    }

  on_reserved :
      (says : Says env id items "StockReserved" m) (row : Order)
      → find_order id s.order_db.orders ≡ some row
      → same_status row.status confirmed ≡ false
      → consumed env order_events m s ≡ put_order (moved_host confirmed) s
  unfolding handlers on_stock_reserved
  on_reserved says row found other =
      consumed_moved "StockReserved" confirmed row
        (on_stock_reserved (platform env env.order_redis)) says refl (λ ctx. rw says.order) found
        other

  on_unavailable :
      (says : Says env id items "StockUnavailable" m) (row : Order)
      → find_order id s.order_db.orders ≡ some row
      → same_status row.status cancelled ≡ false
      → consumed env order_events m s ≡ put_order (moved_host cancelled) s
  unfolding handlers on_stock_unavailable
  on_unavailable says row found other =
      consumed_moved "StockUnavailable" cancelled row
        (on_stock_unavailable (platform env env.order_redis)) says refl (λ ctx. rw says.order) found
        other

  pub on_created :
      (says : Says env id items "ShipmentCreated" m) (row : Order)
      → find_order id s.order_db.orders ≡ some row
      → same_status row.status shipped ≡ false
      → consumed env order_events m s ≡ put_order (moved_host shipped) s
  unfolding handlers on_shipment_created
  on_created says row found other =
      consumed_moved "ShipmentCreated" shipped row
        (on_shipment_created (platform env env.order_redis)) says refl (λ ctx. rw says.order) found
        other

-- The order service's delivery, at each stage where something waits.
module _ {C Body : Type 0} (env : Env C Body) (id : ℕ) (items : List Item) (o : Order)
    (before : InventoryModel.Db) (s : System C Body) where
  pub confirm_first-At :
      (ms : List (Message Body))
      → At env id items o before reserved s
      → s.net.queues order_events ≡ ms
      → Saying env id items ("StockReserved" ∷ []) ms
      → At env id items o before confirmed_first (deliver_first env order_events ms s)
  confirm_first-At [] at e h = absurd h
  confirm_first-At (m ∷ rest) at e h =
      subst (At env id items o before confirmed_first)
        (sym (on_reserved env id items o before s m h.0 _ at.found refl))
        (moved-At env id items o before s m reserved confirmed_first at rest e h.1 refl refl refl
          tt)

  pub confirm_last-At :
      (ms : List (Message Body))
      → At env id items o before sent_first s
      → s.net.queues order_events ≡ ms
      → Saying env id items ("StockReserved" ∷ "ShipmentCreated" ∷ []) ms
      → At env id items o before announced (deliver_first env order_events ms s)
  confirm_last-At [] at e h = absurd h
  confirm_last-At (m ∷ rest) at e h =
      subst (At env id items o before announced)
        (sym (on_reserved env id items o before s m h.0 _ at.found refl))
        (moved-At env id items o before s m sent_first announced at rest e h.1 refl refl refl
          at.sent)

  pub drop-At :
      (ms : List (Message Body))
      → At env id items o before declined s
      → s.net.queues order_events ≡ ms
      → Saying env id items ("StockUnavailable" ∷ []) ms
      → At env id items o before dropped (deliver_first env order_events ms s)
  drop-At [] at e h = absurd h
  drop-At (m ∷ rest) at e h =
      subst (At env id items o before dropped)
        (sym (on_unavailable env id items o before s m h.0 _ at.found refl))
        (moved-At env id items o before s m declined dropped at rest e h.1 refl refl refl at.sent)

  pub ship-At :
      (ms : List (Message Body))
      → At env id items o before announced s
      → s.net.queues order_events ≡ ms
      → Saying env id items ("ShipmentCreated" ∷ []) ms
      → At env id items o before over (deliver_first env order_events ms s)
  ship-At [] at e h = absurd h
  ship-At (m ∷ rest) at e h =
      subst (At env id items o before over)
        (sym (on_created env id items o before s m h.0 _ at.found refl))
        (moved-At env id items o before s m announced over at rest e h.1 refl refl refl at.sent)
