-- ===== src/System/Kept/Inventory.antt =====
-- services/inventory/app/consumers.py: what `reserve_for_order` and `release_for_order` keep of the
-- tables and the cache, the consumer keeps.
use ordermesh.Prelude.{ℕ, String, Bool, true, false, List, [], ◌∷◌, All}
use ordermesh.Shared.Outcome.{Result, ok, raise}
use ordermesh.Shared.Event.{EventType, Item, require_id, require_items}
use ordermesh.Shared.Broker.{Message}
use ordermesh.Shared.Platform.{Host}
use ordermesh.Inventory.Model.{Db}
use ordermesh.Inventory.Service.{reserve_for_order, release_for_order}
use ordermesh.Inventory.Consumers.{
  handlers, on_order_created, on_order_cancelled, created_with, cancelled_with, announce,
  announce_release, reserve_and_announce, release_and_announce,
}
use ordermesh.System.Rabbit.{Net, inventory_events, channel}
use ordermesh.System.Keeping.{Keeps}
use ordermesh.System.Kept.{Kept, consume-Kept, publish-Kept}
use ordermesh.System.{Env, platform, consume}

module _ {C Body : Type 0} (env : Env C Body) (P : Db → C → Type 0) where
  abbrev At : Host Db C (Net Body) → Type 0
  At = Kept env P

  announce-At :
      (b : Bool) (id : ℕ) (items : List Item) (rid : String) (h : Host Db C (Net Body))
      → At h
      → At (announce (platform env env.inventory_redis) b id items rid h).1
  announce-At true id items rid h k =
      publish-Kept env P env.inventory_redis EventType.stock_reserved _ rid h k
  announce-At false id items rid h k =
      publish-Kept env P env.inventory_redis EventType.stock_unavailable _ rid h k

  announce_release-At :
      (ids : List ℕ) (id : ℕ) (rid : String) (h : Host Db C (Net Body))
      → At h
      → At (announce_release (platform env env.inventory_redis) ids id rid h).1
  announce_release-At [] id rid h k = k
  announce_release-At (i ∷ ids) id rid h k =
      publish-Kept env P env.inventory_redis EventType.stock_released _ rid h k

  module _
      (reserve_keeps : (id : ℕ) (items : List Item) (db : Db) (c : C)
        → P db c
        → let after = reserve_for_order env.inventory_redis id items db c in P after.db after.cache)
      (release_keeps : (id : ℕ) (db : Db) (c : C)
        → P db c
        → let after = release_for_order env.inventory_redis id db c in P after.1.0 after.1.1) where
    created_with-At :
        (id : Result ℕ) (items : Result (List Item)) (rid : String) (h : Host Db C (Net Body))
        → At h
        → At (created_with (platform env env.inventory_redis) id items rid h).1
    unfolding reserve_and_announce
    created_with-At (raise e) items rid h k = k
    created_with-At (ok id) (raise e) rid h k = k
    created_with-At (ok id) (ok items) rid h k =
        let after = reserve_for_order env.inventory_redis id items h.db h.cache in
        announce-At after.result id items rid (record h { db = after.db; cache = after.cache })
          (reserve_keeps id items h.db h.cache k)

    cancelled_with-At :
        (id : Result ℕ) (rid : String) (h : Host Db C (Net Body))
        → At h
        → At (cancelled_with (platform env env.inventory_redis) id rid h).1
    unfolding release_and_announce
    cancelled_with-At (raise e) rid h k = k
    cancelled_with-At (ok id) rid h k =
        let after = release_for_order env.inventory_redis id h.db h.cache in
        announce_release-At after.0 id rid (record h { db = after.1.0; cache = after.1.1 })
          (release_keeps id h.db h.cache k)

    keeps :
        (m : Message Body)
        → All
            (Keeps At (channel inventory_events) env.validate m)
            (handlers (platform env env.inventory_redis))
    unfolding handlers on_order_created on_order_cancelled
    keeps m = (
      λ e v key ctx h k.
          created_with-At (require_id "order_id" e.payload) (require_items "items" e.payload) ctx h
            k,
      (λ e v key ctx h k. cancelled_with-At (require_id "order_id" e.payload) ctx h k, tt),
    )

    pub consume_inventory-Kept :
        (m : Message Body) (h : Host Db C (Net Body))
        → At h
        → At (consume env inventory_events (handlers (platform env env.inventory_redis)) m h)
    consume_inventory-Kept m h k = consume-Kept env P inventory_events _ m (keeps m) h k
