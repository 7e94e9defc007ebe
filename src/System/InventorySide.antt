-- ===== src/System/InventorySide.antt =====
-- services/inventory/app: its request and its consumer, among the other services.
use ordermesh.Prelude.{
  ℕ, ◌≡◌, refl, sym, subst, String, List, [], ◌∷◌, Bool, true, false, All, All-select,
}
use ordermesh.Shared.Outcome.{Result, ok, raise}
use ordermesh.Shared.Auth.{Identity, require_role}
use ordermesh.Shared.Event.{EventType, Item, Payload, Value, name, require_id, require_items}
use ordermesh.Shared.Broker.{Message}
use ordermesh.Shared.Platform.{Host, publish_event}
use ordermesh.Inventory.Model.{Db, ProductCreate}
use ordermesh.Inventory.Service.{reserve_for_order, release_for_order, held_by}
use ordermesh.Inventory.Routes
use ordermesh.Inventory.Routes.{accepts, created_by, conflict}
use ordermesh.Inventory.Consumers.{
  on_order_created, on_order_cancelled, handlers, created_with, cancelled_with, announce,
  reserved_payload, announce_release, reserve_and_announce, release_and_announce,
}
use ordermesh.Inventory.Invariant.{IsValid, IsHeld}
use ordermesh.Inventory.Release.{db-release_for_order}
use ordermesh.Inventory.Safety.{AsksForUnits, reserve-IsValid}
use ordermesh.Inventory.Interleaving.{release_read-IsValid}
use ordermesh.Order.Model as OrderModel
use ordermesh.Shipping.Model as ShippingModel
use ordermesh.System.Rabbit.{Net, inventory_events, channel}
use ordermesh.System.Keeping.{Keeps}
use ordermesh.System.Truth.{IsOrder, Sound, Grows-refl, IsRoundTrip}
use ordermesh.System.Rows.{Rows, tables}
use ordermesh.System.Working.{Working, Working-commit, Working-publish, consume-Working}
use ordermesh.System.{Env, platform, consume}
use ordermesh.System.InventoryRows.{reserve-orders, release_all-orders, created_by-Created}

reserved-Sound :
    (orders : List OrderModel.Order) (shipments : List ShippingModel.Shipment) (id : ℕ)
    (items : List Item)
    → IsOrder orders id
    → All AsksForUnits items
    → Sound orders shipments (name EventType.stock_reserved) (reserved_payload id items)
reserved-Sound orders shipments id items known asks = record {
  known = λ n e. subst (IsOrder orders) (cc) known;
  asks = λ l e. subst (All AsksForUnits) (cc) asks;
  sent = λ key. absurd (cc);
}

-- Events with the order's number and no items.
unavailable-Sound :
    (orders : List OrderModel.Order) (shipments : List ShippingModel.Shipment) (id : ℕ)
    → IsOrder orders id
    → Sound orders shipments (name EventType.stock_unavailable) (("order_id", Value.id id) ∷ [])
unavailable-Sound orders shipments id known = record {
  known = λ n e. subst (IsOrder orders) (cc) known;
  asks = λ l e. absurd (cc);
  sent = λ key. absurd (cc);
}

released-Sound :
    (orders : List OrderModel.Order) (shipments : List ShippingModel.Shipment) (id : ℕ)
    (ids : List ℕ)
    → IsOrder orders id
    → Sound orders shipments
        (name EventType.stock_released)
        (("order_id", Value.id id) ∷ ("product_ids", Value.ids ids) ∷ [])
released-Sound orders shipments id ids known = record {
  known = λ n e. subst (IsOrder orders) (cc) known;
  asks = λ l e. absurd (cc);
  sent = λ key. absurd (cc);
}

module _ {C Body : Type 0} (env : Env C Body) (o : OrderModel.Db) (s : ShippingModel.Db) where
  abbrev pub AtWork : List (Message Body) → Host Db C (Net Body) → Type 0
  AtWork = Working env (λ i. tables o s) (λ i. Rows o i s)

  commit-AtWork :
      (ms : List (Message Body)) (h : Host Db C (Net Body)) (db : Db) (c : C)
      → IsValid db
      → All (λ r. IsOrder o.orders r.order_id) db.reservations
      → AtWork ms h
      → AtWork ms (record h { db = db; cache = c })
  commit-AtWork ms h db c v known w =
      Working-commit env (λ i. tables o s) (λ i. Rows o i s) ms h db c (Grows-refl (tables o s))
        (record {
          inventory = v;
          shipping = w.rows.shipping;
          reservations = known;
          shipments = w.rows.shipments;
          shipped_sent = w.rows.shipped_sent;
        })
        w

  -- `POST /inventory/products`
  pub create_product-AtWork :
      (payload : ProductCreate) (identity : Identity) (h : Host Db C (Net Body))
      → AtWork [] h
      → AtWork [] (record h { db = (Routes.create_product payload identity h.db).1 })
  unfolding Routes.create_product
  create_product-AtWork payload identity h w =
      let c = created_by-Created (require_role ("ADMIN" ∷ []) identity) payload h.db in
      commit-AtWork [] h _ h.cache (c.valid w.rows.inventory)
        (subst (All (λ r. IsOrder o.orders r.order_id)) (sym c.same) w.rows.reservations) w

  module _ (round_trip : IsRoundTrip env) where
    publish-AtWork :
        (ms : List (Message Body)) (kind : EventType) (p : Payload) (rid : String)
        (h : Host Db C (Net Body))
        → Sound o.orders s.shipments (name kind) p
        → AtWork ms h
        → AtWork ms (publish_event (platform env env.inventory_redis) kind p rid h).1
    unfolding publish_event
    publish-AtWork ms kind p rid h sound w =
        Working-publish env (λ i. tables o s) (λ i. Rows o i s) env.inventory_redis round_trip ms
          kind p rid h sound w

    announce-AtWork :
        (ms : List (Message Body)) (b : Bool) (id : ℕ) (items : List Item) (rid : String)
        (h : Host Db C (Net Body))
        → IsOrder o.orders id
        → All AsksForUnits items
        → AtWork ms h
        → AtWork ms (announce (platform env env.inventory_redis) b id items rid h).1
    announce-AtWork ms true id items rid h known asks w =
        publish-AtWork ms EventType.stock_reserved _ rid h
          (reserved-Sound o.orders s.shipments id items known asks) w
    announce-AtWork ms false id items rid h known asks w =
        publish-AtWork ms EventType.stock_unavailable _ rid h
          (unavailable-Sound o.orders s.shipments id known) w

    announce_release-AtWork :
        (ms : List (Message Body)) (ids : List ℕ) (id : ℕ) (rid : String) (h : Host Db C (Net Body))
        → IsOrder o.orders id
        → AtWork ms h
        → AtWork ms (announce_release (platform env env.inventory_redis) ids id rid h).1
    announce_release-AtWork ms [] id rid h known w = w
    announce_release-AtWork ms (k ∷ ids) id rid h known w =
        publish-AtWork ms EventType.stock_released _ rid h
          (released-Sound o.orders s.shipments id (k ∷ ids) known) w

    created_with-AtWork :
        (ms : List (Message Body)) (id : Result ℕ) (items : Result (List Item)) (rid : String)
        (h : Host Db C (Net Body))
        → ((n : ℕ) → id ≡ ok n → IsOrder o.orders n)
        → ((l : List Item) → items ≡ ok l → All AsksForUnits l)
        → AtWork ms h
        → AtWork ms (created_with (platform env env.inventory_redis) id items rid h).1
    unfolding reserve_and_announce
    created_with-AtWork ms (raise e) items rid h known asks w = w
    created_with-AtWork ms (ok id) (raise e) rid h known asks w = w
    created_with-AtWork ms (ok id) (ok items) rid h known asks w =
        let after = reserve_for_order env.inventory_redis id items h.db h.cache in
        announce-AtWork ms after.result id items rid _ (known id refl) (asks items refl) (
          commit-AtWork ms h after.db after.cache
            (reserve-IsValid env.inventory_redis id items h.db h.cache w.rows.inventory
              (asks items refl))
            (reserve-orders (IsOrder o.orders) env.inventory_redis id items h.db h.cache
              (known id refl) w.rows.reservations)
            w)

    cancelled_with-AtWork :
        (ms : List (Message Body)) (id : Result ℕ) (rid : String) (h : Host Db C (Net Body))
        → ((n : ℕ) → id ≡ ok n → IsOrder o.orders n)
        → AtWork ms h
        → AtWork ms (cancelled_with (platform env env.inventory_redis) id rid h).1
    unfolding release_and_announce
    cancelled_with-AtWork ms (raise e) rid h known w = w
    cancelled_with-AtWork ms (ok id) rid h known w =
        let after = release_for_order env.inventory_redis id h.db h.cache in
        announce_release-AtWork ms after.0 id rid _ (known id refl) (
          commit-AtWork ms h after.1.0 after.1.1
            (rw (db-release_for_order env.inventory_redis id h.db h.cache) (
              release_read-IsValid (held_by id h.db.reservations) h.db w.rows.inventory
                (All-select IsHeld _ h.db.reservations w.rows.inventory.held)))
            (rw (db-release_for_order env.inventory_redis id h.db h.cache) (
              release_all-orders (IsOrder o.orders) (held_by id h.db.reservations) h.db
                w.rows.reservations))
            w)

    keeps :
        (m : Message Body)
        → All
            (Keeps (AtWork (m ∷ [])) (channel inventory_events) env.validate m)
            (handlers (platform env env.inventory_redis))
    unfolding handlers on_order_created on_order_cancelled
    keeps m = (
      λ e v key ctx h w.
          created_with-AtWork (m ∷ []) (require_id "order_id" e.payload)
            (require_items "items" e.payload) ctx h (w.held.0 e v).known (w.held.0 e v).asks w,
      (
        λ e v key ctx h w.
            cancelled_with-AtWork (m ∷ []) (require_id "order_id" e.payload) ctx h
              (w.held.0 e v).known w,
        tt,
      ),
    )

    pub consume-AtWork :
        (m : Message Body) (h : Host Db C (Net Body))
        → AtWork (m ∷ []) h
        → AtWork [] (consume env inventory_events (handlers (platform env env.inventory_redis)) m h)
    consume-AtWork m h w =
        consume-Working env (λ i. tables o s) (λ i. Rows o i s) inventory_events _ m (keeps m) h w
