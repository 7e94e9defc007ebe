-- ===== src/System/Typed/Consumers.antt =====
-- Every registered handler of the four services succeeds on the events that carry what it reads.
use ordermesh.Prelude.{
  ℕ, ◌≡◌, refl, String, Option, none, some, Bool, true, false, List, [], ◌∷◌, All, Bool-cases, inl,
  inr, subst, sym,
}
use ordermesh.Shared.Outcome.{ok}
use ordermesh.Shared.Event.{Event, EventType, Item, require_id, require_items}
use ordermesh.Shared.Platform.{Host}
use ordermesh.Order.Model.{Order, OrderStatus, same_status}
use ordermesh.Order.Service.{set_status, set_status_of, get_order}
use ordermesh.Order.Model as OrderModel
use ordermesh.Order.Consumers as OrderConsumers
use ordermesh.Inventory.Model as InventoryModel
use ordermesh.Inventory.Consumers as InventoryConsumers
use ordermesh.Inventory.Service.{reserve_for_order, release_for_order}
use ordermesh.Shipping.Model as ShippingModel
use ordermesh.Shipping.Service.{create_shipment}
use ordermesh.Shipping.Consumers as ShippingConsumers
use ordermesh.Notification.Service as Notification
use ordermesh.Notification.Consumers as NotificationConsumers
use ordermesh.System.Rabbit.{Net}
use ordermesh.System.Truth.{IsRoundTrip}
use ordermesh.System.Typed.Bus.{IsTyped, IsClear, Fine, Handles, publish-Fine}
use ordermesh.System.Typed.Payloads.{
  reserved-IsTyped, unavailable-IsTyped, released-IsTyped, shipped-IsTyped,
}
use ordermesh.System.{Env, platform, all_on_tables}

require_id-IsTyped :
    (e : Event) (t : IsTyped e.event_type e.payload) → require_id "order_id" e.payload ≡ ok t.id
require_id-IsTyped e t = rw t.order

module _ {C Body : Type 0} (env : Env C Body) where
  set_status_of-net :
      (found : Option Order) (id : ℕ) (status : OrderStatus) (h : Host OrderModel.Db C (Net Body))
      → (set_status_of (platform env env.order_redis) found id status h).net ≡ h.net
  set_status_of-net none id status h = refl
  set_status_of-net (some o) id status h = elim (Bool-cases (same_status o.status status)) [
    | inl e ↦ rw e
    | inr e ↦ rw e
  ]

  set_on-Fine :
      (e : Event) (status : OrderStatus) (h : Host OrderModel.Db C (Net Body))
      → IsTyped e.event_type e.payload
      → IsClear env h.net
      → Fine env (
          OrderConsumers.set_on
            (platform env env.order_redis)
            (require_id "order_id" e.payload)
            status
            h)
  unfolding set_status
  set_on-Fine e status h t c =
      rw (require_id-IsTyped e t)
        (refl, subst (IsClear env) (sym (set_status_of-net (get_order t.id h.db) t.id status h)) c)

  pub order-Handles : All (Handles env) (OrderConsumers.handlers (platform env env.order_redis))
  unfolding OrderConsumers.handlers
  order-Handles = (
    λ e t key ctx h c. set_on-Fine e OrderModel.confirmed h t c,
    (
      λ e t key ctx h c. set_on-Fine e OrderModel.cancelled h t c,
      (λ e t key ctx h c. set_on-Fine e OrderModel.shipped h t c, tt),
    ),
  )

  -- The emails.
  notify-Fine :
      (subject : String) (e : Event) (ctx : String) (db : Notification.Db)
      → IsTyped e.event_type e.payload
      → (NotificationConsumers.notify env.dumps env.str_of_list subject e ctx db).0 ≡ ok tt
  notify-Fine subject e ctx db t = rw t.order

  pub emails-Handle :
      All
        (Handles env {K = Unit {0}})
        (all_on_tables (NotificationConsumers.handlers env.dumps env.str_of_list))
  unfolding NotificationConsumers.handlers
  emails-Handle = (
    λ e t key ctx h c. (notify-Fine "Order Confirmation" e ctx h.db t, c),
    (
      λ e t key ctx h c. (notify-Fine "Stock Reserved" e ctx h.db t, c),
      (
        λ e t key ctx h c. (notify-Fine "Shipment Created" e ctx h.db t, c),
        (λ e t key ctx h c. (notify-Fine "Shipment Delivered" e ctx h.db t, c), tt),
      ),
    ),
  )

  module _ (round_trip : IsRoundTrip env) where
    announce-Fine :
        (b : Bool) (id : ℕ) (items : List Item) (rid : String)
        (h : Host InventoryModel.Db C (Net Body))
        → IsClear env h.net
        → Fine env (InventoryConsumers.announce (platform env env.inventory_redis) b id items rid h)
    announce-Fine true id items rid h c =
        publish-Fine env round_trip env.inventory_redis EventType.stock_reserved _ rid h
          (reserved-IsTyped id items) c
    announce-Fine false id items rid h c =
        publish-Fine env round_trip env.inventory_redis EventType.stock_unavailable _ rid h
          (unavailable-IsTyped id) c

    created-Fine :
        (e : Event) (rid : String) (h : Host InventoryModel.Db C (Net Body))
        → IsTyped e.event_type e.payload
        → e.event_type ≡ "OrderCreated"
        → IsClear env h.net
        → Fine env (
            InventoryConsumers.created_with
              (platform env env.inventory_redis)
              (require_id "order_id" e.payload)
              (require_items "items" e.payload)
              rid
              h)
    unfolding InventoryConsumers.reserve_and_announce
    created-Fine e rid h t key c =
        let (l, there) = t.items key in
        let after = reserve_for_order env.inventory_redis t.id l h.db h.cache in
        rw (t.order, there)
          (announce-Fine after.result t.id l rid (record h { db = after.db; cache = after.cache })
            c)

    announce_release-Fine :
        (ids : List ℕ) (id : ℕ) (rid : String) (h : Host InventoryModel.Db C (Net Body))
        → IsClear env h.net
        → Fine env
            (InventoryConsumers.announce_release (platform env env.inventory_redis) ids id rid h)
    announce_release-Fine [] id rid h c = (refl, c)
    announce_release-Fine (i ∷ ids) id rid h c =
        publish-Fine env round_trip env.inventory_redis EventType.stock_released _ rid h
          (released-IsTyped id (i ∷ ids)) c

    cancelled-Fine :
        (e : Event) (rid : String) (h : Host InventoryModel.Db C (Net Body))
        → IsTyped e.event_type e.payload
        → IsClear env h.net
        → Fine env (
            InventoryConsumers.cancelled_with
              (platform env env.inventory_redis)
              (require_id "order_id" e.payload)
              rid
              h)
    unfolding InventoryConsumers.release_and_announce
    cancelled-Fine e rid h t c =
        let after = release_for_order env.inventory_redis t.id h.db h.cache in
        rw (require_id-IsTyped e t) (
          announce_release-Fine after.0 t.id rid (record h { db = after.1.0; cache = after.1.1 }) c)

    pub inventory-Handles :
        All (Handles env) (InventoryConsumers.handlers (platform env env.inventory_redis))
    unfolding InventoryConsumers.handlers InventoryConsumers.on_order_created
        InventoryConsumers.on_order_cancelled
    inventory-Handles = (
      λ e t key ctx h c. created-Fine e ctx h t key c,
      (λ e t key ctx h c. cancelled-Fine e ctx h t c, tt),
    )

    shipment-Fine :
        (e : Event) (rid : String) (h : Host ShippingModel.Db C (Net Body))
        → IsTyped e.event_type e.payload
        → IsClear env h.net
        → Fine env (
            ShippingConsumers.reserved_with
              (platform env env.shipping_redis)
              env.year
              env.draw
              (require_id "order_id" e.payload)
              rid
              h)
    shipment-Fine e rid h t c =
        let after = create_shipment (env.year h.net) (env.draw h.net) t.id h.db in
        rw (require_id-IsTyped e t) (
          publish-Fine env round_trip env.shipping_redis EventType.shipment_created _ rid
            (record h { db = after.1 }) (shipped-IsTyped t.id after.0) c)

    pub shipping-Handles :
        All
          (Handles env)
          (ShippingConsumers.handlers (platform env env.shipping_redis) env.year env.draw)
    unfolding ShippingConsumers.handlers
    shipping-Handles = (λ e t key ctx h c. shipment-Fine e ctx h t c, tt)
