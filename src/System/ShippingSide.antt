-- ===== src/System/ShippingSide.antt =====
-- services/shipping/app: its request and its consumer, among the other services.
use ordermesh.Prelude.{
  ℕ, ◌≡◌, refl, subst, String, Option, none, some, List, [], ◌∷◌, inl, inr, Bool, true, false,
  Bool-cases, All, All-map, ◌==◌,
}
use ordermesh.Shared.Outcome.{Result, ok, raise}
use ordermesh.Shared.Auth.{Identity, require_role}
use ordermesh.Shared.Event.{EventType, Payload, name, require_id}
use ordermesh.Shared.Broker.{Message}
use ordermesh.Shared.Platform.{Host, publish_event}
use ordermesh.Shipping.Model.{Shipment, ShipmentStatus, Db, is_delivered}
use ordermesh.Shipping.Service.{
  for_order, find_shipment, get_shipment, create_shipment, update_status,
}
use ordermesh.Shipping.Create.{IsValid, create_shipment-IsValid, create_shipment_stores}
use ordermesh.Shipping.Routes.{
  delivered_payload, announce_delivery, updated, updated_by, update_shipment_status,
}
use ordermesh.Shipping.Consumers.{created_payload, reserved_with, handlers}
use ordermesh.Order.Model as OrderModel
use ordermesh.Inventory.Model as InventoryModel
use ordermesh.System.Rabbit.{Net, shipping_events, channel}
use ordermesh.System.Keeping.{Keeps}
use ordermesh.System.Truth.{IsOrder, HasShipment, Sound, IsRoundTrip}
use ordermesh.System.Rows.{Rows, tables}
use ordermesh.System.Working.{Working, Working-commit, Working-publish, consume-Working}
use ordermesh.System.{Env, platform, consume}
use ordermesh.System.ShippingRows.{
  write_status-HasShipment, write_status-IsValid, write_status-orders, create_shipment-HasShipment,
  create_shipment-orders, returning-state,
}

delivered-Sound :
    (orders : List OrderModel.Order) (shipments : List Shipment) (x : Shipment)
    → IsOrder orders x.order_id
    → Sound orders shipments (name EventType.shipment_delivered) (delivered_payload x)
delivered-Sound orders shipments x known = record {
  known = λ n is. subst (IsOrder orders) (cc) known;
  asks = λ items is. absurd (cc);
  sent = λ key. absurd (cc);
}

module _ {C Body : Type 0} (env : Env C Body) (o : OrderModel.Db) (i : InventoryModel.Db) where
  abbrev pub AtWork : List (Message Body) → Host Db C (Net Body) → Type 0
  AtWork = Working env (λ s. tables o s) (λ s. Rows o i s)

  commit-AtWork :
      (ms : List (Message Body)) (h : Host Db C (Net Body)) (db : Db) (c : C)
      → IsValid db
      → ((n : ℕ) → HasShipment h.db.shipments n → HasShipment db.shipments n)
      → All (λ x. IsOrder o.orders x.order_id) db.shipments
      → AtWork ms h
      → AtWork ms (record h { db = db; cache = c })
  commit-AtWork ms h db c v g known w =
      Working-commit env (λ s. tables o s) (λ s. Rows o i s) ms h db c
        (record { orders = λ n is. is; shipments = g })
        (record {
          inventory = w.rows.inventory;
          shipping = v;
          reservations = w.rows.reservations;
          shipments = known;
          shipped_sent = All-weaken o.orders w.rows.shipped_sent;
        })
        w
    where
      All-weaken :
          (os : List OrderModel.Order)
          → All (λ x. x.status ≡ OrderModel.shipped → HasShipment h.db.shipments x.id) os
          → All (λ x. x.status ≡ OrderModel.shipped → HasShipment db.shipments x.id) os
      All-weaken os = All-map (λ x f is. g x.id (f is)) os

  module _ (round_trip : IsRoundTrip env) where
    publish-AtWork :
        (ms : List (Message Body)) (kind : EventType) (p : Payload) (rid : String)
        (h : Host Db C (Net Body))
        → Sound o.orders h.db.shipments (name kind) p
        → AtWork ms h
        → AtWork ms (publish_event (platform env env.shipping_redis) kind p rid h).1
    unfolding publish_event
    publish-AtWork ms kind p rid h sound w =
        Working-publish env (λ s. tables o s) (λ s. Rows o i s) env.shipping_redis round_trip ms
          kind p rid h sound w

    reserved_with-AtWork :
        (ms : List (Message Body)) (id : Result ℕ) (rid : String) (h : Host Db C (Net Body))
        → ((n : ℕ) → id ≡ ok n → IsOrder o.orders n)
        → AtWork ms h
        → AtWork ms (reserved_with (platform env env.shipping_redis) env.year env.draw id rid h).1
    reserved_with-AtWork ms (raise e) rid h known w = w
    reserved_with-AtWork ms (ok id) rid h known w =
        let after = create_shipment (env.year h.net) (env.draw h.net) id h.db in
        publish-AtWork ms EventType.shipment_created (created_payload id after.0) rid _
          (sound after.0 after.1 (create_shipment_stores (env.year h.net) (env.draw h.net) id h.db))
          (commit-AtWork ms h after.1 h.cache
            (create_shipment-IsValid (env.year h.net) (env.draw h.net) id h.db w.rows.shipping)
            (create_shipment-HasShipment (env.year h.net) (env.draw h.net) id h.db)
            (create_shipment-orders (IsOrder o.orders) (env.year h.net) (env.draw h.net) id h.db
              (known id refl) w.rows.shipments)
            w)
      where
        sound :
            (x : Shipment) (db : Db)
            → for_order id db.shipments ≡ some x
            → Sound o.orders db.shipments "ShipmentCreated" (created_payload id x)
        sound x db e =
            unfold created_payload in
            record {
              known = λ n is. subst (IsOrder o.orders) (cc) (known id refl);
              asks = λ items is. absurd (cc);
              sent = λ key n is.
                  let same : id ≡ n = cc in
                  subst (HasShipment db.shipments) same (λ missing. cc (e, missing));
            }

    keeps :
        (m : Message Body)
        → All
            (Keeps (AtWork (m ∷ [])) (channel shipping_events) env.validate m)
            (handlers (platform env env.shipping_redis) env.year env.draw)
    unfolding handlers
    keeps m = (
      λ e v key ctx h w.
          reserved_with-AtWork (m ∷ []) (require_id "order_id" e.payload) ctx h (w.held.0 e v).known
            w,
      tt,
    )

    pub consume-AtWork :
        (m : Message Body) (h : Host Db C (Net Body))
        → AtWork (m ∷ []) h
        → AtWork [] (
            consume env shipping_events
              (handlers (platform env env.shipping_redis) env.year env.draw)
              m
              h)
    consume-AtWork m h w =
        consume-Working env (λ s. tables o s) (λ s. Rows o i s) shipping_events _ m (keeps m) h w

    announce_delivery-AtWork :
        (b : Bool) (x : Shipment) (rid : String) (h : Host Db C (Net Body))
        → IsOrder o.orders x.order_id
        → AtWork [] h
        → AtWork [] (announce_delivery (platform env env.shipping_redis) b x rid h).1
    announce_delivery-AtWork false x rid h known w = w
    announce_delivery-AtWork true x rid h known w = rw (returning-state x) (
        publish-AtWork [] EventType.shipment_delivered (delivered_payload x) rid h
          (delivered-Sound o.orders h.db.shipments x known) w)

    find-order :
        (id : ℕ) (ss : List Shipment) (x : Shipment)
        → find_shipment id ss ≡ some x
        → All (λ y. IsOrder o.orders y.order_id) ss
        → IsOrder o.orders x.order_id
    find-order id [] x e h = absurd (cc)
    find-order id (y ∷ ss) x e h = elim (Bool-cases (y.id == id)) [
      | inl same ↦
          let is : y ≡ x = cc (rw same at e) in
          subst (λ (z : Shipment). IsOrder o.orders z.order_id) is h.0
      | inr other ↦ find-order id ss x (rw other at e) h.1
    ]

    updated-AtWork :
        (found : Option Shipment) (id : ℕ) (status : ShipmentStatus) (rid : String)
        (h : Host Db C (Net Body))
        → find_shipment id h.db.shipments ≡ found
        → AtWork [] h
        → AtWork [] (updated (platform env env.shipping_redis) found status rid h).1
    unfolding update_status
    updated-AtWork none id status rid h e w = w
    updated-AtWork (some x) id status rid h e w =
        announce_delivery-AtWork (is_delivered status) (record x { status = status }) rid _
          (find-order id h.db.shipments x e w.rows.shipments)
          (commit-AtWork [] h _ _ (write_status-IsValid x.id status h.db w.rows.shipping)
            (write_status-HasShipment x.id status h.db.shipments)
            (write_status-orders x.id status (IsOrder o.orders) h.db.shipments w.rows.shipments) w)

    updated_by-AtWork :
        (r : Result Identity) (id : ℕ) (status : ShipmentStatus) (rid : String)
        (h : Host Db C (Net Body))
        → AtWork [] h
        → AtWork [] (updated_by (platform env env.shipping_redis) r id status rid h).1
    unfolding get_shipment
    updated_by-AtWork (raise e) id status rid h w = w
    updated_by-AtWork (ok _) id status rid h w =
        updated-AtWork (find_shipment id h.db.shipments) id status rid h refl w

    -- `PATCH /shipments/{shipment_id}/status`
    pub update-AtWork :
        (id : ℕ) (status : ShipmentStatus) (identity : Identity) (rid : String)
        (h : Host Db C (Net Body))
        → AtWork [] h
        → AtWork []
            (update_shipment_status (platform env env.shipping_redis) id status identity rid h).1
    unfolding update_shipment_status
    update-AtWork id status identity rid h w =
        updated_by-AtWork (require_role ("ADMIN" ∷ []) identity) id status rid h w
