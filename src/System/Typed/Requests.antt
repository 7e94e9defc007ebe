-- ===== src/System/Typed/Requests.antt =====
-- The requests that publish.
use ordermesh.Prelude.{
  ℕ, String, Bool, true, false, Option, none, some, List, [], ◌∷◌, Bool-cases, inl, inr,
}
use ordermesh.Shared.Outcome.{Result, ok, raise}
use ordermesh.Shared.Auth.{Identity, require_role}
use ordermesh.Shared.Event.{EventType}
use ordermesh.Shared.Cache.{invalidate}
use ordermesh.Shared.Platform.{Host, publish_event}
use ordermesh.Order.Model.{Order, OrderItem, OrderCreate, cancelled, accepts}
use ordermesh.Order.Model as OrderModel
use ordermesh.Order.Service.{
  created_payload, cancelled_payload, get_order, create_with, new_order, insert_order, write_status,
  cache_key,
}
use ordermesh.Order.Service as OrderService
use ordermesh.Order.Routes.{
  create_as, cancel_found, cancel_checked, may_see, cancellable, caller_id,
}
use ordermesh.Order.Routes as OrderRoutes
use ordermesh.Order.Create.{returning-state}
use ordermesh.Shipping.Model.{Shipment, ShipmentStatus, is_delivered}
use ordermesh.Shipping.Model as ShippingModel
use ordermesh.Shipping.Service.{get_shipment, update_status}
use ordermesh.Shipping.Routes.{
  announce_delivery, updated, updated_by, delivered_payload, update_shipment_status,
}
use ordermesh.System.Rabbit.{Net}
use ordermesh.System.ShippingRows as ShippingRows
use ordermesh.System.Truth.{IsRoundTrip}
use ordermesh.System.Typed.Bus.{IsClear, publish-Fine}
use ordermesh.System.Typed.Payloads.{created-IsTyped, cancelled-IsTyped, delivered-IsTyped}
use ordermesh.System.{Env, platform}

module _ {C Body : Type 0} (env : Env C Body) (round_trip : IsRoundTrip env) where
  create_with-IsClear :
      (customer_id : ℕ) (total : Result ℕ) (rows : Result (List OrderItem)) (rid : String)
      (h : Host OrderModel.Db C (Net Body))
      → IsClear env h.net
      → IsClear env (create_with (platform env env.order_redis) customer_id total rows rid h).1.net
  create_with-IsClear customer_id (ok total) (ok rows) rid h c =
      let o = new_order h.db.order_seq customer_id total rows in
      let stored = record h { db = insert_order o h.db } in
      rw
        (returning-state o (
          publish_event (platform env env.order_redis) EventType.order_created (created_payload o)
            rid stored))
        (publish-Fine env round_trip env.order_redis EventType.order_created (created_payload o) rid
          stored (created-IsTyped o) c).1
  create_with-IsClear customer_id (ok total) (raise e) rid h c = c
  create_with-IsClear customer_id (raise e) rows rid h c = c

  create_as-IsClear :
      (caller : Result ℕ) (payload : OrderCreate) (rid : String)
      (h : Host OrderModel.Db C (Net Body))
      → IsClear env h.net
      → IsClear env
          (create_as (platform env env.order_redis) env.numeric caller payload rid h).1.net
  unfolding OrderService.create_order
  create_as-IsClear (ok caller) payload rid h c = create_with-IsClear caller _ _ rid h c
  create_as-IsClear (raise e) payload rid h c = c

  pub create_order-IsClear :
      (payload : OrderCreate) (identity : Identity) (rid : String)
      (h : Host OrderModel.Db C (Net Body))
      → IsClear env h.net
      → IsClear env
          (OrderRoutes.create_order
            (platform env env.order_redis)
            env.numeric
            payload
            identity
            rid
            h).1.net
  unfolding OrderRoutes.create_order
  create_order-IsClear payload identity rid h c = elim (Bool-cases (accepts payload)) [
    | inl e ↦ rw e (create_as-IsClear (caller_id identity) payload rid h c)
    | inr e ↦ rw e c
  ]

  cancel-IsClear :
      (o : Order) (rid : String) (h : Host OrderModel.Db C (Net Body))
      → IsClear env h.net
      → IsClear env (OrderService.cancel_order (platform env env.order_redis) o rid h).1.net
  unfolding OrderService.cancel_order
  cancel-IsClear o rid h c =
      let o' = record o { status = cancelled } in
      let written = record h {
        db = record h.db { orders = write_status o.id cancelled h.db.orders };
        cache = invalidate env.order_redis (cache_key o.id ∷ []) h.cache;
      } in
      rw
        (returning-state o' (
          publish_event (platform env env.order_redis) EventType.order_cancelled
            (cancelled_payload o') rid written))
        (publish-Fine env round_trip env.order_redis EventType.order_cancelled
          (cancelled_payload o') rid written (cancelled-IsTyped o') c).1

  cancel_checked-IsClear :
      (o : Order) (seen checked : Result (Unit {0})) (rid : String)
      (h : Host OrderModel.Db C (Net Body))
      → IsClear env h.net
      → IsClear env (cancel_checked (platform env env.order_redis) o seen checked rid h).1.net
  cancel_checked-IsClear o (raise e) checked rid h c = c
  cancel_checked-IsClear o (ok _) (raise e) rid h c = c
  cancel_checked-IsClear o (ok _) (ok _) rid h c = cancel-IsClear o rid h c

  cancel_found-IsClear :
      (found : Option Order) (identity : Identity) (rid : String)
      (h : Host OrderModel.Db C (Net Body))
      → IsClear env h.net
      → IsClear env (cancel_found (platform env env.order_redis) found identity rid h).1.net
  cancel_found-IsClear none identity rid h c = c
  cancel_found-IsClear (some o) identity rid h c =
      cancel_checked-IsClear o (may_see identity o.customer_id) (cancellable o.status) rid h c

  pub cancel_order-IsClear :
      (id : ℕ) (identity : Identity) (rid : String) (h : Host OrderModel.Db C (Net Body))
      → IsClear env h.net
      → IsClear env
          (OrderRoutes.cancel_order (platform env env.order_redis) id identity rid h).1.net
  unfolding OrderRoutes.cancel_order
  cancel_order-IsClear id identity rid h c =
      cancel_found-IsClear (get_order id h.db) identity rid h c

  announce_delivery-IsClear :
      (b : Bool) (x : Shipment) (rid : String) (h : Host ShippingModel.Db C (Net Body))
      → IsClear env h.net
      → IsClear env (announce_delivery (platform env env.shipping_redis) b x rid h).1.net
  announce_delivery-IsClear false x rid h c = c
  announce_delivery-IsClear true x rid h c =
      rw
        (ShippingRows.returning-state x (
          publish_event (platform env env.shipping_redis) EventType.shipment_delivered
            (delivered_payload x) rid h))
        (publish-Fine env round_trip env.shipping_redis EventType.shipment_delivered
          (delivered_payload x) rid h (delivered-IsTyped x) c).1

  updated-IsClear :
      (found : Option Shipment) (status : ShipmentStatus) (rid : String)
      (h : Host ShippingModel.Db C (Net Body))
      → IsClear env h.net
      → IsClear env (updated (platform env env.shipping_redis) found status rid h).1.net
  unfolding update_status
  updated-IsClear none status rid h c = c
  updated-IsClear (some x) status rid h c =
      announce_delivery-IsClear (is_delivered status) (record x { status = status }) rid _ c

  updated_by-IsClear :
      (r : Result Identity) (id : ℕ) (status : ShipmentStatus) (rid : String)
      (h : Host ShippingModel.Db C (Net Body))
      → IsClear env h.net
      → IsClear env (updated_by (platform env env.shipping_redis) r id status rid h).1.net
  updated_by-IsClear (raise e) id status rid h c = c
  updated_by-IsClear (ok _) id status rid h c =
      updated-IsClear (get_shipment id h.db) status rid h c

  pub update_shipment-IsClear :
      (id : ℕ) (status : ShipmentStatus) (identity : Identity) (rid : String)
      (h : Host ShippingModel.Db C (Net Body))
      → IsClear env h.net
      → IsClear env
          (update_shipment_status (platform env env.shipping_redis) id status identity rid h).1.net
  unfolding update_shipment_status
  update_shipment-IsClear id status identity rid h c =
      updated_by-IsClear (require_role ("ADMIN" ∷ []) identity) id status rid h c
