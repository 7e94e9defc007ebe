-- ===== src/System/Coherent/Shipments.antt =====
-- services/shipping/app: its cache under its request and its consumer.
use ordermesh.Prelude.{ℕ, String, Option, All, Text}
use ordermesh.Shared.Outcome.{Result, ok, raise}
use ordermesh.Shared.Auth.{Identity}
use ordermesh.Shared.Cache.{Raw}
use ordermesh.Shared.Cache.Server.{IsServer, IsReachable}
use ordermesh.Shared.Event.{EventType, require_id}
use ordermesh.Shared.Broker.{Message}
use ordermesh.Shared.Platform.{Host}
use ordermesh.Shipping.Model.{ShipmentOut, ShipmentStatus, Db}
use ordermesh.Shipping.Service.{create_shipment}
use ordermesh.Shipping.Routes.{update_shipment_status}
use ordermesh.Shipping.Consumers.{handlers, reserved_with, created_payload}
use ordermesh.Shipping.Coherence.{
  IsCoherent, create_shipment-IsCoherent, update_shipment_status-IsCoherent,
}
use ordermesh.System.Rabbit.{Net, shipping_events, channel}
use ordermesh.System.Keeping.{Keeps}
use ordermesh.System.Kept.{Kept, consume-Kept, publish-Kept}
use ordermesh.System.{Env, platform, consume}

module _ {C Body : Type 0} (env : Env C Body) {view : C → Text → Option (Raw ShipmentOut)}
    (server : IsServer env.shipping_redis view) where
  abbrev pub Agrees : Db → C → Type 0
  Agrees = IsCoherent (platform env env.shipping_redis) server

  abbrev At : Host Db C (Net Body) → Type 0
  At = Kept env Agrees

  reserved_with-At :
      (id : Result ℕ) (rid : String) (h : Host Db C (Net Body))
      → At h
      → At (reserved_with (platform env env.shipping_redis) env.year env.draw id rid h).1
  reserved_with-At (raise e) rid h k = k
  reserved_with-At (ok id) rid h k =
      let after = create_shipment (env.year h.net) (env.draw h.net) id h.db in
      publish-Kept env Agrees env.shipping_redis EventType.shipment_created
        (created_payload id after.0) rid (record h { db = after.1 })
        (create_shipment-IsCoherent (platform env env.shipping_redis) server (env.year h.net)
          (env.draw h.net) id h.db h.cache k)

  keeps :
      (m : Message Body)
      → All
          (Keeps At (channel shipping_events) env.validate m)
          (handlers (platform env env.shipping_redis) env.year env.draw)
  unfolding handlers
  keeps m = (λ e v key ctx h k. reserved_with-At (require_id "order_id" e.payload) ctx h k, tt)

  pub consume-At :
      (m : Message Body) (h : Host Db C (Net Body))
      → At h
      → At (
          consume env shipping_events
            (handlers (platform env env.shipping_redis) env.year env.draw)
            m
            h)
  consume-At m h k = consume-Kept env Agrees shipping_events _ m (keeps m) h k

  pub update-At :
      IsReachable env.shipping_redis
      → (id : ℕ) (status : ShipmentStatus) (identity : Identity) (rid : String)
        (h : Host Db C (Net Body))
      → At h
      → At (update_shipment_status (platform env env.shipping_redis) id status identity rid h).1
  update-At up id status identity rid h k =
      update_shipment_status-IsCoherent (platform env env.shipping_redis) server up id status
        identity rid h k
