-- ===== src/Shipping/Routes.antt =====
-- services/shipping/app/routes.py.
use ordermesh.Prelude.{ℕ, String, Option, none, some, [], ◌∷◌, Bool, true, false}
use ordermesh.Shared.Outcome.{Result, ok, raise, http}
use ordermesh.Shared.Auth.{Identity, require_role}
use ordermesh.Shared.Cache.{get_json, set_json}
use ordermesh.Shared.Event.{EventType, Value, Payload}
use ordermesh.Shared.Platform.{Platform, Host, publish_event}
use ordermesh.Shipping.Model.{Shipment, ShipmentOut, ShipmentStatus, is_delivered, Db}
use ordermesh.Shipping.Service.{cache_key, update_status}
use ordermesh.Shipping.Service

abbrev pub delivered_payload : Shipment → Payload
delivered_payload s =
    ("order_id", Value.id s.order_id) ∷ ("tracking_number", Value.str s.tracking_number) ∷ []

abbrev pub returning : {A S : Type 0} → A → Result (Unit {0}) × S → Result A × S
returning a (ok _, s) = (ok a, s)
returning a (raise e, s) = (raise e, s)

module _ {C X Body : Type 0} (platform : Platform ShipmentOut C X Body) where
  abbrev pub from_table : ℕ → Option Shipment → C → Result ShipmentOut × C
  from_table id none c = (raise (http 404 "Shipment not found"), c)
  from_table id (some s) c =
      (ok s, set_json platform.redis platform.cache_ttl (cache_key id) s none c)

  abbrev pub cached_or_read : ℕ → Option ShipmentOut → Db → C → Result ShipmentOut × C
  cached_or_read id (some cached) db c = (ok cached, c)
  cached_or_read id none db c = from_table id (Service.get_shipment id db) c

  -- `GET /shipments/{shipment_id}`
  unfoldable pub get_shipment : ℕ → Identity → Db → C → Result ShipmentOut × C
  get_shipment id identity db c =
      let (cached, c') = get_json platform.redis (cache_key id) c in cached_or_read id cached db c'

  -- `if payload.status == ShipmentStatus.DELIVERED:` publish; then the row is returned.
  abbrev pub announce_delivery :
      Bool → Shipment → String → Host Db C X → Result ShipmentOut × Host Db C X
  announce_delivery true s rid h =
      returning s (publish_event platform EventType.shipment_delivered (delivered_payload s) rid h)
  announce_delivery false s rid h = (ok s, h)

  abbrev pub updated :
      Option Shipment → ShipmentStatus → String → Host Db C X → Result ShipmentOut × Host Db C X
  updated none status rid h = (raise (http 404 "Shipment not found"), h)
  updated (some s) status rid h =
      let (s', (db, c)) = update_status platform.redis s status h.db h.cache in
      announce_delivery (is_delivered status) s' rid (record h { db = db; cache = c })

  abbrev pub updated_by :
      Result Identity → ℕ → ShipmentStatus → String → Host Db C X → Result ShipmentOut × Host Db C X
  updated_by (raise e) id status rid h = (raise e, h)
  updated_by (ok _) id status rid h = updated (Service.get_shipment id h.db) status rid h

  -- `PATCH /shipments/{shipment_id}/status`, for an admin.
  unfoldable pub update_shipment_status :
      ℕ → ShipmentStatus → Identity → String → Host Db C X → Result ShipmentOut × Host Db C X
  update_shipment_status id status identity rid h =
      updated_by (require_role ("ADMIN" ∷ []) identity) id status rid h
