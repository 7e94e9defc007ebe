-- ===== src/Shipping/Consumers.antt =====
-- services/shipping/app/consumers.py: reserved stock becomes a shipment.
use ordermesh.Prelude.{ℕ, String, [], ◌∷◌, codes}
use ordermesh.Shared.Outcome.{Result, ok, raise}
use ordermesh.Shared.Event.{Event, EventType, Value, Payload, require_id}
use ordermesh.Shared.Consumer.{Handlers, on}
use ordermesh.Shared.Platform.{Platform, Host, publish_event}
use ordermesh.Shipping.Model.{Shipment, ShipmentOut, Db}
use ordermesh.Shipping.Service.{create_shipment}

unfoldable pub created_payload : ℕ → Shipment → Payload
created_payload order_id s =
    ("order_id", Value.id order_id)
    ∷ ("shipment_id", Value.id s.id)
    ∷ ("tracking_number", Value.str s.tracking_number)
    ∷ ("courier_name", Value.str (codes s.courier_name))
    ∷ []

module _ {C X Body : Type 0} (platform : Platform ShipmentOut C X Body) (year draw : X → ℕ) where
  abbrev pub State : Type 0
  State = Host Db C X

  abbrev pub create_and_announce : ℕ → String → State → Result (Unit {0}) × State
  create_and_announce order_id rid h =
      let (s, db) = create_shipment (year h.net) (draw h.net) order_id h.db in
      publish_event platform EventType.shipment_created (created_payload order_id s) rid
        (record h { db = db })

  abbrev pub reserved_with : Result ℕ → String → State → Result (Unit {0}) × State
  reserved_with (ok order_id) rid h = create_and_announce order_id rid h
  reserved_with (raise e) rid h = (raise e, h)

  unfoldable pub on_stock_reserved : Event → String → State → Result (Unit {0}) × State
  on_stock_reserved event rid h = reserved_with (require_id "order_id" event.payload) rid h

  -- The handler of `build_consumer`, on the queue `shipping.events`.
  unfoldable pub handlers : Handlers State
  unfolding on_stock_reserved
  handlers = on EventType.stock_reserved on_stock_reserved []
