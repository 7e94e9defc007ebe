-- ===== src/System/Life/Shipment.antt =====
-- services/shipping/app/consumers.py: the order gets its shipment.
use ordermesh.Prelude.{ℕ, ◌≡◌, refl, sym, ap, subst, String, List, [], ◌∷◌, All-append}
use ordermesh.Order.Model.{Order}
use ordermesh.Shared.Event.{Event, EventType, Item, create}
use ordermesh.Shared.Broker.{Message, to_message}
use ordermesh.Shared.Consumer.{has_request_id}
use ordermesh.Shared.Platform.{Host, publish_event}
use ordermesh.Inventory.Model as InventoryModel
use ordermesh.Shipping.Model.{Db, Shipment}
use ordermesh.Shipping.Service.{create_shipment}
use ordermesh.Shipping.Create.{create_shipment_stores}
use ordermesh.Shipping.Consumers.{created_payload, on_stock_reserved, handlers}
use ordermesh.System.Rabbit.{Net, shipping_events, notification_events, routed, without}
use ordermesh.System.Truth.{IsRoundTrip, HasShipment}
use ordermesh.System.Life.Stage.{reserved, confirmed_first, sent_first, announced}
use ordermesh.System.Life.Serve.{served, context_of}
use ordermesh.System.Life.At.{At, Says, Saying, emit-routed, told, Saying-append}
use ordermesh.System.{System, Env, platform, shipping_host, put_shipping, consumed, deliver_first}

module _ {C Body : Type 0} (env : Env C Body) (id : ℕ) (items : List Item) (o : Order)
    (before : InventoryModel.Db) (s : System C Body) where
  module _ (m : Message Body) (e : Event) where
    abbrev rid : String
    rid = context_of (has_request_id e.request_id)

    abbrev popped : Net Body
    popped = without shipping_events m s.net

    abbrev made : Shipment × Db
    made = create_shipment (env.year popped) (env.draw popped) id s.shipping_db

    abbrev report : Message Body
    report =
        to_message env.model_dump_json
          (create EventType.shipment_created (created_payload id made.0) rid (env.now popped))

    abbrev sent_host : Host Db C (Net Body)
    sent_host = record {
      db = made.1;
      cache = s.shipping_cache;
      net = record popped { queues = routed report popped.queues };
    }

  consumed_sent :
      (m : Message Body) (says : Says env id items "StockReserved" m)
      → s.net.faults ≡ []
      → consumed env shipping_events m s ≡ put_shipping (sent_host m says.event) s
  unfolding consumed handlers on_stock_reserved publish_event
  consumed_sent m says calm =
      ap (λ h. put_shipping h s)
        (served env shipping_events (handlers (platform env env.shipping_redis) env.year env.draw) m
          (shipping_host s) 0 says.event
          (on_stock_reserved (platform env env.shipping_redis) env.year env.draw)
          (sent_host m says.event) says.count says.valid (rw says.kind_of)
          (rw (
            says.order,
            emit-routed env id items env.shipping_redis EventType.shipment_created
                (created_payload id (made m says.event).0) (rid m says.event) (popped m says.event)
                calm,
          )))

  module _ (round_trip : IsRoundTrip env) where
    told_sent :
        (m : Message Body) (says : Says env id items "StockReserved" m)
        → Says env id items "ShipmentCreated" (report m says.event)
    told_sent m says =
        told env id items EventType.shipment_created (created_payload id (made m says.event).0)
          (rid m says.event) (popped m says.event) round_trip (unfold created_payload in refl) (cc)

    there :
        (m : Message Body) (says : Says env id items "StockReserved" m)
        → HasShipment (made m says.event).1.shipments id
    there m says missing = cc (
      create_shipment_stores (env.year (popped m says.event)) (env.draw (popped m says.event)) id
          s.shipping_db,
      missing,
    )

    -- The shipping service's delivery.
    pub send_first-At :
        (ms : List (Message Body))
        → At env id items o before reserved s
        → s.net.queues shipping_events ≡ ms
        → Saying env id items ("StockReserved" ∷ []) ms
        → At env id items o before sent_first (deliver_first env shipping_events ms s)
    send_first-At [] at e h = absurd h
    send_first-At (m ∷ x ∷ ms) at e h = absurd h.1
    send_first-At (m ∷ []) at e h =
        subst (At env id items o before sent_first) (sym (consumed_sent m h.0 at.calm)) (record {
          inventory = at.inventory;
          shipping = rw e tt;
          order =
              Saying-append env id items ("StockReserved" ∷ []) _ "ShipmentCreated" _ at.order
                (told_sent m h.0);
          emails =
              All-append _ (s.net.queues notification_events) _ at.emails
                (("ShipmentCreated", told_sent m h.0), tt);
          calm = at.calm;
          found = at.found;
          stock = at.stock;
          sent = there m h.0;
        })

    pub send_last-At :
        (ms : List (Message Body))
        → At env id items o before confirmed_first s
        → s.net.queues shipping_events ≡ ms
        → Saying env id items ("StockReserved" ∷ []) ms
        → At env id items o before announced (deliver_first env shipping_events ms s)
    send_last-At [] at e h = absurd h
    send_last-At (m ∷ x ∷ ms) at e h = absurd h.1
    send_last-At (m ∷ []) at e h =
        subst (At env id items o before announced) (sym (consumed_sent m h.0 at.calm)) (record {
          inventory = at.inventory;
          shipping = rw e tt;
          order = Saying-append env id items [] _ "ShipmentCreated" _ at.order (told_sent m h.0);
          emails =
              All-append _ (s.net.queues notification_events) _ at.emails
                (("ShipmentCreated", told_sent m h.0), tt);
          calm = at.calm;
          found = at.found;
          stock = at.stock;
          sent = there m h.0;
        })
