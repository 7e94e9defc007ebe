-- ===== src/System/Life/Short.antt =====
-- services/inventory/app/consumers.py: the stock does not cover the order.
use ordermesh.Prelude.{ℕ, ◌≡◌, refl, sym, ap, subst, String, false, none, List, [], ◌∷◌}
use ordermesh.Order.Model.{Order}
use ordermesh.Shared.Outcome.{ok}
use ordermesh.Shared.Event.{Event, EventType, Item, Payload, Value, create}
use ordermesh.Shared.Broker.{Message, to_message}
use ordermesh.Shared.Consumer.{has_request_id}
use ordermesh.Shared.Platform.{Host, publish_event}
use ordermesh.Inventory.Model.{Db}
use ordermesh.Inventory.Service.{first_reservation, available, wanted_of}
use ordermesh.Inventory.Reserve.{reserve_short}
use ordermesh.Inventory.Consumers.{on_order_created, handlers, reserve_and_announce}
use ordermesh.System.Rabbit.{Net, inventory_events, routed, without}
use ordermesh.System.Truth.{IsRoundTrip}
use ordermesh.System.Life.Stage.{placed_short, declined}
use ordermesh.System.Life.Serve.{served, taken, context_of}
use ordermesh.System.Life.At.{At, Says, Saying, emit-routed, told, Saying-append}
use ordermesh.System.{System, Env, platform, inventory_host, put_inventory, consumed, deliver_first}

module _ {C Body : Type 0} (env : Env C Body) (id : ℕ) (items : List Item) where
  abbrev only_id : Payload
  only_id = ("order_id", Value.id id) ∷ []

  module _ (m : Message Body) (e : Event) (s : System C Body) where
    abbrev rid : String
    rid = context_of (has_request_id e.request_id)

    abbrev popped : Net Body
    popped = without inventory_events m s.net

    abbrev report : Message Body
    report =
        to_message env.model_dump_json
          (create EventType.stock_unavailable only_id rid (env.now popped))

    abbrev declined_host : Host Db C (Net Body)
    declined_host = record {
      db = s.inventory_db;
      cache = s.inventory_cache;
      net = record popped { queues = routed report popped.queues };
    }

  module _ (o : Order) (before : Db) (fresh : first_reservation id before ≡ none)
      (short : available (wanted_of items) before.products ≡ false) (round_trip : IsRoundTrip env)
      (s : System C Body) (at : At env id items o before placed_short s) where
    handled :
        (m : Message Body) (says : Says env id items "OrderCreated" m)
        → on_order_created (platform env env.inventory_redis) says.event (rid m says.event s) (
            taken env inventory_events
              (handlers (platform env env.inventory_redis))
              m
              (inventory_host s))
          ≡ (ok tt, declined_host m says.event s)
    unfolding on_order_created reserve_and_announce publish_event
    handled m says =
        let db_fresh = subst (λ db. first_reservation id db ≡ none) (sym at.stock) fresh in
        let db_short =
          subst (λ (db : Db). available (wanted_of items) db.products ≡ false) (sym at.stock)
            short in
        rw (
          says.order,
          says.ordered refl,
          reserve_short env.inventory_redis id items s.inventory_db s.inventory_cache db_fresh
              db_short,
          emit-routed env id items env.inventory_redis EventType.stock_unavailable only_id
              (rid m says.event s) (popped m says.event s) at.calm,
        )

    consumed_declined :
        (m : Message Body) (says : Says env id items "OrderCreated" m)
        → consumed env inventory_events m s ≡ put_inventory (declined_host m says.event s) s
    unfolding consumed handlers
    consumed_declined m says =
        ap (λ h. put_inventory h s)
          (served env inventory_events (handlers (platform env env.inventory_redis)) m
            (inventory_host s) 0 says.event (on_order_created (platform env env.inventory_redis))
            (declined_host m says.event s) says.count says.valid (rw says.kind_of) (handled m says))

    -- The inventory's delivery.
    pub decline-At :
        (ms : List (Message Body))
        → s.net.queues inventory_events ≡ ms
        → Saying env id items ("OrderCreated" ∷ []) ms
        → At env id items o before declined (deliver_first env inventory_events ms s)
    decline-At [] e h = absurd h
    decline-At (m ∷ x ∷ ms) e h = absurd h.1
    decline-At (m ∷ []) e h =
        let t =
          told env id items EventType.stock_unavailable only_id (rid m h.0.event s)
            (popped m h.0.event s) round_trip refl (cc) in
        subst (At env id items o before declined) (sym (consumed_declined m h.0)) (record {
          inventory = rw e tt;
          shipping = at.shipping;
          order = Saying-append env id items [] _ "StockUnavailable" _ at.order t;
          emails = at.emails;
          calm = at.calm;
          found = at.found;
          stock = at.stock;
          sent = at.sent;
        })
