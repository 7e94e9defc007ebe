-- ===== src/System/Life/Stock.antt =====
-- services/inventory/app/consumers.py: the stock of the order is reserved.
use ordermesh.Prelude.{ℕ, ◌≡◌, refl, sym, ap, subst, String, true, none, List, [], ◌∷◌, All-append}
use ordermesh.Order.Model.{Order}
use ordermesh.Shared.Outcome.{ok}
use ordermesh.Shared.Event.{Event, EventType, Item, create}
use ordermesh.Shared.Broker.{Message, to_message}
use ordermesh.Shared.Consumer.{has_request_id}
use ordermesh.Shared.Platform.{Host, publish_event}
use ordermesh.Inventory.Model.{Db}
use ordermesh.Inventory.Service.{
  first_reservation, available, wanted_of, reserve_all, invalidate_wanted,
}
use ordermesh.Inventory.Reserve.{reserve_new}
use ordermesh.Inventory.Consumers.{
  on_order_created, handlers, reserved_payload, reserve_and_announce,
}
use ordermesh.System.Rabbit.{Net, inventory_events, notification_events, routed, without}
use ordermesh.System.Truth.{IsRoundTrip}
use ordermesh.System.Life.Stage.{placed, reserved}
use ordermesh.System.Life.Serve.{served, taken, context_of}
use ordermesh.System.Life.At.{At, Says, Saying, emit-routed, told, Saying-append}
use ordermesh.System.{System, Env, platform, inventory_host, put_inventory, consumed, deliver_first}

module _ {C Body : Type 0} (env : Env C Body) (id : ℕ) (items : List Item) where
  module _ (m : Message Body) (e : Event) (s : System C Body) where
    abbrev rid : String
    rid = context_of (has_request_id e.request_id)

    abbrev popped : Net Body
    popped = without inventory_events m s.net

    abbrev report : Message Body
    report =
        to_message env.model_dump_json
          (create EventType.stock_reserved (reserved_payload id items) rid (env.now popped))

    abbrev reserved_host : Host Db C (Net Body)
    reserved_host = record {
      db = reserve_all id (wanted_of items) s.inventory_db;
      cache = invalidate_wanted env.inventory_redis (wanted_of items) s.inventory_cache;
      net = record popped { queues = routed report popped.queues };
    }

  module _ (o : Order) (before : Db) (fresh : first_reservation id before ≡ none)
      (enough : available (wanted_of items) before.products ≡ true) (round_trip : IsRoundTrip env)
      (s : System C Body) (at : At env id items o before placed s) where
    handled :
        (m : Message Body) (says : Says env id items "OrderCreated" m)
        → on_order_created (platform env env.inventory_redis) says.event (rid m says.event s) (
            taken env inventory_events
              (handlers (platform env env.inventory_redis))
              m
              (inventory_host s))
          ≡ (ok tt, reserved_host m says.event s)
    unfolding on_order_created reserve_and_announce publish_event
    handled m says =
        let db_fresh = subst (λ db. first_reservation id db ≡ none) (sym at.stock) fresh in
        let db_enough =
          subst (λ (db : Db). available (wanted_of items) db.products ≡ true) (sym at.stock)
            enough in
        rw (
          says.order,
          says.ordered refl,
          reserve_new env.inventory_redis id items s.inventory_db s.inventory_cache db_fresh
              db_enough,
          emit-routed env id items env.inventory_redis EventType.stock_reserved
              (reserved_payload id items) (rid m says.event s) (popped m says.event s) at.calm,
        )

    consumed_reserved :
        (m : Message Body) (says : Says env id items "OrderCreated" m)
        → consumed env inventory_events m s ≡ put_inventory (reserved_host m says.event s) s
    unfolding consumed handlers
    consumed_reserved m says =
        ap (λ h. put_inventory h s)
          (served env inventory_events (handlers (platform env env.inventory_redis)) m
            (inventory_host s) 0 says.event (on_order_created (platform env env.inventory_redis))
            (reserved_host m says.event s) says.count says.valid (rw says.kind_of) (handled m says))

    reserved-At :
        (m : Message Body) (says : Says env id items "OrderCreated" m)
        → s.net.queues inventory_events ≡ m ∷ []
        → At env id items o before reserved (put_inventory (reserved_host m says.event s) s)
    reserved-At m says alone =
        let t =
          told env id items EventType.stock_reserved (reserved_payload id items)
            (rid m says.event s) (popped m says.event s) round_trip refl (cc) in
        record {
          inventory = rw alone tt;
          shipping = Saying-append env id items [] _ "StockReserved" _ at.shipping t;
          order = Saying-append env id items [] _ "StockReserved" _ at.order t;
          emails =
              All-append _ (s.net.queues notification_events) _ at.emails
                (("StockReserved", t), tt);
          calm = at.calm;
          found = at.found;
          stock = ap (reserve_all id (wanted_of items)) at.stock;
          sent = tt;
        }

    -- The inventory's delivery.
    pub reserve-At :
        (ms : List (Message Body))
        → s.net.queues inventory_events ≡ ms
        → Saying env id items ("OrderCreated" ∷ []) ms
        → At env id items o before reserved (deliver_first env inventory_events ms s)
    reserve-At [] e h = absurd h
    reserve-At (m ∷ []) e h =
        subst (At env id items o before reserved) (sym (consumed_reserved m h.0))
          (reserved-At m h.0 e)
    reserve-At (m ∷ x ∷ ms) e h = absurd h.1
