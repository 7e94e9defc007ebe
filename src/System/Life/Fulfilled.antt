-- ===== src/System/Life/Fulfilled.antt =====
-- An order that can be filled, from the request to its shipment.
use ordermesh.Prelude.{
  ◌≡◌, ◌≤◌, refl, sym, ap, subst, String, true, none, some, List, [], ◌∷◌, ◌++◌, map, All, arith,
  length, ==_refl,
}
use ordermesh.Shared.Outcome.{ok}
use ordermesh.Shared.Auth.{Identity}
use ordermesh.Shared.Event.{EventType, Item, create}
use ordermesh.Shared.Broker.{Message, to_message}
use ordermesh.Shared.Platform.{Host, publish_event}
use ordermesh.Inventory.Model as InventoryModel
use ordermesh.Inventory.Service.{first_reservation, available, wanted_of, reserve_all}
use ordermesh.Order.Model.{Order, OrderItem, OrderCreate, shipped, accepts}
use ordermesh.Order.Model as OrderModel
use ordermesh.Order.Service.{
  find_order, new_order, item_rows, total_of, event_item, created_payload, insert_order,
}
use ordermesh.Order.Service
use ordermesh.Order.Routes.{caller_id}
use ordermesh.Order.Routes
use ordermesh.System.Rabbit.{
  Queue, order_events, inventory_events, shipping_events, notification_events, Net, routed,
}
use ordermesh.System.Truth.{IsRoundTrip, HasShipment}
use ordermesh.System.Life.Stage.{placed, over, IsRound, all_of, rounds_end}
use ordermesh.System.Life.At.{At, Says, emit-routed, told}
use ordermesh.System.Life.Deliveries.{run-At, saying-nothing}
use ordermesh.System.{System, Env, create_order, deliver, step, run, put_order}

find_order-append :
    (os : List Order) (o : Order)
    → find_order o.id os ≡ none
    → find_order o.id (os ++ o ∷ []) ≡ some o
find_order-append [] o h = rw (==_refl o.id)
find_order-append (p ∷ os) o h = ground (arith, find_order-append os o)

abbrev pub items_of : Order → List Item
items_of o = map event_item o.items

-- The order is shipped, and else as it was placed; its stock is reserved, it has a shipment, and
-- nothing waits at the three services that work on it.
pub record IsFulfilled {C Body : Type 0} (o : Order) (before : InventoryModel.Db)
    (s : System C Body) : Type 0 where
  pub shipped_row : find_order o.id s.order_db.orders ≡ some (record o { status = shipped })
  pub reserved : s.inventory_db ≡ reserve_all o.id (wanted_of (items_of o)) before
  pub sent : HasShipment s.shipping_db.shipments o.id
  pub inventory_drained : s.net.queues inventory_events ≡ []
  pub shipping_drained : s.net.queues shipping_events ≡ []
  pub order_drained : s.net.queues order_events ≡ []

module _ {C Body : Type 0} (env : Env C Body) where
  over-IsFulfilled :
      (o : Order) (before : InventoryModel.Db) (s : System C Body)
      → At env o.id (items_of o) o before over s
      → IsFulfilled o before s
  over-IsFulfilled o before s at = record {
    shipped_row = at.found;
    reserved = at.stock;
    sent = at.sent;
    inventory_drained = saying-nothing env o.id (items_of o) _ at.inventory;
    shipping_drained = saying-nothing env o.id (items_of o) _ at.shipping;
    order_drained = saying-nothing env o.id (items_of o) _ at.order;
  }

  module _ (o : Order) (rid : String) (s : System C Body) where
    abbrev pub report : Message Body
    report =
        to_message env.model_dump_json
          (create EventType.order_created (created_payload o) rid (env.now s.net))

    abbrev pub placed_host : Host OrderModel.Db C (Net Body)
    placed_host = record {
      db = insert_order o s.order_db;
      cache = s.order_cache;
      net = record (s.net) { queues = routed report s.net.queues };
    }

  -- The request is accepted, its amounts fit their columns, and its order is `o`.
  pub record Places (payload : OrderCreate) (identity : Identity) (s : System C Body) (o : Order)
      : Type 0 where
    pub accepted : accepts payload ≡ true
    pub caller : caller_id identity ≡ ok o.customer_id
    pub total : env.numeric (total_of payload) ≡ ok o.total_amount
    pub rows : item_rows env.numeric payload ≡ ok o.items
    pub row : o ≡ new_order s.order_db.order_seq o.customer_id o.total_amount o.items

  -- Nothing is on its way and no call of `publish` raises.
  pub record IsCalm (s : System C Body) : Type 0 where
    pub empty : (q : Queue) → s.net.queues q ≡ []
    pub calm : s.net.faults ≡ []

  module _ (payload : OrderCreate) (identity : Identity) (rid : String) (s : System C Body)
      (o : Order) (places : Places payload identity s o) (quiet : IsCalm s) where
    pub step-placed :
        step env (create_order payload identity rid) s ≡ put_order (placed_host o rid s) s
    unfolding step Routes.create_order Service.create_order publish_event
    step-placed = rw (
      places.accepted,
      places.caller,
      places.total,
      places.rows,
      ← places.row,
      emit-routed env o.id (items_of o) env.order_redis EventType.order_created (created_payload o)
          rid s.net quiet.calm,
    )

    pub placed-At :
        IsRoundTrip env
        → find_order o.id s.order_db.orders ≡ none
        → At env o.id (items_of o) o s.inventory_db placed (put_order (placed_host o rid s) s)
    placed-At round_trip free =
        let t : Says env o.id (items_of o) "OrderCreated" (report o rid s) =
          told env o.id (items_of o) EventType.order_created (created_payload o) rid s.net
            round_trip (unfold created_payload in refl) (λ e. unfold created_payload in refl) in
        record {
          inventory = rw (quiet.empty inventory_events) (t, tt);
          shipping = rw (quiet.empty shipping_events) tt;
          order = rw (quiet.empty order_events) tt;
          emails = rw (quiet.empty notification_events) (("OrderCreated", t), tt);
          calm = quiet.calm;
          found =
              subst
                (λ st.
                  find_order o.id (s.order_db.orders ++ o ∷ []) ≡ some (record o { status = st }))
                (ap (λ (x : Order). x.status) places.row)
                (find_order-append s.order_db.orders o free);
          stock = refl;
          sent = tt;
        }

    -- An order that can be filled is filled. The request is placed in a system with empty queues in
    -- which no call of `publish` raises and pydantic reads back what it wrote; the order's number is
    -- new in the tables and the stock covers its items. Then four rounds of deliveries, each with a
    -- delivery at every one of the three services that work on the order, in any order and among any
    -- others, the notification service's included, leave it SHIPPED, with exactly its stock reserved,
    -- with a shipment, and with nothing more waiting at the three services.
    pub create_order-IsFulfilled :
        IsRoundTrip env
        → find_order o.id s.order_db.orders ≡ none
        → first_reservation o.id s.inventory_db ≡ none
        → available (wanted_of (items_of o)) s.inventory_db.products ≡ true
        → (rounds : List (List Queue)) → All IsRound rounds
        → 4 ≤ length rounds
        → IsFulfilled o s.inventory_db
            (run env (create_order payload identity rid ∷ map deliver (all_of rounds)) s)
    unfolding run
    create_order-IsFulfilled round_trip free fresh enough rounds fair many =
        subst (λ t. IsFulfilled o s.inventory_db (run env (map deliver (all_of rounds)) t))
          (sym step-placed)
          (over-IsFulfilled o s.inventory_db _ (
            subst
              (λ st.
                At env o.id (items_of o) o s.inventory_db st
                  (run env (map deliver (all_of rounds)) (put_order (placed_host o rid s) s)))
              (rounds_end rounds placed fair many)
              (run-At env round_trip o.id (items_of o) o s.inventory_db fresh (all_of rounds) placed
                (put_order (placed_host o rid s) s) enough (placed-At round_trip free))))
