-- ===== src/System/Life/Declined.antt =====
-- An order that cannot be filled, from the request to its end.
use ordermesh.Prelude.{
  ◌≡◌, ◌≤◌, sym, subst, String, false, none, some, List, [], ◌∷◌, map, All, length,
}
use ordermesh.Shared.Auth.{Identity}
use ordermesh.Inventory.Model as InventoryModel
use ordermesh.Inventory.Service.{first_reservation, available, wanted_of}
use ordermesh.Order.Model.{Order, OrderCreate, cancelled}
use ordermesh.Order.Service.{find_order}
use ordermesh.Shipping.Service.{for_order}
use ordermesh.System.Rabbit.{Queue, order_events, inventory_events, shipping_events}
use ordermesh.System.Truth.{IsRoundTrip}
use ordermesh.System.Life.Stage.{placed, placed_short, dropped, IsRound, all_of, rounds_end}
use ordermesh.System.Life.At.{At}
use ordermesh.System.Life.Deliveries.{run-At, saying-nothing}
use ordermesh.System.Life.Fulfilled.{items_of, Places, IsCalm, placed_host, step-placed, placed-At}
use ordermesh.System.{System, Env, create_order, deliver, run, put_order}

-- The order is cancelled, and else as it was placed; no stock is reserved for it, it has no shipment,
-- and nothing waits at the three services.
pub record IsDeclined {C Body : Type 0} (o : Order) (before : InventoryModel.Db) (s : System C Body)
    : Type 0 where
  pub cancelled_row : find_order o.id s.order_db.orders ≡ some (record o { status = cancelled })
  pub nothing_reserved : s.inventory_db ≡ before
  pub nothing_sent : for_order o.id s.shipping_db.shipments ≡ none
  pub inventory_drained : s.net.queues inventory_events ≡ []
  pub shipping_drained : s.net.queues shipping_events ≡ []
  pub order_drained : s.net.queues order_events ≡ []

module _ {C Body : Type 0} (env : Env C Body) where
  dropped-IsDeclined :
      (o : Order) (before : InventoryModel.Db) (s : System C Body)
      → At env o.id (items_of o) o before dropped s
      → IsDeclined o before s
  dropped-IsDeclined o before s at = record {
    cancelled_row = at.found;
    nothing_reserved = at.stock;
    nothing_sent = at.sent;
    inventory_drained = saying-nothing env o.id (items_of o) _ at.inventory;
    shipping_drained = saying-nothing env o.id (items_of o) _ at.shipping;
    order_drained = saying-nothing env o.id (items_of o) _ at.order;
  }

  -- Before the first delivery nothing tells the two ways apart.
  placed_short-At :
      (o : Order) (before : InventoryModel.Db) (s : System C Body)
      → for_order o.id s.shipping_db.shipments ≡ none
      → At env o.id (items_of o) o before placed s
      → At env o.id (items_of o) o before placed_short s
  placed_short-At o before s unsent at = record {
    inventory = at.inventory;
    shipping = at.shipping;
    order = at.order;
    emails = at.emails;
    calm = at.calm;
    found = at.found;
    stock = at.stock;
    sent = unsent;
  }

  module _ (payload : OrderCreate) (identity : Identity) (rid : String) (s : System C Body)
      (o : Order) (places : Places env payload identity s o) (quiet : IsCalm env s) where
    -- An order that the stock does not cover is cancelled. Placed in a system as for an order that can
    -- be filled, but with too little of some product, and with no shipment under the order's
    -- number, it is CANCELLED after two rounds of deliveries, each with a delivery at every one of
    -- the three services, in any order and among any others: no stock is reserved, there is no
    -- shipment, and nothing more waits at the three services.
    pub create_order-IsDeclined :
        IsRoundTrip env
        → find_order o.id s.order_db.orders ≡ none
        → first_reservation o.id s.inventory_db ≡ none
        → for_order o.id s.shipping_db.shipments ≡ none
        → available (wanted_of (items_of o)) s.inventory_db.products ≡ false
        → (rounds : List (List Queue)) → All IsRound rounds
        → 2 ≤ length rounds
        → IsDeclined o s.inventory_db
            (run env (create_order payload identity rid ∷ map deliver (all_of rounds)) s)
    unfolding run
    create_order-IsDeclined round_trip free fresh unsent short rounds fair many =
        let start = put_order (placed_host env o rid s) s in
        subst (λ t. IsDeclined o s.inventory_db (run env (map deliver (all_of rounds)) t))
          (sym (step-placed env payload identity rid s o places quiet))
          (dropped-IsDeclined o s.inventory_db _ (
            subst
              (λ st.
                At env o.id (items_of o) o s.inventory_db st
                  (run env (map deliver (all_of rounds)) start))
              (rounds_end rounds placed_short fair many)
              (run-At env round_trip o.id (items_of o) o s.inventory_db fresh (all_of rounds)
                placed_short start short
                (placed_short-At o s.inventory_db start unsent
                  (placed-At env payload identity rid s o places quiet round_trip free)))))
