-- ===== src/System/Units.antt =====
-- The units of a product, while the whole system runs.
use ordermesh.Prelude.{ℕ, List, [], ◌∷◌}
use ordermesh.Prelude.Int.{ℤ}
use ordermesh.Shared.Auth.{Identity, require_role}
use ordermesh.Shared.Outcome.{Result, ok, raise}
use ordermesh.Shared.Broker.{Message}
use ordermesh.Prelude.{Bool-cases, inl, inr}
use ordermesh.Inventory.Model.{Db, ProductCreate}
use ordermesh.Inventory.Service as InventoryService
use ordermesh.Inventory.Routes as InventoryRoutes
use ordermesh.Inventory.Routes.{accepts, created_by}
use ordermesh.Inventory.Units.{
  HasUnits, create_product-HasUnits, reserve-HasUnits, release-HasUnits,
}
use ordermesh.System.Rabbit.{
  Queue, order_events, inventory_events, shipping_events, notification_events,
}
use ordermesh.System.InventoryRows.{conflict-state}
use ordermesh.System.Kept.Inventory.{consume_inventory-Kept}
use ordermesh.System.{
  System, Env, Action, create_order, cancel_order, read_order, create_product, read_product,
  update_shipment, read_shipment, deliver, redeliver, disturb, step, run, consumed, inventory_host,
  deliver_first,
}

created_by-HasUnits :
    (id : ℕ) (total : ℤ) (r : Result Identity) (payload : ProductCreate) (db : Db)
    → HasUnits id total db
    → HasUnits id total (created_by r payload db).1
created_by-HasUnits id total (raise e) payload db u = u
created_by-HasUnits id total (ok _) payload db u = elim (Bool-cases (accepts payload)) [
  | inl e ↦
      rw (e, conflict-state (InventoryService.create_product payload db))
        (create_product-HasUnits id total payload db u)
  | inr e ↦ rw e u
]

route-HasUnits :
    (id : ℕ) (total : ℤ) (payload : ProductCreate) (identity : Identity) (db : Db)
    → HasUnits id total db
    → HasUnits id total (InventoryRoutes.create_product payload identity db).1
unfolding InventoryRoutes.create_product
route-HasUnits id total payload identity db u =
    created_by-HasUnits id total (require_role ("ADMIN" ∷ []) identity) payload db u

module _ {C Body : Type 0} (env : Env C Body) (id : ℕ) (total : ℤ) where
  abbrev pub Counts : System C Body → Type 0
  Counts s = HasUnits id total s.inventory_db

  consumed-Counts :
      (q : Queue) (m : Message Body) (s : System C Body) → Counts s → Counts (consumed env q m s)
  unfolding consumed
  consumed-Counts order_events m s u = u
  consumed-Counts inventory_events m s u =
      consume_inventory-Kept env (λ db c. HasUnits id total db)
        (λ o items db c k. reserve-HasUnits env.inventory_redis id total o db c items k)
        (λ o db c k. release-HasUnits env.inventory_redis id total o db c k) m (inventory_host s) u
  consumed-Counts shipping_events m s u = u
  consumed-Counts notification_events m s u = u

  deliver_first-Counts :
      (q : Queue) (ms : List (Message Body)) (s : System C Body)
      → Counts s
      → Counts (deliver_first env q ms s)
  deliver_first-Counts q [] s u = u
  deliver_first-Counts q (m ∷ ms) s u = consumed-Counts q m s u

  step-Counts : (a : Action) (s : System C Body) → Counts s → Counts (step env a s)
  unfolding step
  step-Counts (create_order payload identity rid) s u = u
  step-Counts (cancel_order o identity rid) s u = u
  step-Counts (read_order o identity) s u = u
  step-Counts (create_product payload identity) s u =
      route-HasUnits id total payload identity s.inventory_db u
  step-Counts (read_product o identity) s u = u
  step-Counts (update_shipment o status identity rid) s u = u
  step-Counts (read_shipment o identity) s u = u
  step-Counts (deliver q) s u = deliver_first-Counts q (s.net.queues q) s u
  step-Counts (redeliver q) s u = u
  step-Counts (disturb faults) s u = u

  -- No unit of a product in the table is lost or made: whatever is requested, delivered, delivered
  -- again, retried or refused, in whatever order, and whatever RabbitMQ, Redis and pydantic
  -- answer, what is on the shelf and what all reservations hold of the product keep their sum, if
  -- the keys of the reservations come from their sequence. No delivery overlaps another here.
  pub run-Counts :
      (actions : List Action) (s : System C Body) → Counts s → Counts (run env actions s)
  unfolding run
  run-Counts [] s u = u
  run-Counts (a ∷ actions) s u = run-Counts actions (step env a s) (step-Counts a s u)
