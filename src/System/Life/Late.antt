-- ===== src/System/Life/Late.antt =====
-- A message about an order that has been cancelled in the meantime.
use ordermesh.Prelude.{ℕ, ◌≡◌, refl, sym, subst, some, List, ◌∷◌}
use ordermesh.Shared.Event.{Item}
use ordermesh.Shared.Broker.{Message}
use ordermesh.Order.Model.{Order, cancelled, shipped}
use ordermesh.Order.Service.{find_order}
use ordermesh.System.Rabbit.{order_events}
use ordermesh.System.Life.At.{Says}
use ordermesh.System.Life.Order.{on_created, find-written}
use ordermesh.System.{System, Env, deliver, step}

module _ {C Body : Type 0} (env : Env C Body) (id : ℕ) (items : List Item) where
  -- A ShipmentCreated that has not failed before and is first in the order service's queue, after its
  -- order was cancelled, makes the order SHIPPED when it is delivered, whatever else is under way,
  -- and changes no table of the inventory or of shipping: stock that was given back stays so.
  pub late_shipment_revives :
      (s : System C Body) (m : Message Body) (rest : List (Message Body)) (row : Order)
      → s.net.queues order_events ≡ m ∷ rest
      → Says env id items "ShipmentCreated" m
      → find_order id s.order_db.orders ≡ some row
      → row.status ≡ cancelled
      → let s' = step env (deliver order_events) s in
        (find_order id s'.order_db.orders ≡ some (record row { status = shipped }))
        × (s'.inventory_db ≡ s.inventory_db)
        × (s'.shipping_db ≡ s.shipping_db)
  unfolding step
  late_shipment_revives s m rest row first says found gone = rw first (
      subst
        (λ (s' : System C Body).
          (find_order id s'.order_db.orders ≡ some (record row { status = shipped }))
          × (s'.inventory_db ≡ s.inventory_db)
          × (s'.shipping_db ≡ s.shipping_db))
        (sym (on_created env id items row s.inventory_db s m says row found (rw gone)))
        (find-written id shipped s.order_db.orders row found, refl, refl))
