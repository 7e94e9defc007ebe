-- ===== src/System/Rows.antt =====
-- What the tables of the services say of one another. The database has no foreign keys across
-- services.
use ordermesh.Prelude.{
  ℕ, ◌≡◌, List, [], ◌∷◌, inl, inr, Bool-cases, All, All-map, arith, ◌==◌, ==_iff,
}
use ordermesh.Order.Model.{Order, OrderStatus, shipped}
use ordermesh.Order.Model as OrderModel
use ordermesh.Order.Service.{write_status}
use ordermesh.Inventory.Model as InventoryModel
use ordermesh.Inventory.Invariant as Inventory
use ordermesh.Shipping.Model as ShippingModel
use ordermesh.Shipping.Model.{Shipment}
use ordermesh.Shipping.Create as Shipping
use ordermesh.System.Truth.{IsOrder, HasShipment, Tables}

-- Each table is valid; a reservation and a shipment are of an order that is there; and an order
-- that counts as shipped has a shipment.
pub record Rows (o : OrderModel.Db) (i : InventoryModel.Db) (s : ShippingModel.Db) : Type 0 where
  pub inventory : Inventory.IsValid i
  pub shipping : Shipping.IsValid s
  pub reservations : All (λ r. IsOrder o.orders r.order_id) i.reservations
  pub shipments : All (λ x. IsOrder o.orders x.order_id) s.shipments
  pub shipped_sent : All (λ x. x.status ≡ shipped → HasShipment s.shipments x.id) o.orders

abbrev pub tables : OrderModel.Db → ShippingModel.Db → Tables
tables o s = record { orders = o.orders; shipments = s.shipments }

pub write_status-IsOrder :
    (id : ℕ) (status : OrderStatus) (os : List Order) (n : ℕ)
    → IsOrder os n
    → IsOrder (write_status id status os) n
write_status-IsOrder id status [] n h = h
write_status-IsOrder id status (o ∷ os) n h = ground (arith, write_status-IsOrder id status os n)

pub write_status-sent :
    (id : ℕ) (status : OrderStatus) (ss : List Shipment) (os : List Order)
    → (status ≡ shipped → HasShipment ss id)
    → All (λ x. x.status ≡ shipped → HasShipment ss x.id) os
    → All (λ x. x.status ≡ shipped → HasShipment ss x.id) (write_status id status os)
write_status-sent id status ss [] f h = tt
write_status-sent id status ss (o ∷ os) f h = elim (Bool-cases (o.id == id)) [
  | inl e ↦ rw e ((λ is. rw ((==_iff o.id id).0 e) (f is)), write_status-sent id status ss os f h.1)
  | inr e ↦ rw e (h.0, write_status-sent id status ss os f h.1)
]

-- The order service writes its table.
pub Rows-orders :
    (o o' : OrderModel.Db) (i : InventoryModel.Db) (s : ShippingModel.Db)
    → ((n : ℕ) → IsOrder o.orders n → IsOrder o'.orders n)
    → All (λ x. x.status ≡ shipped → HasShipment s.shipments x.id) o'.orders
    → Rows o i s
    → Rows o' i s
Rows-orders o o' i s g sent r = record {
  inventory = r.inventory;
  shipping = r.shipping;
  reservations = All-map (λ x is. g x.order_id is) i.reservations r.reservations;
  shipments = All-map (λ x is. g x.order_id is) s.shipments r.shipments;
  shipped_sent = sent;
}
