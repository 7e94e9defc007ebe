-- ===== src/System/ShippingRows.antt =====
-- services/shipping/app: the orders that shipments name, and that shipments stay.
use ordermesh.Prelude.{
  ℕ, ◌≡◌, refl, sym, subst, some, List, [], ◌∷◌, inl, inr, Option-cases, All, if◌then◌else◌,
  All-append, ◌==◌, arith, first-append_left,
}
use ordermesh.Prelude.Keys.{HasKeys-map, AreDistinct-map, All-map_rows}
use ordermesh.Shared.Outcome.{Result, ok, raise}
use ordermesh.Shipping.Model.{Shipment, ShipmentStatus, Db}
use ordermesh.Shipping.Service.{for_order, create_shipment, write_status}
use ordermesh.Shipping.Create.{IsValid}
use ordermesh.Shipping.Routes.{returning}
use ordermesh.System.Truth.{HasShipment}

pub returning-state :
    {A S : Type 0} (a : A) (out : Result (Unit {0}) × S) → (returning a out).1 ≡ out.1
returning-state a (ok _, s) = refl
returning-state a (raise e, s) = refl

pub for_order-id :
    (id : ℕ) (ss : List Shipment) (x : Shipment) → for_order id ss ≡ some x → x.order_id ≡ id
for_order-id id [] x h = cc
for_order-id id (p ∷ ss) x h = ground (arith, for_order-id id ss x)

-- A row is rewritten with another status.
module _ (id : ℕ) (status : ShipmentStatus) where
  abbrev rewritten : Shipment → Shipment
  rewritten x = if x.id == id then record x { status = status } else x

  same_id : (x : Shipment) → (rewritten x).id ≡ x.id
  same_id x = ground arith

  same_order : (x : Shipment) → (rewritten x).order_id ≡ x.order_id
  same_order x = ground arith

  same_number : (x : Shipment) → (rewritten x).tracking_number ≡ x.tracking_number
  same_number x = ground arith

  pub write_status-HasShipment :
      (ss : List Shipment) (n : ℕ) → HasShipment ss n → HasShipment (write_status id status ss) n
  write_status-HasShipment [] n h = h
  write_status-HasShipment (x ∷ ss) n h = ground (arith, write_status-HasShipment ss n)

  pub write_status-IsValid :
      (db : Db)
      → IsValid db
      → IsValid (record db { shipments = write_status id status db.shipments })
  write_status-IsValid db v = record {
    keys =
        HasKeys-map rewritten (λ (x : Shipment). x.id) db.shipment_seq db.shipments same_id v.keys;
    orders =
        AreDistinct-map rewritten (λ (x : Shipment). x.order_id) db.shipments same_order v.orders;
    numbers =
        AreDistinct-map rewritten (λ (x : Shipment). x.tracking_number) db.shipments same_number
          v.numbers;
    numbered =
        All-map_rows rewritten _ _ db.shipments (λ x (y, e). (y, rw (same_number x, same_id x) e))
          v.numbered;
  }

  pub write_status-orders :
      (P : ℕ → Type 0) (ss : List Shipment)
      → All (λ x. P x.order_id) ss
      → All (λ x. P x.order_id) (write_status id status ss)
  write_status-orders P ss h =
      All-map_rows rewritten (λ x. P x.order_id) (λ x. P x.order_id) ss
        (λ x p. subst P (sym (same_order x)) p) h

pub create_shipment-HasShipment :
    (year draw o : ℕ) (db : Db) (n : ℕ)
    → HasShipment db.shipments n
    → HasShipment (create_shipment year draw o db).1.shipments n
unfolding create_shipment
create_shipment-HasShipment year draw o db n h = elim (Option-cases (for_order o db.shipments)) [
  | inr (x, e) ↦ rw e h
  | inl e ↦ rw e (first-append_left (λ x. x.order_id == n) db.shipments _ h)
]

pub create_shipment-orders :
    (P : ℕ → Type 0) (year draw o : ℕ) (db : Db)
    → P o
    → All (λ x. P x.order_id) db.shipments
    → All (λ x. P x.order_id) (create_shipment year draw o db).1.shipments
unfolding create_shipment
create_shipment-orders P year draw o db p h = elim (Option-cases (for_order o db.shipments)) [
  | inr (x, e) ↦ rw e h
  | inl e ↦ rw e (All-append _ db.shipments _ h (p, tt))
]
