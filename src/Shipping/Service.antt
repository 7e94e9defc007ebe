-- ===== src/Shipping/Service.antt =====
-- services/shipping/app/service.py. The year and the random choice come from outside: the year of
-- the clock, and a number from which the courier is drawn.
use ordermesh.Prelude.{
  ℕ, zero, suc, ◌+◌, ◌%◌, String, Option, none, some, List, [], ◌∷◌, ◌++◌, map, Text, codes, first,
  ◌==◌, if◌then◌else◌, length,
}
use ordermesh.Prelude.Decimal.{to_text, zero_padded}
use ordermesh.Shared.Cache.{Client, invalidate}
use ordermesh.Shipping.Model.{Shipment, ShipmentOut, ShipmentStatus, created, Db}

abbrev pub couriers : List String
couriers = "BlueDart" ∷ "Delhivery" ∷ "FedEx" ∷ "DHL" ∷ "UPS" ∷ []

abbrev pub nth : ℕ → List String → String
nth n [] = ""
nth n (x ∷ []) = x
nth zero (x ∷ y ∷ xs) = x
nth (suc n) (x ∷ y ∷ xs) = nth n (y ∷ xs)

-- `random.choice(_COURIERS)`
unfoldable pub choose_courier : ℕ → String
choose_courier draw = nth (draw % length couriers) couriers

-- `f"shipment:{shipment_id}"`
unfoldable pub cache_key : ℕ → Text
cache_key shipment_id = codes "shipment:" ++ to_text shipment_id

-- `f"TRK-{year}-{shipment_id:06d}"`
unfoldable pub tracking_number : ℕ → ℕ → Text
tracking_number year shipment_id =
    codes "TRK-" ++ (to_text year ++ (codes "-" ++ zero_padded 6 (to_text shipment_id)))

abbrev pub for_order : ℕ → List Shipment → Option Shipment
for_order order_id = first (λ s. s.order_id == order_id)

abbrev pub find_shipment : ℕ → List Shipment → Option Shipment
find_shipment id = first (λ s. s.id == id)

abbrev pub new_shipment : ℕ → ℕ → ℕ → ℕ → Shipment
new_shipment year draw id order_id = record {
  id = id;
  order_id = order_id;
  tracking_number = tracking_number year id;
  courier_name = choose_courier draw;
  status = created;
}

abbrev pub insert_shipment : Shipment → Db → Db
insert_shipment s db = record {
  shipments = db.shipments ++ s ∷ [];
  shipment_seq = db.shipment_seq + 1;
}

abbrev pub create_unless : Option Shipment → ℕ → ℕ → ℕ → Db → Shipment × Db
create_unless (some existing) year draw order_id db = (existing, db)
create_unless none year draw order_id db =
    let s = new_shipment year draw db.shipment_seq order_id in (s, insert_shipment s db)

-- The row is flushed with an empty tracking number, and has its own at the commit; that a flush
-- waits for, or fails with, one of a session that runs at the same time is left out.
-- The shipment is never `None`, though the source's type allows it.
unfoldable pub create_shipment : ℕ → ℕ → ℕ → Db → Shipment × Db
create_shipment year draw order_id db =
    create_unless (for_order order_id db.shipments) year draw order_id db

unfoldable pub get_shipment : ℕ → Db → Option Shipment
get_shipment id db = find_shipment id db.shipments

abbrev pub write_status : ℕ → ShipmentStatus → List Shipment → List Shipment
write_status id status = map (λ s. if s.id == id then record s { status = status } else s)

module _ {C : Type 0} (redis : Client C ShipmentOut) where
  unfoldable pub update_status : Shipment → ShipmentStatus → Db → C → Shipment × (Db × C)
  update_status s status db c = (
    record s { status = status },
    (
      record db { shipments = write_status s.id status db.shipments },
      invalidate redis (cache_key s.id ∷ []) c,
    ),
  )
