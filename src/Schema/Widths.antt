-- ===== src/Schema/Widths.antt =====
-- The widths of the text columns in services/*/alembic/versions/0001_initial.py, and what the
-- services write into them. PostgreSQL refuses a text that is longer.
use text.Mathlib.Text.{◌==◌ as str_eq}
use ordermesh.Prelude.{
  ℕ, zero, suc, ◌≤◌, ◌<◌, ◌^◌, ◌%◌, ◌≡◌, refl, String, Text, codes, length, Option, none, some,
  List, [], ◌∷◌, All, arith, if◌then◌else◌,
}
use ordermesh.Schema.{Column, ColumnType, string}
use ordermesh.Schema.Migrations.{shipments}
use ordermesh.Shipping.Model.{
  ShipmentStatus, status_name, created, picked_up, in_transit, delivered,
}
use ordermesh.Shipping.Service.{new_shipment, choose_courier, nth, couriers}
use ordermesh.Shipping.Bounds.{tracking_number_bound}

-- The width of a `String(n)` column.
abbrev width_of : ColumnType → Option ℕ
width_of (string n) = some n
width_of _ = none

abbrev width : String → List Column → Option ℕ
width name [] = none
width name (c ∷ cs) = if str_eq c.name name then width_of c.type else width name cs

-- The text fits the column, which has a width.
pub record Fits (columns : List Column) (name : String) (t : Text) : Type 0 where
  pub most : ℕ
  pub limit : width name columns ≡ some most
  pub fits : length t ≤ most

nth-All : (P : String → Type 0) (n : ℕ) (xs : List String) → P "" → All P xs → P (nth n xs)
nth-All P n [] e h = e
nth-All P n (x ∷ []) e h = h.0
nth-All P zero (x ∷ y ∷ xs) e h = h.0
nth-All P (suc n) (x ∷ y ∷ xs) e h = nth-All P n (y ∷ xs) e h.1

courier_short : (draw : ℕ) → length (codes (choose_courier draw)) ≤ 64
unfolding choose_courier
courier_short draw =
    nth-All (λ s. length (codes s) ≤ 64) (draw % length couriers) couriers (omega arith)
      (omega arith)

status_short : (status : ShipmentStatus) → length (codes (status_name status)) ≤ 20
status_short created = omega arith
status_short picked_up = omega arith
status_short in_transit = omega arith
status_short delivered = omega arith

-- Every shipment that the service makes up to the year 9999, for keys below 2 ^ 31, the range of
-- the column, fits the table that the migration creates, with whatever courier is drawn: its tracking
-- number, its courier, and every status that it can have.
pub new_shipment-Fits :
    (year draw id order_id : ℕ) (status : ShipmentStatus)
    → year < 10000
    → id < 2 ^ 31
    → Fits shipments "tracking_number" (new_shipment year draw id order_id).tracking_number
      × Fits shipments "courier_name" (codes (new_shipment year draw id order_id).courier_name)
      × Fits shipments "status" (codes (status_name status))
new_shipment-Fits year draw id order_id status y k = (
  record { most = 32; limit = refl; fits = omega (arith, tracking_number_bound year id y k) },
  record { most = 64; limit = refl; fits = courier_short draw },
  record { most = 20; limit = refl; fits = status_short status },
)
