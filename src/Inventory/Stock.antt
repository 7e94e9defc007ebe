-- ===== src/Inventory/Stock.antt =====
-- What the inventory's tables say about one product, and how the updates of service.py change it.
pub mod Wanted
pub mod Reserve
pub mod Release
pub mod Restore
use ordermesh.Prelude.{
  ℕ, ◌≡◌, refl, Option, none, some, List, [], ◌∷◌, ◌++◌, arith, ◌==◌, if◌then◌else◌, ==_iff,
}
use ordermesh.Prelude.Int.{ℤ, pos, ◌+ℤ◌, int_laws}
use ordermesh.Inventory.Model.{Product, Reservation}
use ordermesh.Inventory.Service.{find_product, change_stock, held_by, delete_reservation}

abbrev pub quantity_of : Option Product → Option ℤ
quantity_of none = none
quantity_of (some p) = some p.quantity_available

-- The units of a product on the shelf.
abbrev pub stock : ℕ → List Product → Option ℤ
stock id products = quantity_of (find_product id products)

-- The units that all reservations hold of a product.
abbrev pub reserved : ℕ → List Reservation → ℤ
reserved id [] = pos 0
reserved id (r ∷ rs) = if r.product_id == id then r.quantity +ℤ reserved id rs else reserved id rs

abbrev pub changed : (ℤ → ℤ) → Option ℤ → Option ℤ
changed f none = none
changed f (some n) = some (f n)

pub stock-change_stock :
    (j id : ℕ) (f : ℤ → ℤ) (ps : List Product)
    → stock j (change_stock id f ps) ≡ (if id == j then changed f (stock j ps) else stock j ps)
stock-change_stock j id f [] = ground arith
stock-change_stock j id f (p ∷ ps) = ground (arith, stock-change_stock j id f ps)

pub reserved-append :
    (id : ℕ) (xs ys : List Reservation) → reserved id (xs ++ ys) ≡ reserved id xs +ℤ reserved id ys
reserved-append id [] ys = omega int_laws
reserved-append id (x ∷ xs) ys = grind (int_laws, reserved-append id xs ys)
