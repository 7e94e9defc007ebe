-- ===== src/Inventory/Model.antt =====
-- services/inventory/app/models.py and schemas.py: the rows of the two tables. Primary keys come
-- from a sequence of the database, which is never set back.
use ordermesh.Prelude.{ℕ, String, List}
use ordermesh.Prelude.Int.{ℤ}

pub record Product : Type 0 where
  pub id : ℕ
  pub sku : String
  pub name : String
  pub quantity_available : ℤ

pub record Reservation : Type 0 where
  pub id : ℕ
  pub product_id : ℕ
  pub order_id : ℕ
  pub quantity : ℤ

pub record Db : Type 0 where
  pub products : List Product
  pub reservations : List Reservation
  pub product_seq : ℕ
  pub reservation_seq : ℕ

pub record ProductCreate : Type 0 where
  pub sku : String
  pub name : String
  pub quantity_available : ℤ

-- `ProductOut` has the columns of the row.
abbrev pub ProductOut : Type 0
ProductOut = Product

-- A log line of `reserve_for_order`: product id, SKU, units.
pub record LowStock : Type 0 where
  pub product_id : ℕ
  pub sku : String
  pub units : ℤ
