-- ===== src/Inventory/Invariant.antt =====
-- The well-formedness of the inventory's tables.
pub mod Keys
use ordermesh.Prelude.Keys.{HasKeys}
use ordermesh.Prelude.{ℕ, ◌<◌, ◌≡◌, ◌≢◌, some, List, [], ◌∷◌, String, All}
use ordermesh.Prelude.Int.{ℤ, pos, ◌≤ℤ◌}
use ordermesh.Inventory.Model.{Product, Reservation, Db}
use ordermesh.Inventory.Stock.{stock}

-- The unique index.
abbrev pub HasDistinctSkus : List Product → Type 0
HasDistinctSkus [] = Unit
HasDistinctSkus (p ∷ ps) = All (λ q. q.sku ≢ p.sku) ps × HasDistinctSkus ps

abbrev pub product_key : Product → ℕ
product_key p = p.id

abbrev pub reservation_key : Reservation → ℕ
reservation_key r = r.id

abbrev pub IsHeld : Reservation → Type 0
IsHeld r = pos 0 ≤ℤ r.quantity

pub record IsValid (db : Db) : Type 0 where
  -- nothing is oversold
  pub no_oversell : (id : ℕ) (n : ℤ) → stock id db.products ≡ some n → pos 0 ≤ℤ n
  pub held : All IsHeld db.reservations
  pub product_keys : HasKeys product_key db.product_seq db.products
  pub reservation_keys : HasKeys reservation_key db.reservation_seq db.reservations
  pub skus : HasDistinctSkus db.products
