-- ===== src/Inventory/Create.antt =====
-- services/inventory/app/service.py: `create_product`.
use text.Mathlib.TextEquality.{eq_iff}
use ordermesh.Prelude.Keys.{HasKeys-append, HasKeys-le}
use ordermesh.Prelude.{
  ℕ, ◌≡◌, ◌≢◌, ◌⊎◌, refl, false, some, List, [], ◌∷◌, ◌++◌, inl, inr, arith, All-append, Bool-cases,
}
use ordermesh.Prelude.Int.{ℤ, pos, ◌≤ℤ◌}
use ordermesh.Inventory.Model.{Db, Product, ProductCreate}
use ordermesh.Inventory.Service.{create_product, sku_taken}
use ordermesh.Inventory.Stock.{stock}
use ordermesh.Inventory.Invariant.{HasDistinctSkus, product_key, IsValid}

stock-append_new :
    (id : ℕ) (ps : List Product) (p : Product) (n : ℤ)
    → stock id (ps ++ p ∷ []) ≡ some n
    → (stock id ps ≡ some n) ⊎ (p.quantity_available ≡ n)
stock-append_new id [] p n h = ground arith
stock-append_new id (q ∷ ps) p n h = ground (arith, stock-append_new id ps p n)

sku_taken-append :
    (ps : List Product) (p : Product)
    → sku_taken p.sku ps ≡ false
    → HasDistinctSkus ps
    → HasDistinctSkus (ps ++ p ∷ [])
sku_taken-append [] p h d = (tt, tt)
sku_taken-append (q ∷ ps) p h d = (
  All-append (λ x. x.sku ≢ q.sku) ps _ d.0 (ground (arith, eq_iff q.sku p.sku), tt),
  sku_taken-append ps p (ground arith) d.1,
)

-- Creating a product keeps the tables valid, whether the SKU is taken or not, if the payload's
-- quantity is not negative, which its schema demands.
pub create-IsValid :
    (payload : ProductCreate) (db : Db)
    → pos 0 ≤ℤ payload.quantity_available
    → IsValid db
    → IsValid (create_product payload db).1
unfolding create_product
create-IsValid payload db h v = elim (Bool-cases (sku_taken payload.sku db.products)) [
  | inl taken ↦ rw taken (record {
    no_oversell = v.no_oversell;
    held = v.held;
    product_keys = HasKeys-le product_key db.product_seq _ db.products (omega arith) v.product_keys;
    reservation_keys = v.reservation_keys;
    skus = v.skus;
  })
  | inr free ↦ rw free (record {
    no_oversell = λ id n e. elim (stock-append_new id db.products _ n e) [
      | inl old ↦ v.no_oversell id n old
      | inr new ↦ rw new at h
    ];
    held = v.held;
    product_keys = HasKeys-append product_key db.product_seq db.products _ refl v.product_keys;
    reservation_keys = v.reservation_keys;
    skus = sku_taken-append db.products _ free v.skus;
  })
]
