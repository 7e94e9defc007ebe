-- ===== src/Inventory/Service.antt =====
-- services/inventory/app/service.py. Each call runs in one session: a select is a filter of the
-- table, and a commit makes the new rows the table's.
use text.Mathlib.Text.{◌==◌ as str_eq}
use mathlib.Core.List.{foldl}
use ordermesh.Prelude.{
  ℕ, ◌+◌, String, Bool, true, false, not, ◌||◌, Option, none, some, List, [], ◌∷◌, ◌++◌, map, Text,
  codes, select, first, ltb, ◌==◌, if◌then◌else◌,
}
use ordermesh.Prelude.Int.{ℤ, pos, ◌+ℤ◌, ◌-ℤ◌, ltb_ℤ}
use ordermesh.Prelude.Decimal.{to_text}
use ordermesh.Shared.Outcome.{Result, ok, raise, integrity}
use ordermesh.Shared.Cache.{Client, invalidate}
use ordermesh.Shared.Event.{Item}
use ordermesh.Inventory.Model.{Product, Reservation, Db, ProductCreate, ProductOut, LowStock}

-- `settings.low_stock_threshold`
abbrev pub low_stock_threshold : ℤ
low_stock_threshold = pos 10

-- `f"product:{product_id}"`
unfoldable pub cache_key : ℕ → Text
cache_key product_id = codes "product:" ++ to_text product_id

-- The unique index on `sku`.
abbrev pub sku_taken : String → List Product → Bool
sku_taken sku [] = false
sku_taken sku (p ∷ ps) = str_eq p.sku sku || sku_taken sku ps

abbrev new_product : ℕ → ProductCreate → Product
new_product id payload = record {
  id = id;
  sku = payload.sku;
  name = payload.name;
  quantity_available = payload.quantity_available;
}

-- A refused insert has used up a number of the sequence.
unfoldable pub create_product : ProductCreate → Db → Result Product × Db
create_product payload db =
    let id = db.product_seq in
    let db' = record db { product_seq = id + 1 } in
    if sku_taken payload.sku db.products then (raise integrity, db') else (
      ok (new_product id payload),
      record db' { products = db.products ++ new_product id payload ∷ [] },
    )

abbrev insert_by_id : Product → List Product → List Product
insert_by_id p [] = p ∷ []
insert_by_id p (q ∷ qs) = if ltb q.id p.id then q ∷ insert_by_id p qs else p ∷ q ∷ qs

-- `select(Product).order_by(Product.id)`
unfoldable pub list_products : Db → List Product
list_products db = foldl (λ sorted p. insert_by_id p sorted) [] db.products

abbrev pub find_product : ℕ → List Product → Option Product
find_product id = first (λ p. p.id == id)

unfoldable pub get_product : ℕ → Db → Option Product
get_product id db = find_product id db.products

-- `wanted`: a dict in insertion order, the quantity that is asked of each product.
abbrev pub Wanted : Type 0
Wanted = List (ℕ × ℤ)

abbrev pub wanted_add : ℕ → ℤ → Wanted → Wanted
wanted_add id q [] = (id, pos 0 +ℤ q) ∷ []
wanted_add id q ((k, n) ∷ w) = if k == id then (k, n +ℤ q) ∷ w else (k, n) ∷ wanted_add id q w

abbrev pub add_item : Wanted → Item → Wanted
add_item w item = wanted_add item.product_id item.quantity w

unfoldable pub wanted_of : List Item → Wanted
wanted_of items = foldl add_item [] items

-- The first loop: every product is there and has enough.
abbrev enough : ℤ → Option Product → Bool
enough qty none = false
enough qty (some p) = not (ltb_ℤ p.quantity_available qty)

unfoldable pub available : Wanted → List Product → Bool
available [] products = true
available ((id, qty) ∷ w) products =
    if enough qty (find_product id products) then available w products else false

-- `product.quantity_available` of the row with this id, written anew.
abbrev pub change_stock : ℕ → (ℤ → ℤ) → List Product → List Product
change_stock id f =
    map (λ p. if p.id == id then record p { quantity_available = f p.quantity_available } else p)

-- One round of the second loop.
abbrev pub reserve_one : ℕ → ℕ → ℤ → Db → Db
reserve_one order_id id qty db = record db {
  products = change_stock id (λ n. n -ℤ qty) db.products;
  reservations =
      db.reservations
      ++ record { id = db.reservation_seq; product_id = id; order_id = order_id; quantity = qty }
        ∷ [];
  reservation_seq = db.reservation_seq + 1;
}

unfoldable pub reserve_all : ℕ → Wanted → Db → Db
reserve_all order_id [] db = db
reserve_all order_id ((id, qty) ∷ w) db = reserve_all order_id w (reserve_one order_id id qty db)

-- The last loop: each product leaves the cache, and one that runs low is logged.
abbrev pub warning : ℕ → Option Product → List LowStock
warning id none = []
warning id (some p) =
    if ltb_ℤ p.quantity_available low_stock_threshold
    then record { product_id = id; sku = p.sku; units = p.quantity_available } ∷ []
    else []

unfoldable pub warnings : Wanted → List Product → List LowStock
warnings [] products = []
warnings ((id, qty) ∷ w) products = warning id (find_product id products) ++ warnings w products

abbrev pub held_by : ℕ → List Reservation → List Reservation
held_by order_id = select (λ r. r.order_id == order_id)

-- How `reserve_for_order` ends: its result, the tables, the cache, and what it logged.
pub record Reserved (C : Type 0) : Type 0 where
  pub result : Bool
  pub db : Db
  pub cache : C
  pub logged : List LowStock

abbrev pub first_reservation : ℕ → Db → Option Reservation
first_reservation order_id db = first (λ r. r.order_id == order_id) db.reservations

-- `product_ids`, a set: the order of its elements is not specified.
abbrev pub mem_id : ℕ → List ℕ → Bool
mem_id id [] = false
mem_id id (k ∷ ks) = k == id || mem_id id ks

abbrev pub distinct_ids : List Reservation → List ℕ
distinct_ids [] = []
distinct_ids (r ∷ rs) =
    let rest = distinct_ids rs in if mem_id r.product_id rest then rest else r.product_id ∷ rest

-- `session.delete(reservation)`, by primary key.
abbrev pub delete_reservation : ℕ → List Reservation → List Reservation
delete_reservation id = select (λ r. not (r.id == id))

-- One round of the loop of `release_for_order`; a product that is gone gets nothing back.
abbrev pub release_one : Reservation → Db → Db
release_one r db = record db {
  products = change_stock r.product_id (λ n. n +ℤ r.quantity) db.products;
  reservations = delete_reservation r.id db.reservations;
}

unfoldable pub release_all : List Reservation → Db → Db
release_all [] db = db
release_all (r ∷ rs) db = release_all rs (release_one r db)

module _ {C : Type 0} (redis : Client C ProductOut) where
  unfoldable pub invalidate_wanted : Wanted → C → C
  invalidate_wanted [] c = c
  invalidate_wanted ((id, qty) ∷ w) c = invalidate_wanted w (invalidate redis (cache_key id ∷ []) c)

  abbrev reserve_new : ℕ → Wanted → Db → C → Reserved C
  reserve_new order_id w db c =
      if available w db.products
      then (let db' = reserve_all order_id w db in
          record {
            result = true;
            db = db';
            cache = invalidate_wanted w c;
            logged = warnings w db'.products;
          })
      else record { result = false; db = db; cache = c; logged = [] }

  abbrev reserve_unless : Option Reservation → ℕ → List Item → Db → C → Reserved C
  reserve_unless (some existing) order_id items db c = record {
    result = true;
    db = db;
    cache = c;
    logged = [];
  }
  reserve_unless none order_id items db c = reserve_new order_id (wanted_of items) db c

  unfoldable pub reserve_for_order : ℕ → List Item → Db → C → Reserved C
  reserve_for_order order_id items db c =
      reserve_unless (first_reservation order_id db) order_id items db c

  unfoldable pub invalidate_ids : List ℕ → C → C
  invalidate_ids [] c = c
  invalidate_ids (id ∷ ids) c = invalidate_ids ids (invalidate redis (cache_key id ∷ []) c)

  abbrev pub release_held : List Reservation → Db → C → List ℕ × (Db × C)
  release_held [] db c = ([], (db, c))
  release_held (r ∷ rs) db c =
      let ids = distinct_ids (r ∷ rs) in (ids, (release_all (r ∷ rs) db, invalidate_ids ids c))

  -- The affected product ids, the tables and the cache.
  unfoldable pub release_for_order : ℕ → Db → C → List ℕ × (Db × C)
  release_for_order order_id db c = release_held (held_by order_id db.reservations) db c
