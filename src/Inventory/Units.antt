-- ===== src/Inventory/Units.antt =====
-- services/inventory/app/service.py: the units of a product, on the shelf and reserved.
use ordermesh.Prelude.{
  ℕ, ◌≡◌, refl, sym, ap, ◌∙◌, some, List, [], ◌∷◌, ◌++◌, ◌==◌, Bool-cases, Option-cases, inl, inr,
  first-append_some,
}
use ordermesh.Prelude.Keys.{HasKeys, HasKeys-select}
use ordermesh.Prelude.Int.{ℤ, ◌+ℤ◌, ◌-ℤ◌, int_laws}
use ordermesh.Shared.Cache.{Client}
use ordermesh.Shared.Event.{Item}
use ordermesh.Inventory.Model.{Db, Product, ProductCreate, ProductOut, Reservation}
use ordermesh.Inventory.Service.{
  Wanted, find_product, first_reservation, wanted_of, available, reserve_all, reserve_for_order,
  release_all, release_one, release_for_order, held_by, create_product, sku_taken,
}
use ordermesh.Inventory.Invariant.{reservation_key}
use ordermesh.Inventory.Stock.{quantity_of, stock, reserved, changed}
use ordermesh.Inventory.Stock.Wanted.{amount}
use ordermesh.Inventory.Stock.Reserve.{stock-reserve_all, reserved-reserve_all}
use ordermesh.Inventory.Stock.Release.{stock-release_all, reservations-release_held, reserved-split}
use ordermesh.Inventory.Stock.Restore.{reserve_all-HasKeys}
use ordermesh.Inventory.Reserve.{reserve_held, reserve_short, reserve_new}
use ordermesh.Inventory.Release.{db-release_for_order}

-- There are so many units of the product in all; the reservations have their numbers from the
-- sequence.
pub record HasUnits (id : ℕ) (total : ℤ) (db : Db) : Type 0 where
  pub shelf : ℤ
  pub there : stock id db.products ≡ some shelf
  pub count : shelf +ℤ reserved id db.reservations ≡ total
  pub keys : HasKeys reservation_key db.reservation_seq db.reservations

reserve_all-HasUnits :
    (id : ℕ) (total : ℤ) (o : ℕ) (w : Wanted) (db : Db)
    → HasUnits id total db
    → HasUnits id total (reserve_all o w db)
reserve_all-HasUnits id total o w db u = record {
  shelf = u.shelf -ℤ amount id w;
  there = stock-reserve_all o id w db ∙ ap (changed (λ n. n -ℤ amount id w)) u.there;
  count = grind (int_laws, reserved-reserve_all o id w db, u.count);
  keys = reserve_all-HasKeys o w db u.keys;
}

release_all-seq :
    (rs : List Reservation) (db : Db) → (release_all rs db).reservation_seq ≡ db.reservation_seq
unfolding release_all
release_all-seq [] db = refl
release_all-seq (r ∷ rs) db = release_all-seq rs (release_one r db)

release_held-HasUnits :
    (id : ℕ) (total : ℤ) (o : ℕ) (db : Db)
    → HasUnits id total db
    → HasUnits id total (release_all (held_by o db.reservations) db)
release_held-HasUnits id total o db u =
    let rs = held_by o db.reservations in
    let left = reservations-release_held o db u.keys in
    record {
      shelf = u.shelf +ℤ reserved id rs;
      there = stock-release_all id rs db ∙ ap (changed (λ n. n +ℤ reserved id rs)) u.there;
      count = rw left (grind (int_laws, reserved-split id o db.reservations, u.count));
      keys =
          rw (left, release_all-seq rs db)
            (HasKeys-select reservation_key db.reservation_seq _ db.reservations u.keys);
    }

pub create_product-HasUnits :
    (id : ℕ) (total : ℤ) (payload : ProductCreate) (db : Db)
    → HasUnits id total db
    → HasUnits id total (create_product payload db).1
unfolding create_product
create_product-HasUnits id total payload db u =
    elim (Bool-cases (sku_taken payload.sku db.products)) [
      | inl e ↦ rw e (record { shelf = u.shelf; there = u.there; count = u.count; keys = u.keys })
      | inr e ↦ rw e (record {
        shelf = u.shelf;
        there = grown db.products _ u.there;
        count = u.count;
        keys = u.keys;
      })
    ]
  where
    grown :
        (ps : List Product) (p : Product)
        → stock id ps ≡ some u.shelf
        → stock id (ps ++ p ∷ []) ≡ some u.shelf
    grown ps p e = elim (Option-cases (find_product id ps)) [
      | inl gone ↦ cc (rw gone at e)
      | inr (x, found) ↦
          ap quantity_of (first-append_some (λ y. y.id == id) ps (p ∷ []) x found)
          ∙ sym (ap quantity_of found)
          ∙ e
    ]

module _ {C : Type 0} (redis : Client C ProductOut) (id : ℕ) (total : ℤ) (order_id : ℕ) (db : Db)
    (c : C) where
  pub reserve-HasUnits :
      (items : List Item)
      → HasUnits id total db
      → HasUnits id total (reserve_for_order redis order_id items db c).db
  reserve-HasUnits items u = elim (Option-cases (first_reservation order_id db)) [
    | inr (r, e) ↦ rw (reserve_held redis order_id items db c e) u
    | inl fresh ↦ elim (Bool-cases (available (wanted_of items) db.products)) [
      | inr short ↦ rw (reserve_short redis order_id items db c fresh short) u
      | inl there ↦
          rw (reserve_new redis order_id items db c fresh there)
            (reserve_all-HasUnits id total order_id (wanted_of items) db u)
    ]
  ]

  pub release-HasUnits :
      HasUnits id total db → HasUnits id total (release_for_order redis order_id db c).1.0
  release-HasUnits u =
      rw (db-release_for_order redis order_id db c) (release_held-HasUnits id total order_id db u)
