-- ===== src/Inventory/Stock/Restore.antt =====
-- services/inventory/app/service.py: giving back what a reservation took.
use ordermesh.Prelude.Keys.{HasKeys, HasKeys-append}
use ordermesh.Prelude.{
  ℕ, ◌≡◌, ◌∙◌, refl, sym, ap, not, List, [], ◌∷◌, ◌==◌, select, select-append, ==_refl, map,
}
use mathlib.Core.Path.{ap₂}
use mathlib.Core.List.{append-nil}
use ordermesh.Prelude.Int.{ℤ, pos, ◌+ℤ◌, ◌-ℤ◌, int_laws}
use ordermesh.Inventory.Model.{Product, Reservation, Db}
use ordermesh.Inventory.Service.{
  Wanted, change_stock, reserve_one, reserve_all, held_by, release_one, release_all,
}
use ordermesh.Inventory.Stock.{reserved, reserved-append}
use ordermesh.Inventory.Stock.Wanted.{amount}
use ordermesh.Inventory.Invariant.{reservation_key}

abbrev with_stock : (ℕ → ℤ → ℤ) → Product → Product
with_stock g p = record p { quantity_available = g p.id p.quantity_available }

-- The rows after the loops, each computed from the row before.
rows-reserve_one :
    (k : ℕ) (q : ℤ) (w : Wanted) (ps : List Product)
    → map (with_stock (λ id n. n -ℤ amount id w)) (change_stock k (λ n. n -ℤ q) ps)
      ≡ map (with_stock (λ id n. n -ℤ amount id ((k, q) ∷ w))) ps
rows-reserve_one k q w [] = refl
rows-reserve_one k q w (p ∷ ps) = ap₂ ◌∷◌ (grind int_laws) (rows-reserve_one k q w ps)

rows-unchanged : (ps : List Product) → map (with_stock (λ id n. n -ℤ pos 0)) ps ≡ ps
rows-unchanged [] = refl
rows-unchanged (p ∷ ps) = ap₂ ◌∷◌ (grind int_laws) (rows-unchanged ps)

rows-reserve_all :
    (o : ℕ) (w : Wanted) (db : Db)
    → (reserve_all o w db).products ≡ map (with_stock (λ id n. n -ℤ amount id w)) db.products
unfolding reserve_all
rows-reserve_all o [] db = sym (rows-unchanged db.products)
rows-reserve_all o ((k, q) ∷ w) db =
    rows-reserve_all o w (reserve_one o k q db) ∙ rows-reserve_one k q w db.products

rows-release_one :
    (r : Reservation) (rs : List Reservation) (ps : List Product)
    → map
        (with_stock (λ id n. n +ℤ reserved id rs))
        (change_stock r.product_id (λ n. n +ℤ r.quantity) ps)
      ≡ map (with_stock (λ id n. n +ℤ reserved id (r ∷ rs))) ps
rows-release_one r rs [] = refl
rows-release_one r rs (p ∷ ps) = ap₂ ◌∷◌ (grind int_laws) (rows-release_one r rs ps)

rows-unchanged_add : (ps : List Product) → map (with_stock (λ id n. n +ℤ pos 0)) ps ≡ ps
rows-unchanged_add [] = refl
rows-unchanged_add (p ∷ ps) = ap₂ ◌∷◌ (grind int_laws) (rows-unchanged_add ps)

rows-release_all :
    (rs : List Reservation) (db : Db)
    → (release_all rs db).products ≡ map (with_stock (λ id n. n +ℤ reserved id rs)) db.products
unfolding release_all
rows-release_all [] db = sym (rows-unchanged_add db.products)
rows-release_all (r ∷ rs) db =
    rows-release_all rs (release_one r db) ∙ rows-release_one r rs db.products

rows-restored :
    (rs : List Reservation) (w : Wanted) (ps : List Product)
    → ((id : ℕ) → reserved id rs ≡ amount id w)
    → map
        (with_stock (λ id n. n +ℤ reserved id rs))
        (map (with_stock (λ id n. n -ℤ amount id w)) ps)
      ≡ ps
rows-restored rs w [] h = refl
rows-restored rs w (p ∷ ps) h = ap₂ ◌∷◌ (grind (int_laws, h p.id)) (rows-restored rs w ps h)

-- What the order holds after the loop is what it held before, and the amounts of `wanted`.
pub reserved-held-reserve_all :
    (o j : ℕ) (w : Wanted) (db : Db)
    → reserved j (held_by o (reserve_all o w db).reservations)
      ≡ reserved j (held_by o db.reservations) +ℤ amount j w
unfolding reserve_all
reserved-held-reserve_all o j [] db = omega int_laws
reserved-held-reserve_all o j ((k, q) ∷ w) db =
    reserved-held-reserve_all o j w (reserve_one o k q db)
    ∙ rw (select-append, ==_refl, reserved-append) (grind int_laws)

-- The rows of the other orders stay.
pub others-reserve_all :
    (o : ℕ) (w : Wanted) (db : Db)
    → select (λ r. not (r.order_id == o)) (reserve_all o w db).reservations
      ≡ select (λ r. not (r.order_id == o)) db.reservations
unfolding reserve_all
others-reserve_all o [] db = refl
others-reserve_all o ((k, q) ∷ w) db =
    others-reserve_all o w (reserve_one o k q db) ∙ rw (select-append, ==_refl) (append-nil _)

pub reserve_all-HasKeys :
    (o : ℕ) (w : Wanted) (db : Db)
    → HasKeys reservation_key db.reservation_seq db.reservations
    → HasKeys reservation_key (reserve_all o w db).reservation_seq (reserve_all o w db).reservations
unfolding reserve_all
reserve_all-HasKeys o [] db h = h
reserve_all-HasKeys o ((k, q) ∷ w) db h =
    reserve_all-HasKeys o w (reserve_one o k q db)
      (HasKeys-append reservation_key db.reservation_seq db.reservations _ refl h)

-- Releasing what the loop reserved for an order that held nothing gives the products back.
pub products-restored :
    (o : ℕ) (w : Wanted) (db : Db)
    → held_by o db.reservations ≡ []
    → let after = reserve_all o w db in
      (release_all (held_by o after.reservations) after).products ≡ db.products
products-restored o w db none_held =
    let after = reserve_all o w db in
    let rs = held_by o after.reservations in
    rows-release_all rs after
    ∙ ap (map (with_stock (λ id n. n +ℤ reserved id rs))) (rows-reserve_all o w db)
    ∙ rows-restored rs w db.products (λ id.
      reserved-held-reserve_all o id w db
      ∙ ap (λ l. reserved id l +ℤ amount id w) none_held
      ∙ omega int_laws)
