-- ===== src/Inventory/Stock/Release.antt =====
-- The loop of `release_for_order`, and what it undoes.
use ordermesh.Prelude.Keys.{HasKeys}
use ordermesh.Prelude.{
  ℕ, ◌≡◌, ◌≢◌, ◌∙◌, refl, sym, ap, Bool, true, false, not, ◌||◌, ◌&&◌, List, [], ◌∷◌, arith, ◌==◌,
  Bool-cases, inl, inr, All, All-zip, select, select-select, select-congr,
}
use ordermesh.Prelude.Int.{◌+ℤ◌, int_laws}
use ordermesh.Inventory.Model.{Reservation, Db}
use ordermesh.Inventory.Service.{held_by, release_one, release_all}
use ordermesh.Inventory.Stock.{stock, reserved, changed, stock-change_stock}
use ordermesh.Inventory.Invariant.{reservation_key}

pub stock-release_all :
    (j : ℕ) (rs : List Reservation) (db : Db)
    → stock j (release_all rs db).products ≡ changed (λ n. n +ℤ reserved j rs) (stock j db.products)
unfolding release_all
stock-release_all j [] db = grind int_laws
stock-release_all j (r ∷ rs) db =
    stock-release_all j rs (release_one r db)
    ∙ grind (int_laws, stock-change_stock j r.product_id (λ n. n +ℤ r.quantity) db.products)

abbrev has_id : ℕ → List Reservation → Bool
has_id id [] = false
has_id id (r ∷ rs) = id == r.id || has_id id rs

reservations-release_all :
    (rs : List Reservation) (db : Db)
    → (release_all rs db).reservations ≡ select (λ x. not (has_id x.id rs)) db.reservations
unfolding release_all
reservations-release_all [] db = sym (select_all db.reservations)
  where
    select_all : (xs : List Reservation) → select (λ x. true) xs ≡ xs
    select_all [] = refl
    select_all (x ∷ xs) = ap (λ t. x ∷ t) (select_all xs)
reservations-release_all (r ∷ rs) db =
    reservations-release_all rs (release_one r db)
    ∙ select-select (λ x. not (has_id x.id rs)) (λ x. not (x.id == r.id)) db.reservations
    ∙ select-congr _ (λ x. not (has_id x.id (r ∷ rs))) db.reservations (agree db.reservations)
  where
    agree :
        (xs : List Reservation)
        → All (λ x. (not (x.id == r.id) && not (has_id x.id rs)) ≡ not (has_id x.id (r ∷ rs))) xs
    agree [] = tt
    agree (x ∷ xs) = (ground arith, agree xs)

-- With distinct keys the rows of an order are found by their ids.
has_id-fresh :
    (o id : ℕ) (xs : List Reservation) → All (λ y. y.id ≢ id) xs → has_id id (held_by o xs) ≡ false
has_id-fresh o id [] h = refl
has_id-fresh o id (x ∷ xs) h = ground (arith, has_id-fresh o id xs h.1)

has_id-held_by :
    (o seq : ℕ) (xs : List Reservation)
    → HasKeys reservation_key seq xs
    → All (λ x. not (has_id x.id (held_by o xs)) ≡ not (x.order_id == o)) xs
has_id-held_by o seq [] h = tt
has_id-held_by o seq (x ∷ xs) h = (
  ground (arith, has_id-fresh o x.id xs h.1),
  All-zip
      (λ y ne same. elim (Bool-cases (x.order_id == o)) [
        | inl e ↦ rw e (ground (arith, same))
        | inr e ↦ rw e same
      ])
      xs h.1 (has_id-held_by o seq xs h.2),
)

pub reservations-release_held :
    (o : ℕ) (db : Db)
    → HasKeys reservation_key db.reservation_seq db.reservations
    → (release_all (held_by o db.reservations) db).reservations
      ≡ select (λ x. not (x.order_id == o)) db.reservations
reservations-release_held o db h =
    reservations-release_all (held_by o db.reservations) db
    ∙ select-congr _ _ db.reservations (has_id-held_by o db.reservation_seq db.reservations h)

pub reserved-split :
    (j o : ℕ) (xs : List Reservation)
    → reserved j (select (λ x. not (x.order_id == o)) xs) +ℤ reserved j (held_by o xs)
      ≡ reserved j xs
reserved-split j o [] = omega int_laws
reserved-split j o (x ∷ xs) = grind (int_laws, reserved-split j o xs)
