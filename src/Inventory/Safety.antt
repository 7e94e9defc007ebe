-- ===== src/Inventory/Safety.antt =====
-- services/inventory/app/service.py: what the loops do to the stock of valid tables.
use mathlib.Core.List.{foldl}
use ordermesh.Prelude.Keys.{HasKeys}
use ordermesh.Prelude.{
  ℕ, ◌≡◌, true, some, List, [], ◌∷◌, inl, inr, arith, ◌==◌, All, All-append, Option-cases,
  Bool-cases,
}
use ordermesh.Prelude.Int.{ℤ, pos, ◌≤ℤ◌, int_laws}
use ordermesh.Shared.Cache.{Client}
use ordermesh.Shared.Event.{Item}
use ordermesh.Inventory.Model.{Db, ProductOut, Reservation}
use ordermesh.Inventory.Service.{
  first_reservation, Wanted, wanted_add, add_item, wanted_of, available, reserve_one, reserve_all,
  reserve_for_order, release_all,
}
use ordermesh.Inventory.Stock.{stock, reserved}
use ordermesh.Inventory.Stock.Wanted.{HasDistinctKeys, wanted_of-HasDistinctKeys}
use ordermesh.Inventory.Stock.Reserve.{stock-reserve_all, available_sound, AllCovered-amount}
use ordermesh.Inventory.Stock.Release.{stock-release_all}
use ordermesh.Inventory.Stock.Restore.{reserve_all-HasKeys}
use ordermesh.Inventory.Invariant.{HasDistinctSkus, product_key, IsHeld, IsValid}
use ordermesh.Inventory.Invariant.Keys.{HasKeys-change_stock, HasDistinctSkus-change_stock}
use ordermesh.Inventory.Reserve.{reserve_held, reserve_short, reserve_new}

abbrev pub AsksForUnits : Item → Type 0
AsksForUnits x = pos 0 ≤ℤ x.quantity

wanted_add-nonneg :
    (id : ℕ) (q : ℤ) (w : Wanted)
    → pos 0 ≤ℤ q
    → All (λ e. pos 0 ≤ℤ e.1) w
    → All (λ e. pos 0 ≤ℤ e.1) (wanted_add id q w)
wanted_add-nonneg id q [] h t = (omega int_laws, tt)
wanted_add-nonneg id q ((k, n) ∷ w) h t = elim (Bool-cases (k == id)) [
  | inl e ↦ rw e (omega int_laws, t.1)
  | inr e ↦ rw e (t.0, wanted_add-nonneg id q w h t.1)
]

fold-nonneg :
    (w : Wanted) (items : List Item)
    → All AsksForUnits items
    → All (λ e. pos 0 ≤ℤ e.1) w
    → All (λ e. pos 0 ≤ℤ e.1) (foldl add_item w items)
fold-nonneg w [] h t = t
fold-nonneg w (x ∷ xs) h t =
    fold-nonneg (add_item w x) xs h.1 (wanted_add-nonneg x.product_id x.quantity w h.0 t)

pub wanted_of-nonneg :
    (items : List Item) → All AsksForUnits items → All (λ e. pos 0 ≤ℤ e.1) (wanted_of items)
unfolding wanted_of
wanted_of-nonneg items h = fold-nonneg [] items h tt

reserve_all-held :
    (o : ℕ) (w : Wanted) (db : Db)
    → All (λ e. pos 0 ≤ℤ e.1) w
    → All IsHeld db.reservations
    → All IsHeld (reserve_all o w db).reservations
unfolding reserve_all
reserve_all-held o [] db h t = t
reserve_all-held o ((k, q) ∷ w) db h t =
    reserve_all-held o w (reserve_one o k q db) h.1
      (All-append IsHeld db.reservations _ t (h.0, tt))

reserve_all-rows :
    (o : ℕ) (w : Wanted) (db : Db)
    → HasKeys product_key db.product_seq db.products
    → HasDistinctSkus db.products
    → HasKeys product_key (reserve_all o w db).product_seq (reserve_all o w db).products
      × HasDistinctSkus (reserve_all o w db).products
unfolding reserve_all
reserve_all-rows o [] db h s = (h, s)
reserve_all-rows o ((k, q) ∷ w) db h s =
    reserve_all-rows o w (reserve_one o k q db)
      (HasKeys-change_stock db.product_seq k _ db.products h)
      (HasDistinctSkus-change_stock k _ db.products s)

reserve_all-no_oversell :
    (o : ℕ) (w : Wanted) (db : Db)
    → IsValid db
    → HasDistinctKeys w
    → available w db.products ≡ true
    → (id : ℕ) (n : ℤ) → stock id (reserve_all o w db).products ≡ some n
    → pos 0 ≤ℤ n
reserve_all-no_oversell o w db v d h id n e = elim (Option-cases (stock id db.products)) [
  | inl missing ↦ cc (stock-reserve_all o id w db)
  | inr (m, there) ↦
      let within =
        AllCovered-amount id m w db.products d (available_sound w db.products h) there
          (v.no_oversell id m there) in
      grind (int_laws, stock-reserve_all o id w db)
]

pub reserve_all-IsValid :
    (o : ℕ) (w : Wanted) (db : Db)
    → IsValid db
    → HasDistinctKeys w
    → All (λ e. pos 0 ≤ℤ e.1) w
    → available w db.products ≡ true
    → IsValid (reserve_all o w db)
reserve_all-IsValid o w db v d pw h =
    let rows = reserve_all-rows o w db v.product_keys v.skus in
    record {
      no_oversell = reserve_all-no_oversell o w db v d h;
      held = reserve_all-held o w db pw v.held;
      product_keys = rows.0;
      reservation_keys = reserve_all-HasKeys o w db v.reservation_keys;
      skus = rows.1;
    }

-- Reserving keeps the tables valid, whether it succeeds or not, if no item asks for a negative
-- quantity: the stock of no product falls below zero.
pub reserve-IsValid :
    {C : Type 0} (redis : Client C ProductOut) (order_id : ℕ) (items : List Item) (db : Db) (c : C)
    → IsValid db
    → All AsksForUnits items
    → IsValid (reserve_for_order redis order_id items db c).db
reserve-IsValid redis o items db c v asks = elim (Option-cases (first_reservation o db)) [
  | inr (r, e) ↦ rw (reserve_held redis o items db c e) v
  | inl fresh ↦ elim (Bool-cases (available (wanted_of items) db.products)) [
    | inr h ↦ rw (reserve_short redis o items db c fresh h) v
    | inl h ↦ rw (reserve_new redis o items db c fresh h) (
        reserve_all-IsValid o (wanted_of items) db v (wanted_of-HasDistinctKeys items)
          (wanted_of-nonneg items asks) h)
  ]
]

reserved-nonneg : (id : ℕ) (rs : List Reservation) → All IsHeld rs → pos 0 ≤ℤ reserved id rs
reserved-nonneg id [] h = omega arith
reserved-nonneg id (r ∷ rs) h = grind (int_laws, reserved-nonneg id rs h.1)

pub release_all-no_oversell :
    (rs : List Reservation) (db : Db)
    → IsValid db
    → All IsHeld rs
    → (id : ℕ) (n : ℤ) → stock id (release_all rs db).products ≡ some n
    → pos 0 ≤ℤ n
release_all-no_oversell rs db v h id n e = elim (Option-cases (stock id db.products)) [
  | inl missing ↦ cc (stock-release_all id rs db)
  | inr (m, there) ↦
      let before = v.no_oversell id m there in
      grind (int_laws, stock-release_all id rs db, reserved-nonneg id rs h)
]
