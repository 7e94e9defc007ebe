-- ===== src/Inventory/Release.antt =====
-- services/inventory/app/service.py: `release_for_order`.
use ordermesh.Prelude.{
  ℕ, ◌≡◌, refl, ap, true, none, List, [], ◌∷◌, ◌∙◌, ◌==◌, select-first, select-not-first,
  select-select-not,
}
use ordermesh.Prelude.Int.{◌+ℤ◌}
use ordermesh.Shared.Cache.{Client}
use ordermesh.Shared.Event.{Item}
use ordermesh.Inventory.Model.{Db, ProductOut, Reservation}
use ordermesh.Inventory.Service.{
  first_reservation, wanted_of, reserve_all, reserve_for_order, release_all, release_for_order,
  release_held, held_by, invalidate_wanted,
}
use ordermesh.Inventory.Stock.{stock, reserved, changed}
use ordermesh.Inventory.Stock.Release.{stock-release_all, reservations-release_held, reserved-split}
use ordermesh.Inventory.Stock.Restore.{others-reserve_all, reserve_all-HasKeys, products-restored}
use ordermesh.Inventory.Invariant.{IsValid}
use ordermesh.Inventory.Reserve.{reserve_new, available_of_result}

module _ {C : Type 0} (redis : Client C ProductOut) (order_id : ℕ) (db : Db) (c : C) where
  -- The tables afterwards, whether the order holds anything or not.
  pub db-release_for_order :
      (release_for_order redis order_id db c).1.0
      ≡ release_all (held_by order_id db.reservations) db
  unfolding release_for_order release_all
  db-release_for_order = go (held_by order_id db.reservations)
    where
      go : (rs : List Reservation) → (release_held redis rs db c).1.0 ≡ release_all rs db
      go [] = refl
      go (r ∷ rs) = refl

  -- On valid tables, a release adds to the stock of each product what the order held of it, takes
  -- as much from what is reserved, and leaves the order with no reservation.
  pub release_moves :
      IsValid db
      → let after = (release_for_order redis order_id db c).1.0 in
        let held = held_by order_id db.reservations in
        ((j : ℕ)
          → (stock j after.products ≡ changed (λ n. n +ℤ reserved j held) (stock j db.products))
            × (reserved j after.reservations +ℤ reserved j held ≡ reserved j db.reservations))
        × (held_by order_id after.reservations ≡ [])
  release_moves v =
      let held = held_by order_id db.reservations in
      let rows = reservations-release_held order_id db v.reservation_keys in
      rw db-release_for_order (
        (λ j. (
          stock-release_all j held db,
          ap (λ l. reserved j l +ℤ reserved j held) rows
              ∙ reserved-split j order_id db.reservations,
        )),
        ap (held_by order_id) rows
            ∙ select-select-not (λ r. r.order_id == order_id) db.reservations,
      )

  release_nothing :
      (db' : Db) (c' : C)
      → held_by order_id db'.reservations ≡ []
      → release_for_order redis order_id db' c' ≡ ([], (db', c'))
  unfolding release_for_order
  release_nothing db' c' e = rw e

  -- On valid tables a second release of the same order affects no product and changes nothing.
  pub release_idempotent :
      IsValid db
      → let (ids, (db', c')) = release_for_order redis order_id db c in
        release_for_order redis order_id db' c' ≡ ([], (db', c'))
  release_idempotent v =
      let (ids, (db', c')) = release_for_order redis order_id db c in
      release_nothing db' c' (release_moves v).1

module _ {C : Type 0} (redis : Client C ProductOut) (order_id : ℕ) (items : List Item) (db : Db)
    (c : C) where
  -- Cancelling an order that was reserved restores every product's row and every reservation of
  -- the other orders, if the tables were valid and the order held nothing before.
  pub release-reserve :
      IsValid db
      → first_reservation order_id db ≡ none
      → (reserve_for_order redis order_id items db c).result ≡ true
      → let s = reserve_for_order redis order_id items db c in
        let after = (release_for_order redis order_id s.db s.cache).1.0 in
        (after.products ≡ db.products) × (after.reservations ≡ db.reservations)
  release-reserve v fresh done =
      let w = wanted_of items in
      rw
        (reserve_new redis order_id items db c fresh
          (available_of_result redis order_id items db c fresh done))
        (rw
          (db-release_for_order redis order_id (reserve_all order_id w db)
            (invalidate_wanted redis w c))
          (
            products-restored order_id w db (select-first _ db.reservations fresh),
            reservations-release_held order_id (reserve_all order_id w db)
                  (reserve_all-HasKeys order_id w db v.reservation_keys)
                ∙ others-reserve_all order_id w db
                ∙ select-not-first _ db.reservations fresh,
          ))
