-- ===== src/Inventory/Reserve.antt =====
-- services/inventory/app/service.py: `reserve_for_order`.
use ordermesh.Prelude.{
  ℕ, ◌≡◌, ◌≢◌, refl, true, false, none, some, List, [], ◌∷◌, Bool-cases, inl, inr, Option-cases,
}
use ordermesh.Prelude.Int.{◌+ℤ◌, ◌-ℤ◌}
use ordermesh.Shared.Cache.{Client}
use ordermesh.Shared.Event.{Item}
use ordermesh.Inventory.Model.{Db, ProductOut, Reservation}
use ordermesh.Inventory.Service.{
  first_reservation, wanted_of, available, reserve_all, reserve_for_order, Wanted,
  invalidate_wanted, warnings,
}
use ordermesh.Inventory.Stock.{stock, reserved, changed}
use ordermesh.Inventory.Stock.Wanted.{asked, amount-wanted_of, wanted_of-ne-nil}
use ordermesh.Inventory.Stock.Reserve.{
  stock-reserve_all, reserved-reserve_all, first-reserve_all_cons,
}

module _ {C : Type 0} (redis : Client C ProductOut) (order_id : ℕ) (items : List Item) (db : Db)
    (c : C) where
  -- The three ways through the function.
  pub reserve_held :
      {r : Reservation}
      → first_reservation order_id db ≡ some r
      → reserve_for_order redis order_id items db c
        ≡ record { result = true; db = db; cache = c; logged = [] }
  unfolding reserve_for_order
  reserve_held e = rw e

  pub reserve_short :
      first_reservation order_id db ≡ none
      → available (wanted_of items) db.products ≡ false
      → reserve_for_order redis order_id items db c
        ≡ record { result = false; db = db; cache = c; logged = [] }
  unfolding reserve_for_order
  reserve_short e h = rw (e, h)

  pub reserve_new :
      first_reservation order_id db ≡ none
      → available (wanted_of items) db.products ≡ true
      → reserve_for_order redis order_id items db c ≡ record {
        result = true;
        db = reserve_all order_id (wanted_of items) db;
        cache = invalidate_wanted redis (wanted_of items) c;
        logged = warnings (wanted_of items) (reserve_all order_id (wanted_of items) db).products;
      }
  unfolding reserve_for_order
  reserve_new e h = rw (e, h)

  -- Success without an earlier reservation means that everything was available.
  pub available_of_result :
      first_reservation order_id db ≡ none
      → (reserve_for_order redis order_id items db c).result ≡ true
      → available (wanted_of items) db.products ≡ true
  available_of_result fresh done = elim (Bool-cases (available (wanted_of items) db.products)) [
    | inl h ↦ h
    | inr h ↦ cc (reserve_short fresh h)
  ]

  -- A reservation that succeeds for an order without reservations takes from the stock of each
  -- product exactly what the items ask of it, and adds as much to what is reserved of it.
  pub reserve_moves :
      first_reservation order_id db ≡ none
      → (reserve_for_order redis order_id items db c).result ≡ true
      → (j : ℕ)
      → let after = (reserve_for_order redis order_id items db c).db in
        (stock j after.products ≡ changed (λ n. n -ℤ asked j items) (stock j db.products))
        × (reserved j after.reservations ≡ reserved j db.reservations +ℤ asked j items)
  reserve_moves fresh done j =
      rw (reserve_new fresh (available_of_result fresh done), ← amount-wanted_of j items)
        (
          stock-reserve_all order_id j (wanted_of items) db,
          reserved-reserve_all order_id j (wanted_of items) db,
        )

  -- A reservation that is refused has changed no table and no cache entry, and has logged nothing.
  pub reserve_refused :
      (reserve_for_order redis order_id items db c).result ≡ false
      → reserve_for_order redis order_id items db c
        ≡ record { result = false; db = db; cache = c; logged = [] }
  reserve_refused no_stock = elim (Option-cases (first_reservation order_id db)) [
    | inr (r, e) ↦ cc (reserve_held e)
    | inl fresh ↦ elim (Bool-cases (available (wanted_of items) db.products)) [
      | inl h ↦ cc (reserve_new fresh h)
      | inr h ↦ reserve_short fresh h
    ]
  ]

module _ {C : Type 0} (redis : Client C ProductOut) (order_id : ℕ) (items : List Item) (db : Db)
    (c : C) where
  first-reserve_new :
      (w : Wanted) → w ≢ [] → first_reservation order_id (reserve_all order_id w db) ≢ none
  first-reserve_new [] ne = absurd (ne refl)
  first-reserve_new ((k, q) ∷ w) ne = first-reserve_all_cons order_id k q w db

  -- Whatever the first delivery of an order with items did, if it succeeded then a second delivery,
  -- whatever its items, succeeds too and changes nothing: no unit is taken twice.
  pub reserve_idempotent :
      (again : List Item)
      → items ≢ []
      → (reserve_for_order redis order_id items db c).result ≡ true
      → let s = reserve_for_order redis order_id items db c in
        reserve_for_order redis order_id again s.db s.cache
        ≡ record { result = true; db = s.db; cache = s.cache; logged = [] }
  reserve_idempotent again ne done = elim (Option-cases (first_reservation order_id db)) [
    | inr (r, e) ↦
        rw (reserve_held redis order_id items db c e) (reserve_held redis order_id again db c e)
    | inl fresh ↦
        rw
          (reserve_new redis order_id items db c fresh
            (available_of_result redis order_id items db c fresh done))
          (elim (Option-cases
            (first_reservation order_id (reserve_all order_id (wanted_of items) db))) [
              | inl e ↦ absurd (first-reserve_new (wanted_of items) (wanted_of-ne-nil items ne) e)
              | inr (r, e) ↦
                  reserve_held redis order_id again (reserve_all order_id (wanted_of items) db) _ e
            ])
  ]
