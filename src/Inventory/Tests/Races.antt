-- ===== src/Inventory/Tests/Races.antt =====
-- Sessions of the inventory that run interleaved, on the shop of Tests.antt.
use ordermesh.Prelude.{List, true, arith, ℕ, ◌≡◌, refl, [], ◌∷◌}
use ordermesh.Prelude.Int.{◌+ℤ◌}
use ordermesh.Shared.Cache.Memory.{memory}
use ordermesh.Inventory.Model.{Db}
use ordermesh.Inventory.Service.{
  release_all, reserve_all, wanted_of, available, reserve_for_order, release_for_order,
}
use ordermesh.Inventory.Stock.{stock, reserved, changed}
use ordermesh.Inventory.Invariant.{IsValid}
use ordermesh.Inventory.Sessions.{
  Session, found_unheld, read_some, took, gave_back, moves, stops, Runs,
}
use ordermesh.Inventory.Interleaving.{Runs-IsValid, release_race}
use ordermesh.Inventory.Alone.{Alone, session-Alone}
use ordermesh.Inventory.Tests.{shop, earlier, order_items, cache, shop-IsValid}

-- Both sessions that release order 3 have read its reservation of two widgets.
release_race_example :
    (db : Db) × Runs db
      (Session.finished ∷ Session.finished ∷ [])
      shop
      (Session.releasing 3 ∷ Session.releasing 3 ∷ [])
    × ((j : ℕ)
        → stock j db.products
          ≡ changed
              (λ n. n +ℤ reserved j (earlier ∷ []) +ℤ reserved j (earlier ∷ []))
              (stock j shop.products))
release_race_example = release_race 3 shop earlier [] refl

-- A session that reserves for order 7 and one that releases order 3, in turns.
abbrev both : List Session
both = Session.reserving 7 order_items ∷ Session.releasing 3 ∷ []

abbrev taken : Db
taken = reserve_all 7 (wanted_of order_items) shop

enough_there : available (wanted_of order_items) shop.products ≡ true
unfolding available wanted_of ◌+ℤ◌
enough_there = refl

both-Runs :
    Runs (release_all (earlier ∷ []) taken) (Session.finished ∷ Session.finished ∷ []) shop both
both-Runs = moves [] (Session.releasing 3 ∷ []) _ _ shop refl (found_unheld refl) (
    moves (Session.reserving_unheld 7 order_items ∷ []) [] _ _ shop refl (read_some refl) (
      moves [] (Session.releasing_read (earlier ∷ []) ∷ []) _ _ taken refl (took enough_there) (
        moves (Session.finished ∷ []) [] _ _ (release_all (earlier ∷ []) taken) refl gave_back
          stops)))

Runs-IsValid_example : IsValid (release_all (earlier ∷ []) taken)
Runs-IsValid_example =
    Runs-IsValid (release_all (earlier ∷ []) taken) (Session.finished ∷ Session.finished ∷ []) shop
      both shop-IsValid ((omega arith, (omega arith, (omega arith, tt))), (tt, tt)) both-Runs

session-Alone_example :
    let reserved_db = (reserve_for_order memory 7 order_items shop cache).db in
    let released_db = (release_for_order memory 7 shop cache).1.0 in
    Alone reserved_db shop (Session.reserving 7 order_items)
    × ((db' : Db) → Alone db' shop (Session.reserving 7 order_items) → db' ≡ reserved_db)
    × Alone released_db shop (Session.releasing 7)
    × ((db' : Db) → Alone db' shop (Session.releasing 7) → db' ≡ released_db)
session-Alone_example = session-Alone memory 7 shop cache order_items
