-- ===== src/Inventory/Tests.antt =====
-- The inventory on a small shop: order 7 asks for 4 + 3 widgets and a gadget.
mod Races
use text.Mathlib.Text.{◌==◌ as str_eq}
use text.Mathlib.TextEquality.{eq_iff}
use ordermesh.Prelude.{
  codes, String, ℕ, ◌≡◌, ◌↔◌, refl, true, false, none, some, List, [], ◌∷◌, All, ◌≢◌, arith,
}
use ordermesh.Prelude.Int.{ℤ, pos, ◌+ℤ◌, ◌-ℤ◌, ◌≤ℤ◌}
use ordermesh.Shared.Outcome.{ok}
use ordermesh.Shared.Auth.{Identity}
use ordermesh.Shared.Event.{Item, Event}
use ordermesh.Shared.Cache.Memory.{Memory, memory, nothing, memory-IsServer, memory-IsReachable}
use ordermesh.Shared.Platform.{Platform}
use ordermesh.Inventory.Model.{Product, Reservation, Db, ProductCreate, ProductOut}
use ordermesh.Inventory.Service.{
  reserve_for_order, release_for_order, create_product, wanted_of, available, reserve_all, held_by,
}
use ordermesh.Inventory.Routes
use ordermesh.Inventory.Stock.{stock, reserved, changed}
use ordermesh.Inventory.Stock.Wanted.{asked}
use ordermesh.Inventory.Invariant.{IsValid}
use ordermesh.Inventory.Reserve.{reserve_moves, reserve_refused, reserve_idempotent}
use ordermesh.Inventory.Release.{release_moves, release_idempotent, release-reserve}
use ordermesh.Inventory.Safety.{reserve-IsValid}
use ordermesh.Inventory.Create.{create-IsValid}
use ordermesh.Inventory.Coherence.{IsCoherent, reserve-IsCoherent, release-IsCoherent}
use ordermesh.Inventory.ReadThrough.{get_product_transparent}
use ordermesh.Inventory.Decision.{CanServe, reserve_decides, reserve_logs, logged_for, is_low}

abbrev widget : Product
widget = record { id = 1; sku = "W-1"; name = "Widget"; quantity_available = pos 12 }

abbrev gadget : Product
gadget = record { id = 2; sku = "G-1"; name = "Gadget"; quantity_available = pos 30 }

abbrev earlier : Reservation
earlier = record { id = 1; product_id = 1; order_id = 3; quantity = pos 2 }

abbrev shop : Db
shop = record {
  products = widget ∷ gadget ∷ [];
  reservations = earlier ∷ [];
  product_seq = 3;
  reservation_seq = 2;
}

abbrev item : ℕ → ℕ → Item
item id n = record { product_id = id; quantity = pos n }

abbrev order_items : List Item
order_items = item 1 4 ∷ item 2 1 ∷ item 1 3 ∷ []

abbrev too_many : List Item
too_many = item 1 8 ∷ item 1 5 ∷ []

abbrev cache : Memory ProductOut
cache = nothing

shop-no_oversell : (id : ℕ) (n : ℤ) → stock id shop.products ≡ some n → pos 0 ≤ℤ n
shop-no_oversell id n e = ground arith

sku_apart : (a b : String) → str_eq a b ≡ false → a ≢ b
sku_apart a b different same = cc (different, (eq_iff a b).1 same)

shop-IsValid : IsValid shop
shop-IsValid = record {
  no_oversell = shop-no_oversell;
  held = (omega arith, tt);
  product_keys = (omega arith, (omega arith, tt), (omega arith, tt, tt));
  reservation_keys = (omega arith, tt, tt);
  skus = ((sku_apart "G-1" "W-1" refl, tt), (tt, tt));
}

reserved_result : (reserve_for_order memory 7 order_items shop cache).result ≡ true
unfolding reserve_for_order wanted_of available ◌+ℤ◌
reserved_result = refl

stock_left : stock 1 (reserve_for_order memory 7 order_items shop cache).db.products ≡ some (pos 5)
unfolding reserve_for_order wanted_of available reserve_all ◌+ℤ◌ ◌-ℤ◌
stock_left = refl

refused_result : (reserve_for_order memory 7 too_many shop cache).result ≡ false
unfolding reserve_for_order wanted_of available ◌+ℤ◌
refused_result = refl

reserve_moves_example :
    let after = (reserve_for_order memory 7 order_items shop cache).db in
    (stock 1 after.products ≡ changed (λ n. n -ℤ asked 1 order_items) (some (pos 12)))
    × (reserved 1 after.reservations ≡ reserved 1 shop.reservations +ℤ asked 1 order_items)
reserve_moves_example = reserve_moves memory 7 order_items shop cache refl reserved_result 1

reserve_idempotent_example :
    let s = reserve_for_order memory 7 order_items shop cache in
    reserve_for_order memory 7 too_many s.db s.cache
    ≡ record { result = true; db = s.db; cache = s.cache; logged = [] }
reserve_idempotent_example =
    reserve_idempotent memory 7 order_items shop cache too_many (λ e. cc e) reserved_result

release_moves_example :
    let after = (release_for_order memory 3 shop cache).1.0 in
    let mine = held_by 3 shop.reservations in
    ((j : ℕ)
      → (stock j after.products ≡ changed (λ n. n +ℤ reserved j mine) (stock j shop.products))
        × (reserved j after.reservations +ℤ reserved j mine ≡ reserved j shop.reservations))
    × (held_by 3 after.reservations ≡ [])
release_moves_example = release_moves memory 3 shop cache shop-IsValid

release-reserve_example :
    let s = reserve_for_order memory 7 order_items shop cache in
    let after = (release_for_order memory 7 s.db s.cache).1.0 in
    (after.products ≡ shop.products) × (after.reservations ≡ shop.reservations)
release-reserve_example =
    release-reserve memory 7 order_items shop cache shop-IsValid refl reserved_result

reserve-IsValid_example : IsValid (reserve_for_order memory 7 order_items shop cache).db
reserve-IsValid_example =
    reserve-IsValid memory 7 order_items shop cache shop-IsValid
      (omega arith, (omega arith, (omega arith, tt)))

abbrev second_widget : ProductCreate
second_widget = record { sku = "W-1"; name = "Widget"; quantity_available = pos 5 }

abbrev platform : Platform ProductOut (Memory ProductOut) (List Event) Event
platform = record {
  redis = memory;
  cache_ttl = 300;
  bus = none;
  model_dump_json = λ event. event;
  now = λ _. [];
}

abbrev visitor : Identity
visitor = record { user_id = codes "10"; role = "CUSTOMER" }

cold-IsCoherent : IsCoherent memory-IsServer shop cache
cold-IsCoherent = record { agrees = λ id out e. cc e }

-- The cache after a request for the gadget, which it holds.
abbrev warm : Memory ProductOut
warm = (Routes.get_product platform 2 visitor shop cache).1

warm-IsCoherent : IsCoherent memory-IsServer shop warm
warm-IsCoherent =
    (get_product_transparent platform memory-IsServer 2 visitor shop cache cold-IsCoherent).1

reserve_decides_example :
    ((reserve_for_order memory 7 too_many shop cache).result ≡ true) ↔ CanServe shop too_many
reserve_decides_example = reserve_decides memory 7 too_many shop cache refl
