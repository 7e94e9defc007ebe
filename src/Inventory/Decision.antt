-- ===== src/Inventory/Decision.antt =====
-- services/inventory/app/service.py: the decision of `reserve_for_order`, and what it logs.
use mathlib.Core.Path.{ap₂}
use ordermesh.Prelude.{
  ℕ, ◌≡◌, ◌∙◌, ◌↔◌, sym, ap, refl, true, false, none, some, Option, List, [], ◌∷◌, ◌++◌, All,
  All-zip, All-map, Bool-cases, inl, inr, subst, arith, Bool, ◌==◌, ◌||◌, ◌&&◌, ==_iff, ==_refl,
}
use ordermesh.Prelude.Int.{ℤ, ltb_ℤ}
use ordermesh.Shared.Cache.{Client}
use ordermesh.Shared.Event.{Item}
use ordermesh.Inventory.Model.{Db, Product, ProductOut, LowStock}
use ordermesh.Inventory.Service.{
  Wanted, wanted_of, first_reservation, reserve_for_order, reserve_all, find_product, warnings,
  warning, low_stock_threshold,
}
use ordermesh.Inventory.Stock.{stock, quantity_of}
use ordermesh.Inventory.Stock.Wanted.{
  asked, amount-wanted_of, entries-amount, keys-wanted_of, wanted_of-HasDistinctKeys,
}
use ordermesh.Inventory.Stock.Reserve.{Covers, AllCovered, available_sound, available_complete}
use ordermesh.Inventory.Reserve.{reserve_new, available_of_result}

-- For each product that an item names, the table has it with all that the items ask of it together.
abbrev pub CanServe : Db → List Item → Type 0
CanServe db items =
    All (λ x. Covers (stock x.product_id db.products) (asked x.product_id items)) items

abbrev CoversId : Db → List Item → ℕ → Type 0
CoversId db items id = Covers (stock id db.products) (asked id items)

entries_sound :
    (db : Db) (items : List Item) → AllCovered (wanted_of items) db.products → CanServe db items
entries_sound db items h =
    let w = wanted_of items in
    (keys-wanted_of (CoversId db items) items).0 (
      All-zip
        (λ e c same. subst (Covers (stock e.0 db.products)) (same ∙ amount-wanted_of e.0 items) c) w
        h (entries-amount w (wanted_of-HasDistinctKeys items)))

entries_complete :
    (db : Db) (items : List Item) → CanServe db items → AllCovered (wanted_of items) db.products
entries_complete db items h =
    let w = wanted_of items in
    All-zip
      (λ e c same.
        subst (Covers (stock e.0 db.products)) (sym (same ∙ amount-wanted_of e.0 items)) c)
      w ((keys-wanted_of (CoversId db items) items).1 h)
      (entries-amount w (wanted_of-HasDistinctKeys items))

-- For an order that holds nothing, reserving succeeds exactly when every product that an item
-- names exists and has the sum of what all items of the order ask of it.
pub reserve_decides :
    {C : Type 0} (redis : Client C ProductOut) (order_id : ℕ) (items : List Item) (db : Db) (c : C)
    → first_reservation order_id db ≡ none
    → ((reserve_for_order redis order_id items db c).result ≡ true) ↔ CanServe db items
reserve_decides redis o items db c fresh = (
  λ done. entries_sound db items (
      available_sound (wanted_of items) db.products
        (available_of_result redis o items db c fresh done)),
  λ h. rw (
      reserve_new redis o items db c fresh
        (available_complete (wanted_of items) db.products (entries_complete db items h))),
)

-- A line about this product was logged.
abbrev pub logged_for : ℕ → List LowStock → Bool
logged_for id [] = false
logged_for id (line ∷ lines) = line.product_id == id || logged_for id lines

abbrev pub is_low : Option ℤ → Bool
is_low none = false
is_low (some n) = ltb_ℤ n low_stock_threshold

abbrev has_key : ℕ → Wanted → Bool
has_key id [] = false
has_key id ((k, q) ∷ w) = k == id || has_key id w

logged_for-append :
    (id : ℕ) (xs ys : List LowStock)
    → logged_for id (xs ++ ys) ≡ (logged_for id xs || logged_for id ys)
logged_for-append id [] ys = refl
logged_for-append id (x ∷ xs) ys = ground (arith, logged_for-append id xs ys)

logged_for-warning :
    (j k : ℕ) (found : Option Product)
    → logged_for j (warning k found) ≡ ((k == j) && is_low (quantity_of found))
logged_for-warning j k none = ground arith
logged_for-warning j k (some p) = ground arith

low_of_same :
    (j k : ℕ) (ps : List Product) (rest : Bool)
    → ((k == j) && is_low (stock k ps) || rest && is_low (stock j ps))
      ≡ ((k == j || rest) && is_low (stock j ps))
low_of_same j k ps rest = elim (Bool-cases (k == j)) [
  | inl e ↦ rw (e, ap (λ i. stock i ps) ((==_iff k j).0 e)) (ground arith)
  | inr e ↦ rw e
]

logged_for-warnings :
    (j : ℕ) (w : Wanted) (ps : List Product)
    → logged_for j (warnings w ps) ≡ (has_key j w && is_low (stock j ps))
unfolding warnings
logged_for-warnings j [] ps = refl
logged_for-warnings j ((k, q) ∷ w) ps =
    logged_for-append j (warning k (find_product k ps)) (warnings w ps)
    ∙ ap₂ ◌||◌ (logged_for-warning j k (find_product k ps)) (logged_for-warnings j w ps)
    ∙ low_of_same j k ps (has_key j w)

has_key-all : (w : Wanted) → All (λ e. has_key e.0 w ≡ true) w
has_key-all [] = tt
has_key-all ((k, q) ∷ w) =
    (ground (arith, ==_refl k), All-map (λ e h. ground arith) w (has_key-all w))

-- When a new reservation succeeds, a low-stock line is logged for a product of the order exactly
-- if what is left of it is below the threshold.
pub reserve_logs :
    {C : Type 0} (redis : Client C ProductOut) (order_id : ℕ) (items : List Item) (db : Db) (c : C)
    → first_reservation order_id db ≡ none
    → (reserve_for_order redis order_id items db c).result ≡ true
    → let s = reserve_for_order redis order_id items db c in
      All (λ x. logged_for x.product_id s.logged ≡ is_low (stock x.product_id s.db.products)) items
reserve_logs redis o items db c fresh done =
    let w = wanted_of items in
    let after = (reserve_all o w db).products in
    rw (reserve_new redis o items db c fresh (available_of_result redis o items db c fresh done)) (
      (keys-wanted_of (λ j. logged_for j (warnings w after) ≡ is_low (stock j after)) items).0
        (All-map (λ e h. logged_for-warnings e.0 w after ∙ rw h) w (has_key-all w)))
