-- ===== src/Inventory/Stock/Reserve.antt =====
-- The loops of `reserve_for_order`, seen through the stock and the reservations of one product.
use ordermesh.Prelude.{
  ℕ, ◌≡◌, ◌≢◌, ◌∙◌, refl, ap, true, Option, none, some, List, [], ◌∷◌, arith, ◌==◌, Bool-cases, inl,
  inr, All, first, first-append_left, first-append_right, ==_iff, ==_refl, subst,
}
use ordermesh.Prelude.Int.{ℤ, pos, ◌+ℤ◌, ◌-ℤ◌, ◌≤ℤ◌, int_laws}
use ordermesh.Inventory.Model.{Product, Db}
use ordermesh.Inventory.Service.{Wanted, available, reserve_one, reserve_all}
use ordermesh.Inventory.Stock.{stock, reserved, changed, stock-change_stock, reserved-append}
use ordermesh.Inventory.Stock.Wanted.{amount, IsFresh, HasDistinctKeys, amount-IsFresh}

pub stock-reserve_all :
    (order_id j : ℕ) (w : Wanted) (db : Db)
    → stock j (reserve_all order_id w db).products
      ≡ changed (λ n. n -ℤ amount j w) (stock j db.products)
unfolding reserve_all
stock-reserve_all o j [] db = grind (int_laws)
stock-reserve_all o j ((k, q) ∷ w) db =
    stock-reserve_all o j w (reserve_one o k q db)
    ∙ grind (int_laws, stock-change_stock j k (λ n. n -ℤ q) db.products)

pub reserved-reserve_all :
    (order_id j : ℕ) (w : Wanted) (db : Db)
    → reserved j (reserve_all order_id w db).reservations ≡ reserved j db.reservations +ℤ amount j w
unfolding reserve_all
reserved-reserve_all o j [] db = omega int_laws
reserved-reserve_all o j ((k, q) ∷ w) db =
    reserved-reserve_all o j w (reserve_one o k q db)
    ∙ grind (int_laws, reserved-append j db.reservations)

-- Enough of product `j`: nothing of it is asked, or it is there with so much.
abbrev pub Covers : Option ℤ → ℤ → Type 0
Covers none q = ⊥
Covers (some n) q = q ≤ℤ n

abbrev pub AllCovered : Wanted → List Product → Type 0
AllCovered w products = All (λ e. Covers (stock e.0 products) e.1) w

pub available_sound : (w : Wanted) (ps : List Product) → available w ps ≡ true → AllCovered w ps
unfolding available
available_sound [] ps h = tt
available_sound ((k, q) ∷ w) ps h = ground (arith, available_sound w ps)

pub available_complete : (w : Wanted) (ps : List Product) → AllCovered w ps → available w ps ≡ true
unfolding available
available_complete [] ps h = refl
available_complete ((k, q) ∷ w) ps h = ground (arith, available_complete w ps h.1)

amount_head :
    (j k : ℕ) (n q : ℤ) (w : Wanted) → k ≡ j → IsFresh k w → q ≤ℤ n → amount j ((k, q) ∷ w) ≤ℤ n
amount_head j k n q w e fresh h =
    grind (int_laws, amount-IsFresh j w (subst (λ i. IsFresh i w) e fresh))

Covers-stock :
    (j k : ℕ) (n q : ℤ) (ps : List Product)
    → k ≡ j
    → stock j ps ≡ some n
    → Covers (stock k ps) q
    → q ≤ℤ n
Covers-stock j k n q ps same e h = subst (λ s. Covers s q) (ap (λ i. stock i ps) same ∙ e) h

-- With distinct keys the checks entry by entry cover the whole amount of each product.
pub AllCovered-amount :
    (j : ℕ) (n : ℤ) (w : Wanted) (ps : List Product)
    → HasDistinctKeys w
    → AllCovered w ps
    → stock j ps ≡ some n
    → pos 0 ≤ℤ n
    → amount j w ≤ℤ n
AllCovered-amount j n [] ps d c e h = h
AllCovered-amount j n ((k, q) ∷ w) ps d c e h = elim (Bool-cases (k == j)) [
  | inl same ↦
      let eq = (==_iff k j).0 same in
      amount_head j k n q w eq d.0 (Covers-stock j k n q ps eq e c.0)
  | inr other ↦ rw other (AllCovered-amount j n w ps d.1 c.1 e h)
]

-- Reserving something leaves a reservation of the order.
pub first-reserve_all :
    (order_id : ℕ) (w : Wanted) (db : Db)
    → first (λ r. r.order_id == order_id) db.reservations ≢ none
    → first (λ r. r.order_id == order_id) (reserve_all order_id w db).reservations ≢ none
unfolding reserve_all
first-reserve_all o [] db h = h
first-reserve_all o ((k, q) ∷ w) db h =
    first-reserve_all o w (reserve_one o k q db)
      (first-append_left (λ r. r.order_id == o) db.reservations _ h)

pub first-reserve_all_cons :
    (order_id k : ℕ) (q : ℤ) (w : Wanted) (db : Db)
    → first (λ r. r.order_id == order_id) (reserve_all order_id ((k, q) ∷ w) db).reservations ≢ none
unfolding reserve_all
first-reserve_all_cons o k q w db =
    first-reserve_all o w (reserve_one o k q db)
      (first-append_right (λ r. r.order_id == o) db.reservations _ [] (==_refl o))
