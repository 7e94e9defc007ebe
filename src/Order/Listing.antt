-- ===== src/Order/Listing.antt =====
-- `GET /orders`: which orders are listed, and in which order.
use mathlib.Core.List.{Perm}
use mathlib.Core.List.Perm
use ordermesh.Prelude.{
  ℕ, ◌≤◌, Option, List, [], ◌∷◌, arith, ltb, Bool-cases, inl, inr, All, All-map,
}
use ordermesh.Order.Model.{Order, Db}
use ordermesh.Order.Service.{insert_desc, sort_desc, of_customer, list_orders}

abbrev IsNewerThan : ℕ → List Order → Type 0
IsNewerThan id = All (λ o. o.id ≤ id)

abbrev pub IsNewestFirst : List Order → Type 0
IsNewestFirst [] = Unit
IsNewestFirst (o ∷ os) = IsNewerThan o.id os × IsNewestFirst os

insert_desc-le :
    (id : ℕ) (o : Order) (os : List Order)
    → o.id ≤ id
    → IsNewerThan id os
    → IsNewerThan id (insert_desc o os)
insert_desc-le id o [] h t = (h, tt)
insert_desc-le id o (p ∷ ps) h t = elim (Bool-cases (ltb o.id p.id)) [
  | inl e ↦ rw e (t.0, insert_desc-le id o ps h t.1)
  | inr e ↦ rw e (h, t)
]

IsNewerThan-le : (a b : ℕ) (os : List Order) → a ≤ b → IsNewerThan a os → IsNewerThan b os
IsNewerThan-le a b os h t = All-map (λ o le. omega arith) os t

insert_desc-IsNewestFirst :
    (o : Order) (os : List Order) → IsNewestFirst os → IsNewestFirst (insert_desc o os)
insert_desc-IsNewestFirst o [] h = (tt, tt)
insert_desc-IsNewestFirst o (p ∷ ps) h = elim (Bool-cases (ltb o.id p.id)) [
  | inl e ↦ rw e (insert_desc-le p.id o ps (ground arith) h.0, insert_desc-IsNewestFirst o ps h.1)
  | inr e ↦ rw e ((ground arith, IsNewerThan-le p.id o.id ps (ground arith) h.0), h)
]

insert_desc-perm : (o : Order) (os : List Order) → Perm (insert_desc o os) (o ∷ os)
insert_desc-perm o [] = Perm.refl (o ∷ [])
insert_desc-perm o (p ∷ ps) = elim (Bool-cases (ltb o.id p.id)) [
  | inl e ↦ rw e (Perm.trans (Perm.cons p (insert_desc-perm o ps)) (Perm.swap o p ps))
  | inr e ↦ rw e (Perm.refl (o ∷ p ∷ ps))
]

sort_desc-perm : (os : List Order) → Perm (sort_desc os) os
sort_desc-perm [] = Perm.refl []
sort_desc-perm (o ∷ os) =
    Perm.trans (insert_desc-perm o (sort_desc os)) (Perm.cons o (sort_desc-perm os))

sort_desc-IsNewestFirst : (os : List Order) → IsNewestFirst (sort_desc os)
sort_desc-IsNewestFirst [] = tt
sort_desc-IsNewestFirst (o ∷ os) =
    insert_desc-IsNewestFirst o (sort_desc os) (sort_desc-IsNewestFirst os)

-- The list holds the orders of the table, all of them or those of the customer that is asked for,
-- each as often as it stands there and no other, with the newest id first.
pub list_orders_complete :
    (customer_id : Option ℕ) (db : Db)
    → Perm (list_orders customer_id db) (of_customer customer_id db.orders)
      × IsNewestFirst (list_orders customer_id db)
unfolding list_orders
list_orders_complete customer_id db = (
  sort_desc-perm (of_customer customer_id db.orders),
  sort_desc-IsNewestFirst (of_customer customer_id db.orders),
)
