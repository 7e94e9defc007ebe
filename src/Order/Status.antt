-- ===== src/Order/Status.antt =====
-- `set_status`: what an inbound event does to the orders.
use ordermesh.Prelude.{
  ℕ, ◌≡◌, ◌∙◌, refl, ap, sym, true, Option, none, some, List, [], ◌∷◌, arith, ◌==◌, if◌then◌else◌,
  Bool-cases, Option-cases, inl, inr, ==_iff, ==_refl,
}
use ordermesh.Shared.Platform.{Platform}
use ordermesh.Order.Model.{
  Order, OrderOut, OrderStatus, same_status, pending, confirmed, shipped, delivered, cancelled,
}
use ordermesh.Order.Service.{State, find_order, get_order, write_status, set_status, set_status_of}

same_status-eq : (a b : OrderStatus) → same_status a b ≡ true → a ≡ b
same_status-eq pending b h = ground arith
same_status-eq confirmed b h = ground arith
same_status-eq shipped b h = ground arith
same_status-eq delivered b h = ground arith
same_status-eq cancelled b h = ground arith

pub same_status_refl : (a : OrderStatus) → same_status a a ≡ true
same_status_refl pending = refl
same_status_refl _ = refl

abbrev pub with_status : OrderStatus → Option Order → Option Order
with_status status none = none
with_status status (some o) = some (record o { status = status })

pub find-write_status :
    (j id : ℕ) (status : OrderStatus) (os : List Order)
    → find_order j (write_status id status os)
      ≡ (if id == j then with_status status (find_order j os) else find_order j os)
find-write_status j id status [] = ground arith
find-write_status j id status (o ∷ os) = ground (arith, find-write_status j id status os)

find_none-other :
    (j id : ℕ) (os : List Order) (status : OrderStatus)
    → find_order id os ≡ none
    → find_order j os ≡ (if id == j then with_status status (find_order j os) else find_order j os)
find_none-other j id os status h = elim (Bool-cases (id == j)) [
  | inl e ↦
      let gone : find_order j os ≡ none = ap (λ i. find_order i os) (sym ((==_iff id j).0 e)) ∙ h in
      rw (e, gone)
  | inr e ↦ rw e
]

find_same-other :
    (j id : ℕ) (os : List Order) (o : Order)
    → find_order id os ≡ some o
    → find_order j os
      ≡ (if id == j then with_status o.status (find_order j os) else find_order j os)
find_same-other j id os o h = elim (Bool-cases (id == j)) [
  | inl e ↦
      let there : find_order j os ≡ some o =
        ap (λ i. find_order i os) (sym ((==_iff id j).0 e)) ∙ h in
      rw (e, there)
  | inr e ↦ rw e
]

module _ {C X Body : Type 0} (platform : Platform OrderOut C X Body) (id : ℕ) (status : OrderStatus)
    (h : State platform) where
  -- After `set_status` the order has the status, if it is there, whatever its status was before (an
  -- order that was cancelled or delivered too); every other order is as it was.
  pub set_status_writes :
      (j : ℕ)
      → let after = set_status platform id status h in
        get_order j after.db
        ≡ (if id == j then with_status status (get_order j h.db) else get_order j h.db)
  unfolding set_status
  set_status_writes j = go (find_order id h.db.orders) refl
    where
      go :
          (found : Option Order)
          → find_order id h.db.orders ≡ found
          → find_order j (set_status_of platform found id status h).db.orders ≡ (
              if id == j
              then with_status status (find_order j h.db.orders)
              else find_order j h.db.orders)
      go none e = find_none-other j id h.db.orders status e
      go (some o) e = elim (Bool-cases (same_status o.status status)) [
        | inl same ↦
            rw (same, ← same_status-eq o.status status same) (find_same-other j id h.db.orders o e)
        | inr new ↦ rw new (find-write_status j id status h.db.orders)
      ]

  set_status-missing :
      (h' : State platform) → get_order id h'.db ≡ none → set_status platform id status h' ≡ h'
  unfolding set_status
  set_status-missing h' e = rw e

  set_status-same :
      (h' : State platform) (o : Order)
      → get_order id h'.db ≡ some o
      → o.status ≡ status
      → set_status platform id status h' ≡ h'
  unfolding set_status
  set_status-same h' o e same = rw (e, same, same_status_refl)

  found_after :
      get_order id (set_status platform id status h).db ≡ with_status status (get_order id h.db)
  found_after = set_status_writes id ∙ rw ==_refl

  -- Setting the same status of an order a second time, as a second delivery of an event does,
  -- changes nothing at all: no row and no cache entry.
  pub set_status_idempotent :
      let after = set_status platform id status h in set_status platform id status after ≡ after
  set_status_idempotent = elim (Option-cases (get_order id h.db)) [
    | inl e ↦
        set_status-missing (set_status platform id status h)
          (found_after ∙ ap (with_status status) e)
    | inr (o, e) ↦
        set_status-same (set_status platform id status h) (record o { status = status })
          (found_after ∙ ap (with_status status) e) refl
  ]
