-- ===== src/Order/Create.antt =====
-- services/order/app/service.py: `create_order`, whose publication may raise.
use ordermesh.Prelude.{
  ℕ, ◌+◌, ◌^◌, ◌<◌, ◌≡◌, ◌∙◌, refl, ap, map, [], ◌∷◌, ◌++◌, All, All-map, arith, String,
}
use ordermesh.Shared.Outcome.{Result, ok, raise}
use ordermesh.Shared.Event.{EventType, Payload}
use ordermesh.Shared.Platform.{Platform, publish_event}
use ordermesh.Order.Model.{pending, Order, OrderCreate, OrderOut}
use ordermesh.Order.Service.{
  Numeric, State, total_of, insert_order, created_payload, returning, store_and_publish,
  create_order,
}
use ordermesh.Order.Total.{
  HasCents, cents_of, amount_due, IsExact, priced, total_of-IsCents, item_rows-priced,
}

pub returning-state : {A S : Type 0} (a : A) (m : Result (Unit {0}) × S) → (returning a m).1 ≡ m.1
returning-state a (ok _, s) = refl
returning-state a (raise e, s) = refl

-- The order that a payload asks for: pending, with the amount due.
abbrev pub order_due : ℕ → ℕ → OrderCreate → Order
order_due id customer_id payload = record {
  id = id;
  customer_id = customer_id;
  total_amount = amount_due payload;
  status = pending;
  items = map priced payload;
}

-- Every price is kept as it is by its column, and every product id and quantity by an INTEGER.
abbrev pub FitsColumns : OrderCreate → Type 0
FitsColumns payload =
    All (λ i. HasCents i.price × (cents_of i.price < 10 ^ 12)) payload
    × All (λ i. (i.product_id < 2 ^ 31) × (i.quantity < 2 ^ 31)) payload

module _ {C X Body : Type 0} (platform : Platform OrderOut C X Body) where
  -- Publishing leaves the tables alone.
  pub db-publish_event :
      (t : EventType) (p : Payload) (rid : String) (h : State platform)
      → (publish_event platform t p rid h).1.db ≡ h.db
  unfolding publish_event
  db-publish_event t p rid h = refl

  pub cache-publish_event :
      (t : EventType) (p : Payload) (rid : String) (h : State platform)
      → (publish_event platform t p rid h).1.cache ≡ h.cache
  unfolding publish_event
  cache-publish_event t p rid h = refl

  module _ (numeric : Numeric) (customer_id : ℕ) (payload : OrderCreate) (rid : String)
      (h : State platform) where
    create_order-eq :
        IsExact numeric
        → FitsColumns payload
        → amount_due payload < 10 ^ 12
        → create_order platform numeric customer_id payload rid h
          ≡ store_and_publish platform (order_due h.db.order_seq customer_id payload) rid h
    unfolding create_order
    create_order-eq exact fit small = rw (
      exact (total_of payload) (amount_due payload)
          (total_of-IsCents payload (All-map (λ i p. p.0) payload fit.0) (omega arith)) small,
      item_rows-priced numeric payload exact fit.0,
    )

    -- If the price columns keep what fits, every price has at most two decimals and is below its
    -- column's limit, the amount due is so too, and the customer, the order's id and every product
    -- id and quantity fit an INTEGER column, then `create_order` commits exactly one new order after
    -- the earlier ones, which stay as they are: it has the next id, is pending, of this customer,
    -- with the amount due as its total and the items that were asked for. It does so whether the
    -- publication succeeds or raises, and it leaves the cache alone.
    pub create_order_stores :
        IsExact numeric
        → FitsColumns payload
        → amount_due payload < 10 ^ 12
        → customer_id < 2 ^ 31
        → h.db.order_seq < 2 ^ 31
        → let h' = (create_order platform numeric customer_id payload rid h).1 in
          (h'.db.orders ≡ h.db.orders ++ order_due h.db.order_seq customer_id payload ∷ [])
          × (h'.db.order_seq ≡ h.db.order_seq + 1)
          × (h'.cache ≡ h.cache)
    create_order_stores exact fit small customer_fits id_fits =
        let order = order_due h.db.order_seq customer_id payload in
        let stored : State platform = record h { db = insert_order order h.db } in
        let event =
          publish_event platform EventType.order_created (created_payload order) rid stored in
        let committed =
          ap (λ r. r.1.db) (create_order-eq exact fit small)
          ∙ ap (λ s. s.db) (returning-state order event)
          ∙ db-publish_event EventType.order_created (created_payload order) rid stored in
        (
          ap (λ d. d.orders) committed,
          ap (λ d. d.order_seq) committed,
          ap (λ r. r.1.cache) (create_order-eq exact fit small)
              ∙ ap (λ s. s.cache) (returning-state order event)
              ∙ cache-publish_event EventType.order_created (created_payload order) rid stored,
        )
