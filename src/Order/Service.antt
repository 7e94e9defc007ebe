-- ===== src/Order/Service.antt =====
-- services/order/app/service.py.
use mathlib.Core.List.{foldl}
use ordermesh.Prelude.{
  ℕ, ◌+◌, ◌/◌, ◌%◌, String, Option, none, some, List, [], ◌∷◌, ◌++◌, map, Text, codes, select,
  first, ltb, ◌==◌, if◌then◌else◌,
}
use ordermesh.Prelude.Int.{pos}
use ordermesh.Prelude.Decimal.{to_text, zero_padded}
use ordermesh.Shared.Outcome.{Result, ok, raise}
use ordermesh.Shared.Cache.{invalidate}
use ordermesh.Shared.Event.{EventType, Item, Value, Payload}
use ordermesh.Shared.Platform.{Platform, Host, publish_event}
use ordermesh.Order.Decimal.{Decimal, times, plus}
use ordermesh.Order.Model.{
  Order, OrderItem, OrderItemIn, OrderCreate, OrderOut, OrderStatus, pending, cancelled,
  same_status, Db,
}

-- `f"order:{order_id}"`
unfoldable pub cache_key : ℕ → Text
cache_key order_id = codes "order:" ++ to_text order_id

-- `sum((item.price * item.quantity for item in payload.items), Decimal(0))`
abbrev pub add_price : Decimal → OrderItemIn → Decimal
add_price sum item = plus sum (times item.price item.quantity)

unfoldable pub total_of : OrderCreate → Decimal
total_of items = foldl add_price (record { coefficient = 0; scale = 0 }) items

-- The database's conversion into a `Numeric(12, 2)` column, in hundredths; it may refuse.
abbrev pub Numeric : Type 0
Numeric = Decimal → Result ℕ

abbrev pub with_price : OrderItemIn → Result ℕ → Result OrderItem
with_price i (ok price) =
    ok (record { product_id = i.product_id; quantity = i.quantity; price = price })
with_price i (raise e) = raise e

abbrev pub append_row : Result OrderItem → Result (List OrderItem) → Result (List OrderItem)
append_row (ok row) (ok rows) = ok (row ∷ rows)
append_row (ok row) (raise e) = raise e
append_row (raise e) rows = raise e

unfoldable pub item_rows : Numeric → List OrderItemIn → Result (List OrderItem)
item_rows numeric [] = ok []
item_rows numeric (i ∷ is) = append_row (with_price i (numeric i.price)) (item_rows numeric is)

-- `str(order.total_amount)` of a value with two places.
unfoldable pub amount_text : ℕ → Text
amount_text cents = to_text (cents / 100) ++ codes "." ++ zero_padded 2 (to_text (cents % 100))

abbrev pub event_item : OrderItem → Item
event_item i = record { product_id = i.product_id; quantity = pos i.quantity }

unfoldable pub created_payload : Order → Payload
created_payload order =
    ("order_id", Value.id order.id)
    ∷ ("customer_id", Value.id order.customer_id)
    ∷ ("total_amount", Value.str (amount_text order.total_amount))
    ∷ ("items", Value.items (map event_item order.items))
    ∷ []

unfoldable pub cancelled_payload : Order → Payload
cancelled_payload order =
    ("order_id", Value.id order.id) ∷ ("customer_id", Value.id order.customer_id) ∷ []

abbrev pub new_order : ℕ → ℕ → ℕ → List OrderItem → Order
new_order id customer_id total rows = record {
  id = id;
  customer_id = customer_id;
  total_amount = total;
  status = pending;
  items = rows;
}

-- `session.add(order)` and the commit.
abbrev pub insert_order : Order → Db → Db
insert_order order db = record { orders = db.orders ++ order ∷ []; order_seq = db.order_seq + 1 }

abbrev pub find_order : ℕ → List Order → Option Order
find_order id = first (λ o. o.id == id)

unfoldable pub get_order : ℕ → Db → Option Order
get_order id db = find_order id db.orders

abbrev pub insert_desc : Order → List Order → List Order
insert_desc o [] = o ∷ []
insert_desc o (p ∷ ps) = if ltb o.id p.id then p ∷ insert_desc o ps else o ∷ p ∷ ps

abbrev pub sort_desc : List Order → List Order
sort_desc [] = []
sort_desc (o ∷ os) = insert_desc o (sort_desc os)

abbrev pub of_customer : Option ℕ → List Order → List Order
of_customer none os = os
of_customer (some customer_id) os = select (λ o. o.customer_id == customer_id) os

-- `order_by(Order.id.desc())`, with the `where` if there is a customer.
unfoldable pub list_orders : Option ℕ → Db → List Order
list_orders customer_id db = sort_desc (of_customer customer_id db.orders)

abbrev pub write_status : ℕ → OrderStatus → List Order → List Order
write_status id status = map (λ o. if o.id == id then record o { status = status } else o)

-- The result of a service call after its last step, which has no result of its own.
abbrev pub returning : {A S : Type 0} → A → Result (Unit {0}) × S → Result A × S
returning a (ok _, s) = (ok a, s)
returning a (raise e, s) = (raise e, s)

module _ {C X Body : Type 0} (platform : Platform OrderOut C X Body) where
  abbrev pub State : Type 0
  State = Host Db C X

  -- The order is committed before its event is published.
  abbrev pub store_and_publish : Order → String → State → Result Order × State
  store_and_publish order rid h = returning order (
      publish_event platform EventType.order_created (created_payload order) rid
        (record h { db = insert_order order h.db }))

  abbrev pub create_with :
      ℕ → Result ℕ → Result (List OrderItem) → String → State → Result Order × State
  create_with customer_id (ok total) (ok rows) rid h =
      store_and_publish (new_order h.db.order_seq customer_id total rows) rid h
  create_with customer_id (ok total) (raise e) rid h = (raise e, h)
  create_with customer_id (raise e) rows rid h = (raise e, h)

  unfoldable pub create_order : Numeric → ℕ → OrderCreate → String → State → Result Order × State
  create_order numeric customer_id payload rid h =
      create_with customer_id (numeric (total_of payload)) (item_rows numeric payload) rid h

  unfoldable pub cancel_order : Order → String → State → Result Order × State
  cancel_order order rid h =
      let order' = record order { status = cancelled } in
      returning order' (
        publish_event platform EventType.order_cancelled (cancelled_payload order') rid (record h {
          db = record h.db { orders = write_status order.id cancelled h.db.orders };
          cache = invalidate platform.redis (cache_key order.id ∷ []) h.cache;
        }))

  abbrev pub set_status_of : Option Order → ℕ → OrderStatus → State → State
  set_status_of none id status h = h
  set_status_of (some order) id status h = if same_status order.status status then h else record h {
    db = record h.db { orders = write_status id status h.db.orders };
    cache = invalidate platform.redis (cache_key id ∷ []) h.cache;
  }

  unfoldable pub set_status : ℕ → OrderStatus → State → State
  unfolding get_order
  set_status id status h = set_status_of (get_order id h.db) id status h
