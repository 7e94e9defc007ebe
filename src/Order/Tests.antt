-- ===== src/Order/Tests.antt =====
-- Two customers with an order each, and requests and events about them.
use ordermesh.Prelude.{
  ℕ, zero, suc, ◌≡◌, refl, some, List, [], ◌∷◌, ◌++◌, arith, codes, leb, if◌then◌else◌,
}
use ordermesh.Prelude.Decimal.{to_text, parse_int}
use ordermesh.Shared.Cache.{get_json}
use ordermesh.Shared.Outcome.{Result, ok, raise, http, external}
use ordermesh.Shared.Auth.{Identity}
use ordermesh.Shared.Broker.{Message}
use ordermesh.Shared.Event.{Event}
use ordermesh.Shared.Cache.Memory.{Memory, memory, nothing, memory-IsServer}
use ordermesh.Shared.Platform.{Platform}
use ordermesh.Order.Decimal.{Decimal}
use ordermesh.Order.Model.{
  Order, OrderItem, OrderCreate, OrderOut, confirmed, shipped, cancelled, Db,
}
use ordermesh.Order.Service.{Numeric, State, get_order, create_order, set_status}
use ordermesh.Order.Routes
use ordermesh.Order.Total.{IsCents, IsExact, cents_of}
use ordermesh.Order.Create.{order_due, create_order_stores}
use ordermesh.Order.Status.{with_status, set_status_writes}
use ordermesh.Order.Cancel.{past, cancel_order_cancels, cancel_order_refuses}
use ordermesh.Order.Access.{IsCustomer, get_order_private}
use ordermesh.Order.Coherence.{IsCoherent, get_order_transparent}

abbrev row : OrderItem
row = record { product_id = 1; quantity = 2; price = 1999 }

abbrev first_order : Order
first_order = record {
  id = 1;
  customer_id = 10;
  total_amount = 3998;
  status = confirmed;
  items = row ∷ [];
}

abbrev second_order : Order
second_order = record {
  id = 2;
  customer_id = 11;
  total_amount = 3998;
  status = shipped;
  items = row ∷ [];
}

abbrev book : Db
book = record { orders = first_order ∷ second_order ∷ []; order_seq = 3 }

-- The world behind the exchange is the list of the events that it took.
abbrev keep : Message Event → List Event → Result (Unit {0}) × List Event
keep m log = (ok tt, m.body ∷ log)

abbrev platform : Platform OrderOut (Memory OrderOut) (List Event) Event
platform = record {
  redis = memory;
  cache_ttl = 300;
  bus = some (record { exchange = some keep });
  model_dump_json = λ event. event;
  now = λ _. codes "2024-01-01T00:00:00+00:00";
}

abbrev start : State platform
start = record { db = book; cache = nothing; net = [] }

abbrev customer : Identity
customer = record { user_id = codes "10"; role = "CUSTOMER" }

abbrev admin : Identity
admin = record { user_id = codes "1"; role = "ADMIN" }

-- A column that refuses what has more than two decimals.
abbrev numeric_of : ℕ → Decimal → Result ℕ
numeric_of n d = if leb d.scale 2 then ok n else raise external

abbrev numeric : Numeric
numeric d = numeric_of (cents_of d) d

numeric-IsExact : IsExact numeric
numeric-IsExact d n h small = exact d.coefficient d.scale h
  where
    exact :
        (c s : ℕ)
        → IsCents (record { coefficient = c; scale = s }) n
        → numeric (record { coefficient = c; scale = s }) ≡ ok n
    exact c zero e = ground arith
    exact c (suc zero) e = ground arith
    exact c (suc (suc zero)) e = ground arith
    exact c (suc (suc (suc k))) e = absurd e

-- 3 at 19.99 and 2 at 5.5.
abbrev basket : OrderCreate
basket =
    record { product_id = 1; quantity = 3; price = record { coefficient = 1999; scale = 2 } }
    ∷ record { product_id = 2; quantity = 2; price = record { coefficient = 55; scale = 1 } }
    ∷ []

create_order_stores_example :
    let h = (create_order platform numeric 10 basket "r-1" start).1 in
    (h.db.orders ≡ book.orders ++ order_due 3 10 basket ∷ [])
    × (h.db.order_seq ≡ 4)
    × (h.cache ≡ start.cache)
create_order_stores_example =
    create_order_stores platform numeric 10 basket "r-1" start numeric-IsExact
      (
        ((omega arith, omega arith), ((omega arith, omega arith), tt)),
        ((omega arith, omega arith), ((omega arith, omega arith), tt)),
      )
      (omega arith) (omega arith) (omega arith)

set_status_writes_example :
    get_order 2 (set_status platform 2 cancelled start).db
    ≡ with_status cancelled (get_order 2 book)
set_status_writes_example = set_status_writes platform 2 cancelled start 2

customer-may_see : Routes.may_see customer 10 ≡ ok tt
unfolding Routes.may_see Routes.is_admin parse_int
customer-may_see = refl

admin-may_see : Routes.may_see admin 11 ≡ ok tt
unfolding Routes.may_see Routes.is_admin
admin-may_see = refl

found_first : get_order 1 book ≡ some first_order
unfolding get_order
found_first = refl

found_second : get_order 2 book ≡ some second_order
unfolding get_order
found_second = refl

cancel_order_cancels_example :
    get_order 1 (Routes.cancel_order platform 1 customer "r-2" start).1.db
    ≡ with_status cancelled (get_order 1 book)
cancel_order_cancels_example =
    cancel_order_cancels platform 1 customer "r-2" start found_first refl customer-may_see tt 1

cancel_order_refuses_example :
    Routes.cancel_order platform 2 admin "r-3" start
    ≡ (raise (http 409 "Cannot cancel an order in status SHIPPED"), start)
cancel_order_refuses_example =
    cancel_order_refuses platform 2 admin "r-3" start
      (past found_second admin-may_see (λ bad. bad) refl)

customer-IsCustomer : IsCustomer customer 10
unfolding Routes.is_admin to_text
customer-IsCustomer = (refl, refl)

shown_first : (Routes.get_order platform 1 customer book nothing).0 ≡ ok first_order
unfolding Routes.get_order Routes.may_see Routes.is_admin get_order parse_int get_json
shown_first = refl

get_order_private_example : first_order.customer_id ≡ 10
get_order_private_example =
    get_order_private platform customer 10 customer-IsCustomer 1 book nothing shown_first

cold-IsCoherent : IsCoherent platform memory-IsServer book nothing
cold-IsCoherent = record { agrees = λ id out e. cc e }

-- The service after a request for the first order, which the cache holds then.
abbrev warm : State platform
warm = record start { cache = (Routes.get_order platform 1 customer book nothing).1 }

warm-IsCoherent : IsCoherent platform memory-IsServer book warm.cache
warm-IsCoherent =
    (get_order_transparent platform memory-IsServer 1 customer book nothing cold-IsCoherent).1
