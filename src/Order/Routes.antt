-- ===== src/Order/Routes.antt =====
-- services/order/app/routes.py: an admin sees every order, a customer only their own.
use text.Mathlib.Text.{◌==◌ as str_eq}
use ordermesh.Prelude.{ℕ, String, Bool, Option, none, some, List, ◌==◌, if◌then◌else◌}
use ordermesh.Prelude.Decimal.{parse_int}
use ordermesh.Shared.Outcome.{Result, ok, raise, Error, http, value_error}
use ordermesh.Shared.Auth.{Identity}
use ordermesh.Shared.Cache.{get_json, set_json}
use ordermesh.Shared.Platform.{Platform}
use ordermesh.Order.Model.{
  Order, OrderCreate, OrderOut, OrderStatus, pending, confirmed, shipped, delivered, cancelled, Db,
  accepts,
}
use ordermesh.Order.Service.{State, Numeric, cache_key}
use ordermesh.Order.Service

unfoldable pub is_admin : Identity → Bool
is_admin identity = str_eq identity.role "ADMIN"

-- `int(identity.user_id)`
abbrev int_or_raise : Option ℕ → Result ℕ
int_or_raise none = raise value_error
int_or_raise (some n) = ok n

abbrev pub caller_id : Identity → Result ℕ
caller_id identity = int_or_raise (parse_int identity.user_id)

abbrev not_found : Error
not_found = http 404 "Order not found"

-- `if not _is_admin(identity) and customer_id != int(identity.user_id): raise …`
abbrev owner_check : ℕ → Result ℕ → Result (Unit {0})
owner_check customer_id (raise e) = raise e
owner_check customer_id (ok caller) =
    if customer_id == caller then ok tt else raise (http 404 "Order not found")

unfoldable pub may_see : Identity → ℕ → Result (Unit {0})
unfolding is_admin
may_see identity customer_id =
    if is_admin identity then ok tt else owner_check customer_id (caller_id identity)

abbrev pub visible : Order → Result (Unit {0}) → Result Order
visible order (ok _) = ok order
visible order (raise e) = raise e

abbrev pub list_for : Result ℕ → Db → Result (List OrderOut)
list_for (ok caller) db = ok (Service.list_orders (some caller) db)
list_for (raise e) db = raise e

-- The check on the status, with the detail of the 409.
abbrev pub cancellable : OrderStatus → Result (Unit {0})
cancellable pending = ok tt
cancellable confirmed = ok tt
cancellable shipped = raise (http 409 "Cannot cancel an order in status SHIPPED")
cancellable delivered = raise (http 409 "Cannot cancel an order in status DELIVERED")
cancellable cancelled = raise (http 409 "Cannot cancel an order in status CANCELLED")

module _ {C X Body : Type 0} (platform : Platform OrderOut C X Body) where
  abbrev pub create_as :
      Numeric → Result ℕ → OrderCreate → String → State platform → Result OrderOut × State platform
  create_as numeric (ok caller) payload rid h =
      Service.create_order platform numeric caller payload rid h
  create_as numeric (raise e) payload rid h = (raise e, h)

  -- `POST /orders`: the body is validated before the function runs.
  unfoldable pub create_order :
      Numeric → OrderCreate → Identity → String → State platform → Result OrderOut × State platform
  create_order numeric payload identity rid h =
      if accepts payload
      then create_as numeric (caller_id identity) payload rid h
      else (raise (http 422 "OrderCreate"), h)

  -- `GET /orders/{order_id}`, from the table: the answer is stored in the cache when it is given.
  abbrev pub store_visible : ℕ → Order → Result (Unit {0}) → C → Result OrderOut × C
  store_visible id order (raise e) c = (raise e, c)
  store_visible id order (ok _) c =
      (ok order, set_json platform.redis platform.cache_ttl (cache_key id) order none c)

  abbrev pub from_table : ℕ → Option Order → Identity → C → Result OrderOut × C
  from_table id none identity c = (raise (http 404 "Order not found"), c)
  from_table id (some order) identity c =
      store_visible id order (may_see identity order.customer_id) c

  abbrev pub cached_or_read : ℕ → Option OrderOut → Identity → Db → C → Result OrderOut × C
  cached_or_read id (some cached) identity db c =
      (visible cached (may_see identity cached.customer_id), c)
  cached_or_read id none identity db c = from_table id (Service.get_order id db) identity c

  unfoldable pub get_order : ℕ → Identity → Db → C → Result OrderOut × C
  unfolding may_see
  get_order id identity db c =
      let (cached, c') = get_json platform.redis (cache_key id) c in
      cached_or_read id cached identity db c'

  abbrev pub cancel_checked :
      Order
      → Result (Unit {0})
      → Result (Unit {0})
      → String
      → State platform
      → Result OrderOut × State platform
  cancel_checked order (raise e) status rid h = (raise e, h)
  cancel_checked order (ok _) (raise e) rid h = (raise e, h)
  cancel_checked order (ok _) (ok _) rid h = Service.cancel_order platform order rid h

  abbrev pub cancel_found :
      Option Order → Identity → String → State platform → Result OrderOut × State platform
  cancel_found none identity rid h = (raise (http 404 "Order not found"), h)
  cancel_found (some order) identity rid h =
      cancel_checked order (may_see identity order.customer_id) (cancellable order.status) rid h

  -- `POST /orders/{order_id}/cancel`
  unfoldable pub cancel_order :
      ℕ → Identity → String → State platform → Result OrderOut × State platform
  unfolding may_see
  cancel_order id identity rid h = cancel_found (Service.get_order id h.db) identity rid h

-- `GET /orders`
unfoldable pub list_orders : Identity → Db → Result (List OrderOut)
unfolding is_admin
list_orders identity db =
    if is_admin identity then ok (Service.list_orders none db) else list_for (caller_id identity) db
