-- ===== src/Order/Access.antt =====
-- services/order/app/routes.py: who gets to see an order.
use ordermesh.Prelude.{ℕ, ◌≡◌, false, Option, none, some, arith, ◌==◌, if◌then◌else◌}
use ordermesh.Prelude.Decimal.{to_text, parse_int-to_text}
use ordermesh.Shared.Outcome.{ok, raise, http}
use ordermesh.Shared.Auth.{Identity}
use ordermesh.Shared.Cache.{get_json}
use ordermesh.Shared.Platform.{Platform}
use ordermesh.Order.Model.{Order, OrderOut, Db}
use ordermesh.Order.Service.{State, get_order, cache_key, of_customer, sort_desc}
use ordermesh.Order.Service
use ordermesh.Order.Routes.{
  is_admin, caller_id, may_see, visible, from_table, store_visible, cached_or_read, list_for,
}
use ordermesh.Order.Routes

-- The identity that the gateway forwards for a user without the admin role.
abbrev pub IsCustomer : Identity → ℕ → Type 0
IsCustomer identity n = (is_admin identity ≡ false) × (identity.user_id ≡ to_text n)

caller_id-customer :
    (identity : Identity) (n : ℕ) → IsCustomer identity n → caller_id identity ≡ ok n
caller_id-customer identity n c = rw (c.1, parse_int-to_text n)

may_see-customer :
    (identity : Identity) (n customer_id : ℕ)
    → IsCustomer identity n
    → may_see identity customer_id
      ≡ (if customer_id == n then ok tt else raise (http 404 "Order not found"))
unfolding may_see
may_see-customer identity n customer_id c = rw (c.0, caller_id-customer identity n c)

owner_of_ok :
    (identity : Identity) (n customer_id : ℕ)
    → IsCustomer identity n
    → may_see identity customer_id ≡ ok tt
    → customer_id ≡ n
owner_of_ok identity n customer_id c h = ground (arith, may_see-customer identity n customer_id c)

module _ {C X Body : Type 0} (platform : Platform OrderOut C X Body) (identity : Identity) (n : ℕ)
    (c : IsCustomer identity n) where
  visible-owner :
      (shown order : Order)
      → visible order (may_see identity order.customer_id) ≡ ok shown
      → shown.customer_id ≡ n
  visible-owner shown order h = ground (arith, may_see-customer identity n order.customer_id c)

  store_visible-owner :
      (id : ℕ) (shown order : Order) (cache : C)
      → (store_visible platform id order (may_see identity order.customer_id) cache).0 ≡ ok shown
      → shown.customer_id ≡ n
  store_visible-owner id shown order cache h =
      ground (arith, may_see-customer identity n order.customer_id c)

  -- A customer is only ever shown an order of their own: from the cache, whatever it holds, and
  -- from the table.
  pub get_order_private :
      (id : ℕ) (db : Db) (cache : C) {shown : Order}
      → (Routes.get_order platform id identity db cache).0 ≡ ok shown
      → shown.customer_id ≡ n
  unfolding Routes.get_order
  get_order_private id db cache {shown} h =
      go (get_json platform.redis (cache_key id) cache).0
        (get_json platform.redis (cache_key id) cache).1 h
    where
      read :
          (found : Option Order) (c' : C)
          → (from_table platform id found identity c').0 ≡ ok shown
          → shown.customer_id ≡ n
      read none c' e = cc
      read (some order) c' e = store_visible-owner id shown order c' e

      go :
          (cached : Option Order) (c' : C)
          → (cached_or_read platform id cached identity db c').0 ≡ ok shown
          → shown.customer_id ≡ n
      go (some order) c' e = visible-owner shown order e
      go none c' e = read (Service.get_order id db) c' e
