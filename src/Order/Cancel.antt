-- ===== src/Order/Cancel.antt =====
-- `POST /orders/{order_id}/cancel`, on every branch.
use ordermesh.Prelude.{
  ℕ, ◌≡◌, ◌∙◌, refl, ap, Option, none, some, [], ◌∷◌, ◌==◌, if◌then◌else◌, String,
}
use ordermesh.Shared.Outcome.{ok, raise, Error, http}
use ordermesh.Shared.Auth.{Identity}
use ordermesh.Shared.Platform.{Platform, publish_event}
use ordermesh.Shared.Cache.{invalidate}
use ordermesh.Shared.Event.{EventType}
use ordermesh.Order.Model.{
  Order, OrderOut, OrderStatus, pending, confirmed, shipped, delivered, cancelled, Db,
}
use ordermesh.Order.Service.{
  State, find_order, get_order, write_status, returning, cancelled_payload, cache_key,
}
use ordermesh.Order.Service
use ordermesh.Order.Routes.{may_see, cancellable, cancel_order}
use ordermesh.Order.Create.{returning-state, db-publish_event}
use ordermesh.Order.Status.{with_status, find-write_status}

-- The statuses from which an order may be cancelled: `_CANCELLABLE` of service.py.
abbrev pub IsCancellable : OrderStatus → Type 0
IsCancellable pending = Unit
IsCancellable confirmed = Unit
IsCancellable _ = ⊥

cancellable-ok : (s : OrderStatus) → IsCancellable s → cancellable s ≡ ok tt
cancellable-ok pending h = refl
cancellable-ok confirmed h = refl
cancellable-ok shipped h = absurd h
cancellable-ok delivered h = absurd h
cancellable-ok cancelled h = absurd h

abbrev pub conflict_detail : OrderStatus → String
conflict_detail shipped = "Cannot cancel an order in status SHIPPED"
conflict_detail delivered = "Cannot cancel an order in status DELIVERED"
conflict_detail _ = "Cannot cancel an order in status CANCELLED"

cancellable-conflict :
    (s : OrderStatus) → ¬ IsCancellable s → cancellable s ≡ raise (http 409 (conflict_detail s))
cancellable-conflict pending h = absurd (h tt)
cancellable-conflict confirmed h = absurd (h tt)
cancellable-conflict shipped h = refl
cancellable-conflict delivered h = refl
cancellable-conflict cancelled h = refl

-- The reasons to refuse, with the answer: for what was found under the id.
pub data Refused (identity : Identity) (found : Option Order) (e : Error) : Type 0 where
  missing : found ≡ none → e ≡ http 404 "Order not found" → Refused identity found e
  unseen :
      {order : Order}
      → found ≡ some order
      → may_see identity order.customer_id ≡ raise e
      → Refused identity found e
  past :
      {order : Order}
      → found ≡ some order
      → may_see identity order.customer_id ≡ ok tt
      → ¬ IsCancellable order.status
      → e ≡ http 409 (conflict_detail order.status)
      → Refused identity found e

module _ {C X Body : Type 0} (platform : Platform OrderOut C X Body) (id : ℕ) (identity : Identity)
    (rid : String) (h : State platform) where
  -- If the caller may see the order and it is pending or confirmed, then afterwards it is
  -- cancelled and every other order is as it was, whether the publication succeeds or raises.
  pub cancel_order_cancels :
      {order : Order}
      → get_order id h.db ≡ some order
      → order.id ≡ id
      → may_see identity order.customer_id ≡ ok tt
      → IsCancellable order.status
      → (j : ℕ)
      → let after = (cancel_order platform id identity rid h).1 in
        get_order j after.db
        ≡ (if id == j then with_status cancelled (get_order j h.db) else get_order j h.db)
  unfolding cancel_order Service.cancel_order get_order
  cancel_order_cancels {order} found same sees may j =
      let order' = record order { status = cancelled } in
      let written : State platform = record h {
        db = record h.db { orders = write_status order.id cancelled h.db.orders };
        cache = invalidate platform.redis (cache_key order.id ∷ []) h.cache;
      } in
      let event =
        publish_event platform EventType.order_cancelled (cancelled_payload order') rid written in
      rw (found, sees, cancellable-ok order.status may)
        (ap (λ (s : State platform). find_order j s.db.orders) (returning-state order' event)
          ∙ ap (λ (db : Db). find_order j db.orders)
              (db-publish_event platform EventType.order_cancelled (cancelled_payload order') rid
                written)
          ∙ rw same (find-write_status j id cancelled h.db.orders))

  -- A request to cancel is refused with 404 for an order that is not there, with what the check
  -- of the caller raises for one that the caller may not see, and with 409 for one that is
  -- shipped, delivered or cancelled. Then nothing changes: no row, no cache entry and nothing
  -- behind the exchange.
  pub cancel_order_refuses :
      {e : Error}
      → Refused identity (get_order id h.db) e
      → cancel_order platform id identity rid h ≡ (raise e, h)
  unfolding cancel_order
  cancel_order_refuses (missing none_there is_404) = rw (none_there, is_404)
  cancel_order_refuses (unseen found sees) = rw (found, sees)
  cancel_order_refuses (past {order} found sees final is_409) =
      rw (found, sees, cancellable-conflict order.status final, is_409)
