-- ===== src/System/Coherent/Orders.antt =====
-- services/order/app: its cache under its requests and its consumer.
use ordermesh.Prelude.{
  ℕ, String, Option, none, some, List, [], ◌∷◌, All, first-append_some, ◌==◌, Bool-cases, inl, inr,
  Text,
}
use ordermesh.Shared.Outcome.{Result, ok, raise}
use ordermesh.Shared.Auth.{Identity}
use ordermesh.Shared.Cache.{Raw}
use ordermesh.Shared.Cache.Server.{IsServer, IsReachable}
use ordermesh.Shared.Event.{EventType, require_id}
use ordermesh.Shared.Broker.{Message}
use ordermesh.Shared.Platform.{Host, publish_event}
use ordermesh.Order.Model.{
  Order, OrderItem, OrderOut, OrderCreate, OrderStatus, confirmed, shipped, cancelled, Db, accepts,
}
use ordermesh.Order.Service.{
  created_payload, get_order, create_with, store_and_publish, new_order, insert_order,
}
use ordermesh.Order.Service
use ordermesh.Order.Routes.{
  create_as, cancel_found, cancel_checked, may_see, cancellable, caller_id,
}
use ordermesh.Order.Routes
use ordermesh.Order.Consumers.{handlers, set_on}
use ordermesh.Order.Create.{returning-state}
use ordermesh.Order.Coherence.{IsCoherent, set_status-IsCoherent, cancel_order-IsCoherent}
use ordermesh.System.Rabbit.{Net, order_events, channel}
use ordermesh.System.Keeping.{Keeps}
use ordermesh.System.Kept.{Kept, consume-Kept, publish-Kept}
use ordermesh.System.{Env, platform, consume}

module _ {C Body : Type 0} (env : Env C Body) {view : C → Text → Option (Raw OrderOut)}
    (server : IsServer env.order_redis view) where
  abbrev pub Agrees : Db → C → Type 0
  Agrees = IsCoherent (platform env env.order_redis) server

  abbrev At : Host Db C (Net Body) → Type 0
  At = Kept env Agrees

  insert_order-Agrees : (o : Order) (db : Db) (c : C) → Agrees db c → Agrees (insert_order o db) c
  insert_order-Agrees o db c k = record {
    agrees =
        λ j out e. first-append_some (λ x. x.id == j) db.orders (o ∷ []) out (k.agrees j out e);
  }

  create_with-At :
      (customer_id : ℕ) (total : Result ℕ) (rows : Result (List OrderItem)) (rid : String)
      (h : Host Db C (Net Body))
      → At h
      → At (create_with (platform env env.order_redis) customer_id total rows rid h).1
  create_with-At customer_id (ok total) (ok rows) rid h k =
      let o = new_order h.db.order_seq customer_id total rows in
      let stored = record h { db = insert_order o h.db } in
      rw
        (returning-state o (
          publish_event (platform env env.order_redis) EventType.order_created (created_payload o)
            rid stored))
        (publish-Kept env Agrees env.order_redis EventType.order_created (created_payload o) rid
          stored (insert_order-Agrees o h.db h.cache k))
  create_with-At customer_id (ok total) (raise e) rid h k = k
  create_with-At customer_id (raise e) rows rid h k = k

  create_as-At :
      (caller : Result ℕ) (payload : OrderCreate) (rid : String) (h : Host Db C (Net Body))
      → At h
      → At (create_as (platform env env.order_redis) env.numeric caller payload rid h).1
  unfolding Service.create_order
  create_as-At (ok caller) payload rid h k = create_with-At caller _ _ rid h k
  create_as-At (raise e) payload rid h k = k

  pub create_order-At :
      (payload : OrderCreate) (identity : Identity) (rid : String) (h : Host Db C (Net Body))
      → At h
      → At (Routes.create_order (platform env env.order_redis) env.numeric payload identity rid h).1
  unfolding Routes.create_order
  create_order-At payload identity rid h k = elim (Bool-cases (accepts payload)) [
    | inl e ↦ rw e (create_as-At (caller_id identity) payload rid h k)
    | inr e ↦ rw e k
  ]

  module _ (up : IsReachable env.order_redis) where
    cancel_checked-At :
        (o : Order) (seen checked : Result (Unit {0})) (rid : String) (h : Host Db C (Net Body))
        → At h
        → At (cancel_checked (platform env env.order_redis) o seen checked rid h).1
    cancel_checked-At o (raise e) checked rid h k = k
    cancel_checked-At o (ok _) (raise e) rid h k = k
    cancel_checked-At o (ok _) (ok _) rid h k =
        cancel_order-IsCoherent (platform env env.order_redis) server up o rid h k

    cancel_found-At :
        (found : Option Order) (identity : Identity) (rid : String) (h : Host Db C (Net Body))
        → At h
        → At (cancel_found (platform env env.order_redis) found identity rid h).1
    cancel_found-At none identity rid h k = k
    cancel_found-At (some o) identity rid h k =
        cancel_checked-At o (may_see identity o.customer_id) (cancellable o.status) rid h k

    pub cancel_order-At :
        (id : ℕ) (identity : Identity) (rid : String) (h : Host Db C (Net Body))
        → At h
        → At (Routes.cancel_order (platform env env.order_redis) id identity rid h).1
    unfolding Routes.cancel_order
    cancel_order-At id identity rid h k = cancel_found-At (get_order id h.db) identity rid h k

    set_on-At :
        (r : Result ℕ) (status : OrderStatus) (h : Host Db C (Net Body))
        → At h
        → At (set_on (platform env env.order_redis) r status h).1
    set_on-At (ok id) status h k =
        set_status-IsCoherent (platform env env.order_redis) server up id status h k
    set_on-At (raise e) status h k = k

    keeps :
        (m : Message Body)
        → All
            (Keeps At (channel order_events) env.validate m)
            (handlers (platform env env.order_redis))
    unfolding handlers
    keeps m = (
      λ e v key ctx h k. set_on-At (require_id "order_id" e.payload) confirmed h k,
      (
        λ e v key ctx h k. set_on-At (require_id "order_id" e.payload) cancelled h k,
        (λ e v key ctx h k. set_on-At (require_id "order_id" e.payload) shipped h k, tt),
      ),
    )

    pub consume-At :
        (m : Message Body) (h : Host Db C (Net Body))
        → At h
        → At (consume env order_events (handlers (platform env env.order_redis)) m h)
    consume-At m h k = consume-Kept env Agrees order_events _ m (keeps m) h k
