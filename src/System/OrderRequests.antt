-- ===== src/System/OrderRequests.antt =====
-- services/order/app: its requests, among the other services.
use ordermesh.Prelude.{
  ℕ, ◌≡◌, refl, sym, subst, String, Option, none, some, List, [], ◌∷◌, ◌++◌, map, inl, inr,
  Bool-cases, All, All-append, arith, ◌==◌, ==_refl, first-append_left, first-append_right,
}
use ordermesh.Shared.Outcome.{Result, ok, raise}
use ordermesh.Shared.Auth.{Identity}
use ordermesh.Shared.Event.{EventType}
use ordermesh.Shared.Broker.{Message}
use ordermesh.Shared.Platform.{Host, publish_event}
use ordermesh.Order.Model.{Order, OrderItem, OrderCreate, pending, cancelled, Db, accepts}
use ordermesh.Order.Service.{
  Numeric, State, find_order, get_order, cache_key, created_payload, cancelled_payload, event_item,
  write_status, set_status, set_status_of, returning, store_and_publish, create_with, new_order,
  insert_order,
}
use ordermesh.Order.Service
use ordermesh.Order.Routes.{
  create_as, cancel_found, cancel_checked, may_see, cancellable, caller_id,
}
use ordermesh.Order.Routes
use ordermesh.Inventory.Model as InventoryModel
use ordermesh.Inventory.Safety.{AsksForUnits}
use ordermesh.Shipping.Model as ShippingModel
use ordermesh.System.Rabbit.{Net}
use ordermesh.System.Truth.{IsOrder, Sound, IsRoundTrip}
use ordermesh.System.Rows.{Rows, Rows-orders, tables, write_status-IsOrder, write_status-sent}
use ordermesh.System.Working.{Working-commit, Working-publish}
use ordermesh.System.{Env, platform}
use ordermesh.System.OrderSide.{AtWork as Work}

returning-state : {A S : Type 0} (a : A) (out : Result (Unit {0}) × S) → (returning a out).1 ≡ out.1
returning-state a (ok _, s) = refl
returning-state a (raise e, s) = refl

items-AsksForUnits : (rows : List OrderItem) → All AsksForUnits (map event_item rows)
items-AsksForUnits [] = tt
items-AsksForUnits (x ∷ rows) = (omega arith, items-AsksForUnits rows)

find_order-id : (id : ℕ) (os : List Order) (o : Order) → find_order id os ≡ some o → o.id ≡ id
find_order-id id [] o h = cc
find_order-id id (p ∷ os) o h = ground (arith, find_order-id id os o)

module _ {C Body : Type 0} (env : Env C Body) (i : InventoryModel.Db) (s : ShippingModel.Db) where
  abbrev AtWork : List (Message Body) → Host Db C (Net Body) → Type 0
  AtWork = Work env i s

  module _ (round_trip : IsRoundTrip env) where
    insert_order-AtWork :
        (o : Order) (h : Host Db C (Net Body))
        → o.status ≡ pending
        → AtWork [] h
        → AtWork [] (record h { db = insert_order o h.db })
    insert_order-AtWork o h new w =
        let g : (n : ℕ) → IsOrder h.db.orders n → IsOrder (h.db.orders ++ o ∷ []) n =
          λ n is. first-append_left (λ x. x.id == n) h.db.orders (o ∷ []) is in
        Working-commit env (λ x. tables x s) (λ x. Rows x i s) [] h _ h.cache
          (record { orders = g; shipments = λ n x. x })
          (Rows-orders h.db _ i s g
            (All-append _ h.db.orders (o ∷ []) w.rows.shipped_sent ((λ is. cc (new, is)), tt))
            w.rows)
          w

    store_and_publish-AtWork :
        (o : Order) (rid : String) (h : Host Db C (Net Body))
        → o.status ≡ pending
        → AtWork [] h
        → AtWork [] (store_and_publish (platform env env.order_redis) o rid h).1
    unfolding publish_event
    store_and_publish-AtWork o rid h new w = rw (returning-state o) (
        Working-publish env (λ x. tables x s) (λ x. Rows x i s) env.order_redis round_trip []
          EventType.order_created (created_payload o) rid (record h { db = insert_order o h.db })
          sound (insert_order-AtWork o h new w))
      where
        there : IsOrder (h.db.orders ++ o ∷ []) o.id
        there = first-append_right (λ x. x.id == o.id) h.db.orders o [] (==_refl o.id)

        sound : Sound (h.db.orders ++ o ∷ []) s.shipments "OrderCreated" (created_payload o)
        sound =
            unfold created_payload in
            record {
              known = λ n is. subst (λ k. IsOrder (h.db.orders ++ o ∷ []) k) (cc) there;
              asks = λ items is. subst (λ l. All AsksForUnits l) (cc) (items-AsksForUnits o.items);
              sent = λ key. absurd (cc);
            }

    create_with-AtWork :
        (customer_id : ℕ) (total : Result ℕ) (rows : Result (List OrderItem)) (rid : String)
        (h : Host Db C (Net Body))
        → AtWork [] h
        → AtWork [] (create_with (platform env env.order_redis) customer_id total rows rid h).1
    create_with-AtWork customer_id (ok total) (ok rows) rid h w =
        store_and_publish-AtWork (new_order h.db.order_seq customer_id total rows) rid h refl w
    create_with-AtWork customer_id (ok total) (raise e) rid h w = w
    create_with-AtWork customer_id (raise e) rows rid h w = w

    create_as-AtWork :
        (caller : Result ℕ) (payload : OrderCreate) (rid : String) (h : Host Db C (Net Body))
        → AtWork [] h
        → AtWork [] (create_as (platform env env.order_redis) env.numeric caller payload rid h).1
    unfolding Service.create_order
    create_as-AtWork (ok caller) payload rid h w = create_with-AtWork caller _ _ rid h w
    create_as-AtWork (raise e) payload rid h w = w

    -- `POST /orders`
    pub create_order-AtWork :
        (payload : OrderCreate) (identity : Identity) (rid : String) (h : Host Db C (Net Body))
        → AtWork [] h
        → AtWork []
            (Routes.create_order
              (platform env env.order_redis)
              env.numeric
              payload
              identity
              rid
              h).1
    unfolding Routes.create_order
    create_order-AtWork payload identity rid h w = elim (Bool-cases (accepts payload)) [
      | inl e ↦ rw e (create_as-AtWork (caller_id identity) payload rid h w)
      | inr e ↦ rw e w
    ]

    cancel-AtWork :
        (o : Order) (rid : String) (h : Host Db C (Net Body))
        → find_order o.id h.db.orders ≡ some o
        → AtWork [] h
        → AtWork [] (Service.cancel_order (platform env env.order_redis) o rid h).1
    unfolding Service.cancel_order publish_event
    cancel-AtWork o rid h found w = rw (returning-state (record o { status = cancelled })) (
        Working-publish env (λ x. tables x s) (λ x. Rows x i s) env.order_redis round_trip []
          EventType.order_cancelled (cancelled_payload (record o { status = cancelled })) rid _
          sound
          (Working-commit env (λ x. tables x s) (λ x. Rows x i s) [] h _ _
            (record { orders = g; shipments = λ n x. x })
            (Rows-orders h.db _ i s g
              (write_status-sent o.id cancelled s.shipments h.db.orders (cc) w.rows.shipped_sent)
              w.rows)
            w))
      where
        g : (n : ℕ) → IsOrder h.db.orders n → IsOrder (write_status o.id cancelled h.db.orders) n
        g = write_status-IsOrder o.id cancelled h.db.orders

        sound :
            Sound
              (write_status o.id cancelled h.db.orders)
              s.shipments
              "OrderCancelled"
              (cancelled_payload (record o { status = cancelled }))
        sound =
            unfold cancelled_payload in
            record {
              known = λ n is.
                  subst (λ k. IsOrder (write_status o.id cancelled h.db.orders) k) (cc)
                    (g o.id (λ missing. cc (found, missing)));
              asks = λ items is. absurd (cc);
              sent = λ key. absurd (cc);
            }

    cancel_checked-AtWork :
        (o : Order) (seen checked : Result (Unit {0})) (rid : String) (h : Host Db C (Net Body))
        → find_order o.id h.db.orders ≡ some o
        → AtWork [] h
        → AtWork [] (cancel_checked (platform env env.order_redis) o seen checked rid h).1
    cancel_checked-AtWork o (raise e) checked rid h found w = w
    cancel_checked-AtWork o (ok _) (raise e) rid h found w = w
    cancel_checked-AtWork o (ok _) (ok _) rid h found w = cancel-AtWork o rid h found w

    cancel_found-AtWork :
        (id : ℕ) (found : Option Order) (identity : Identity) (rid : String)
        (h : Host Db C (Net Body))
        → find_order id h.db.orders ≡ found
        → AtWork [] h
        → AtWork [] (cancel_found (platform env env.order_redis) found identity rid h).1
    cancel_found-AtWork id none identity rid h e w = w
    cancel_found-AtWork id (some o) identity rid h e w =
        cancel_checked-AtWork o (may_see identity o.customer_id) (cancellable o.status) rid h
          (subst (λ k. find_order k h.db.orders ≡ some o) (sym (find_order-id id h.db.orders o e))
            e)
          w

    -- `POST /orders/{order_id}/cancel`
    pub cancel_order-AtWork :
        (id : ℕ) (identity : Identity) (rid : String) (h : Host Db C (Net Body))
        → AtWork [] h
        → AtWork [] (Routes.cancel_order (platform env env.order_redis) id identity rid h).1
    unfolding Routes.cancel_order get_order
    cancel_order-AtWork id identity rid h w =
        cancel_found-AtWork id (find_order id h.db.orders) identity rid h refl w
