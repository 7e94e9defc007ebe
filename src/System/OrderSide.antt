-- ===== src/System/OrderSide.antt =====
-- services/order/app: its consumer, among the other services.
use ordermesh.Prelude.{ℕ, ◌≡◌, refl, Option, none, some, List, [], ◌∷◌, inl, inr, Bool-cases, All}
use ordermesh.Shared.Outcome.{Result, ok, raise}
use ordermesh.Shared.Event.{require_id}
use ordermesh.Shared.Broker.{Message}
use ordermesh.Shared.Platform.{Host}
use ordermesh.Order.Model.{Order, OrderStatus, same_status, confirmed, shipped, cancelled, Db}
use ordermesh.Order.Service.{write_status, set_status, set_status_of}
use ordermesh.Order.Consumers.{handlers, set_on}
use ordermesh.Inventory.Model as InventoryModel
use ordermesh.Shipping.Model as ShippingModel
use ordermesh.System.Rabbit.{Net, order_events, channel}
use ordermesh.System.Keeping.{Keeps}
use ordermesh.System.Truth.{IsOrder, HasShipment}
use ordermesh.System.Rows.{Rows, Rows-orders, tables, write_status-IsOrder, write_status-sent}
use ordermesh.System.Working.{Working, Working-commit, consume-Working}
use ordermesh.System.{Env, platform, consume}

module _ {C Body : Type 0} (env : Env C Body) (i : InventoryModel.Db) (s : ShippingModel.Db) where
  abbrev pub AtWork : List (Message Body) → Host Db C (Net Body) → Type 0
  AtWork = Working env (λ o. tables o s) (λ o. Rows o i s)

  set_status_of-AtWork :
      (ms : List (Message Body)) (found : Option Order) (id : ℕ) (status : OrderStatus)
      (h : Host Db C (Net Body))
      → (status ≡ shipped → HasShipment s.shipments id)
      → AtWork ms h
      → AtWork ms (set_status_of (platform env env.order_redis) found id status h)
  set_status_of-AtWork ms none id status h f w = w
  set_status_of-AtWork ms (some o) id status h f w =
      elim (Bool-cases (same_status o.status status)) [
        | inl e ↦ rw e w
        | inr e ↦ rw e (
            let g : (n : ℕ)
                → IsOrder h.db.orders n
                → IsOrder (write_status id status h.db.orders) n =
              write_status-IsOrder id status h.db.orders in
            Working-commit env (λ o. tables o s) (λ o. Rows o i s) ms h _ _
              (record { orders = g; shipments = λ n x. x })
              (Rows-orders h.db _ i s g
                (write_status-sent id status s.shipments h.db.orders f w.rows.shipped_sent) w.rows)
              w)
      ]

  set_on-AtWork :
      (ms : List (Message Body)) (r : Result ℕ) (status : OrderStatus) (h : Host Db C (Net Body))
      → (status ≡ shipped → (n : ℕ) → r ≡ ok n → HasShipment s.shipments n)
      → AtWork ms h
      → AtWork ms (set_on (platform env env.order_redis) r status h).1
  unfolding set_status
  set_on-AtWork ms (ok id) status h f w =
      set_status_of-AtWork ms _ id status h (λ is. f is id refl) w
  set_on-AtWork ms (raise e) status h f w = w

  keeps :
      (m : Message Body)
      → All
          (Keeps (AtWork (m ∷ [])) (channel order_events) env.validate m)
          (handlers (platform env env.order_redis))
  unfolding handlers
  keeps m = (
    λ e v key ctx h w. set_on-AtWork (m ∷ []) (require_id "order_id" e.payload) confirmed h (cc) w,
    (
      λ e v key ctx h w.
          set_on-AtWork (m ∷ []) (require_id "order_id" e.payload) cancelled h (cc) w,
      (
        λ e v key ctx h w.
            set_on-AtWork (m ∷ []) (require_id "order_id" e.payload) shipped h
              (λ is n eq. (w.held.0 e v).sent key n eq) w,
        tt,
      ),
    ),
  )

  pub consume-AtWork :
      (m : Message Body) (h : Host Db C (Net Body))
      → AtWork (m ∷ []) h
      → AtWork [] (consume env order_events (handlers (platform env env.order_redis)) m h)
  consume-AtWork m h w =
      consume-Working env (λ o. tables o s) (λ o. Rows o i s) order_events _ m (keeps m) h w
