-- ===== src/System/Invariant.antt =====
-- The whole system, whatever happens in whatever order.
use ordermesh.Prelude.{List, [], ◌∷◌, All}
use ordermesh.Shared.Broker.{Message}
use ordermesh.Shared.Consumer.{Handlers}
use ordermesh.Shared.Platform.{Host}
use ordermesh.Notification.Service as Notification
use ordermesh.Notification.Consumers as NotificationConsumers
use ordermesh.Order.Model as OrderModel
use ordermesh.Inventory.Model as InventoryModel
use ordermesh.Shipping.Model as ShippingModel
use ordermesh.System.Rabbit.{
  Queue, order_events, inventory_events, shipping_events, notification_events, Net, channel,
}
use ordermesh.System.Facts.{Holds, requeue-Holds}
use ordermesh.System.Keeping.{Keeps}
use ordermesh.System.Truth.{IsTrue, IsRoundTrip}
use ordermesh.System.Rows.{Rows, tables}
use ordermesh.System.Working.{Working, consume-Working}
use ordermesh.System.OrderSide as OrderSide
use ordermesh.System.OrderRequests as OrderRequests
use ordermesh.System.InventorySide as InventorySide
use ordermesh.System.ShippingSide as ShippingSide
use ordermesh.System.{
  System, Env, Action, create_order, cancel_order, read_order, create_product, read_product,
  update_shipment, read_shipment, deliver, redeliver, disturb, step, run, consumed, all_on_tables,
  order_host, inventory_host, shipping_host, notification_host, deliver_first,
}

module _ {C Body : Type 0} (env : Env C Body) where
  -- The tables agree, and what the messages in the queues and those without an answer say is so.
  pub record IsConsistent (s : System C Body) : Type 0 where
    pub rows : Rows s.order_db s.inventory_db s.shipping_db
    pub truth : Holds (IsTrue env (tables s.order_db s.shipping_db)) s.net

  module _ (o : OrderModel.Db) (i : InventoryModel.Db) (s : ShippingModel.Db) where
    abbrev Emailing : List (Message Body) → Host Notification.Db (Unit {0}) (Net Body) → Type 0
    Emailing = Working env (λ n. tables o s) (λ n. Rows o i s)

    Emailing-Keeps :
        (m : Message Body) (hs : Handlers Notification.Db)
        → All
            (Keeps (Emailing (m ∷ [])) (channel notification_events) env.validate m)
            (all_on_tables hs)
    Emailing-Keeps m [] = tt
    Emailing-Keeps m ((key, f) ∷ hs) = (
      λ e v is ctx h w. record { rows = w.rows; truth = w.truth; held = w.held },
      Emailing-Keeps m hs,
    )

  module _ (round_trip : IsRoundTrip env) where
    consumed-IsConsistent :
        (q : Queue) (m : Message Body) (s : System C Body)
        → IsTrue env (tables s.order_db s.shipping_db) m
        → IsConsistent s
        → IsConsistent (consumed env q m s)
    unfolding consumed
    consumed-IsConsistent order_events m s t k =
        let w =
          OrderSide.consume-AtWork env s.inventory_db s.shipping_db m (order_host s)
            (record { rows = k.rows; truth = k.truth; held = (t, tt) }) in
        record { rows = w.rows; truth = w.truth }
    consumed-IsConsistent inventory_events m s t k =
        let w =
          InventorySide.consume-AtWork env s.order_db s.shipping_db round_trip m (inventory_host s)
            (record { rows = k.rows; truth = k.truth; held = (t, tt) }) in
        record { rows = w.rows; truth = w.truth }
    consumed-IsConsistent shipping_events m s t k =
        let w =
          ShippingSide.consume-AtWork env s.order_db s.inventory_db round_trip m (shipping_host s)
            (record { rows = k.rows; truth = k.truth; held = (t, tt) }) in
        record { rows = w.rows; truth = w.truth }
    consumed-IsConsistent notification_events m s t k =
        let w =
          consume-Working env (λ n. tables s.order_db s.shipping_db)
            (λ n. Rows s.order_db s.inventory_db s.shipping_db) notification_events _ m
            (Emailing-Keeps s.order_db s.inventory_db s.shipping_db m
              (NotificationConsumers.handlers env.dumps env.str_of_list))
            (notification_host s) (record { rows = k.rows; truth = k.truth; held = (t, tt) }) in
        record { rows = w.rows; truth = w.truth }

    deliver_first-IsConsistent :
        (q : Queue) (ms : List (Message Body)) (s : System C Body)
        → All (IsTrue env (tables s.order_db s.shipping_db)) ms
        → IsConsistent s
        → IsConsistent (deliver_first env q ms s)
    deliver_first-IsConsistent q [] s t k = k
    deliver_first-IsConsistent q (m ∷ ms) s t k = consumed-IsConsistent q m s t.0 k

    step-IsConsistent :
        (a : Action) (s : System C Body) → IsConsistent s → IsConsistent (step env a s)
    unfolding step
    step-IsConsistent (create_order payload identity rid) s k =
        let w =
          OrderRequests.create_order-AtWork env s.inventory_db s.shipping_db round_trip payload
            identity rid (order_host s) (record { rows = k.rows; truth = k.truth; held = tt }) in
        record { rows = w.rows; truth = w.truth }
    step-IsConsistent (cancel_order id identity rid) s k =
        let w =
          OrderRequests.cancel_order-AtWork env s.inventory_db s.shipping_db round_trip id identity
            rid (order_host s) (record { rows = k.rows; truth = k.truth; held = tt }) in
        record { rows = w.rows; truth = w.truth }
    step-IsConsistent (read_order id identity) s k = record { rows = k.rows; truth = k.truth }
    step-IsConsistent (create_product payload identity) s k =
        let w =
          InventorySide.create_product-AtWork env s.order_db s.shipping_db payload identity
            (inventory_host s) (record { rows = k.rows; truth = k.truth; held = tt }) in
        record { rows = w.rows; truth = w.truth }
    step-IsConsistent (read_product id identity) s k = record { rows = k.rows; truth = k.truth }
    step-IsConsistent (update_shipment id status identity rid) s k =
        let w =
          ShippingSide.update-AtWork env s.order_db s.inventory_db round_trip id status identity rid
            (shipping_host s) (record { rows = k.rows; truth = k.truth; held = tt }) in
        record { rows = w.rows; truth = w.truth }
    step-IsConsistent (read_shipment id identity) s k = record { rows = k.rows; truth = k.truth }
    step-IsConsistent (deliver q) s k =
        deliver_first-IsConsistent q (s.net.queues q) s (k.truth.queued q) k
    step-IsConsistent (redeliver q) s k = record {
      rows = k.rows;
      truth = requeue-Holds _ q (s.net.unacked q) s.net (k.truth.unacked q) k.truth;
    }
    step-IsConsistent (disturb faults) s k = record {
      rows = k.rows;
      truth = record { queued = k.truth.queued; unacked = k.truth.unacked };
    }

    -- Requests, deliveries, redeliveries and calls of `publish` that raise may come in any order: if
    -- pydantic reads back the events that it wrote, a consistent system stays so. No product is
    -- oversold, the unique columns hold, every reservation and every shipment is of an order that is
    -- there, and an order whose status is SHIPPED has a shipment.
    pub run-IsConsistent :
        (actions : List Action) (s : System C Body)
        → IsConsistent s
        → IsConsistent (run env actions s)
    unfolding run
    run-IsConsistent [] s k = k
    run-IsConsistent (a ∷ actions) s k =
        run-IsConsistent actions (step env a s) (step-IsConsistent a s k)
