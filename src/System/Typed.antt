-- ===== src/System/Typed.antt =====
-- The services together: what they publish is what their consumers can handle.
pub mod Bus
pub mod Payloads
pub mod Consumers
pub mod Requests
use ordermesh.Prelude.{List, [], ◌∷◌, All, Bool, refl, ◌≡◌}
use ordermesh.Shared.Broker.{Message}
use ordermesh.System.Rabbit.{
  Queue, order_events, inventory_events, shipping_events, notification_events,
}
use ordermesh.System.Truth.{IsRoundTrip}
use ordermesh.System.Typed.Bus.{IsClear, IsGood, consume-IsClear}
use ordermesh.System.Typed.Consumers.{
  order-Handles, inventory-Handles, shipping-Handles, emails-Handle,
}
use ordermesh.System.Typed.Requests.{
  create_order-IsClear, cancel_order-IsClear, update_shipment-IsClear,
}
use ordermesh.System.{
  System, Env, Action, create_order, cancel_order, read_order, create_product, read_product,
  update_shipment, read_shipment, deliver, redeliver, disturb, step, run, consumed, order_host,
  inventory_host, shipping_host, notification_host, deliver_first,
}

-- Every action but a change of what `publish` will do.
abbrev pub IsUndisturbed : Action → Type 0
IsUndisturbed (disturb faults) = ⊥
IsUndisturbed _ = Unit

module _ {C Body : Type 0} (env : Env C Body) (round_trip : IsRoundTrip env) where
  consumed-IsClear :
      (q : Queue) (m : Message Body) (s : System C Body)
      → IsGood env m
      → IsClear env s.net
      → IsClear env (consumed env q m s).net
  unfolding consumed
  consumed-IsClear order_events m s good c =
      consume-IsClear env order_events _ m (order_host s) (order-Handles env) good c
  consumed-IsClear inventory_events m s good c =
      consume-IsClear env inventory_events _ m (inventory_host s) (inventory-Handles env round_trip)
        good c
  consumed-IsClear shipping_events m s good c =
      consume-IsClear env shipping_events _ m (shipping_host s) (shipping-Handles env round_trip)
        good c
  consumed-IsClear notification_events m s good c =
      consume-IsClear env notification_events _ m (notification_host s) (emails-Handle env) good c

  deliver_first-IsClear :
      (q : Queue) (ms : List (Message Body)) (s : System C Body)
      → All (IsGood env) ms
      → IsClear env s.net
      → IsClear env (deliver_first env q ms s).net
  deliver_first-IsClear q [] s good c = c
  deliver_first-IsClear q (m ∷ ms) s good c = consumed-IsClear q m s good.0 c

  step-IsClear :
      (a : Action) (s : System C Body)
      → IsUndisturbed a
      → IsClear env s.net
      → IsClear env (step env a s).net
  unfolding step
  step-IsClear (create_order payload identity rid) s u c =
      create_order-IsClear env round_trip payload identity rid (order_host s) c
  step-IsClear (cancel_order id identity rid) s u c =
      cancel_order-IsClear env round_trip id identity rid (order_host s) c
  step-IsClear (read_order id identity) s u c = c
  step-IsClear (create_product payload identity) s u c = c
  step-IsClear (read_product id identity) s u c = c
  step-IsClear (update_shipment id status identity rid) s u c =
      update_shipment-IsClear env round_trip id status identity rid (shipping_host s) c
  step-IsClear (read_shipment id identity) s u c = c
  step-IsClear (deliver q) s u c = deliver_first-IsClear q (s.net.queues q) s (c.queued q) c
  step-IsClear (redeliver q) s u c = rw (c.settled q) c
  step-IsClear (disturb faults) s u c = absurd u

  -- What the services say to one another is well typed, and nothing goes wrong with it. If
  -- pydantic reads back the events that it wrote and no call of `publish` raises, then after any
  -- run from a system in which this is so, whatever the requests and the order of the deliveries,
  -- every queued message decodes to an event that carries the order's number and, if it is
  -- OrderCreated, the items, with the types that the consumers need; it has never been retried,
  -- and no message is without an answer or with the dead letters.
  pub run-IsClear :
      (actions : List Action) (s : System C Body)
      → All IsUndisturbed actions
      → IsClear env s.net
      → IsClear env (run env actions s).net
  unfolding run
  run-IsClear [] s u c = c
  run-IsClear (a ∷ actions) s u c = run-IsClear actions (step env a s) u.1 (step-IsClear a s u.0 c)
