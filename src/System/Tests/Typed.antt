-- ===== src/System/Tests/Typed.antt =====
-- A run from the start in which nothing goes wrong: the emails of an order and its cancellation.
use ordermesh.Prelude.{refl, List, [], ◌∷◌}
use ordermesh.System.Rabbit.{order_events, inventory_events, shipping_events, notification_events}
use ordermesh.System.Typed.{run-IsClear}
use ordermesh.System.Typed.Bus.{IsClear}
use ordermesh.System.Tests.{env, start, two_widgets, customer}
use ordermesh.System.{Action, create_order, cancel_order, deliver, redeliver, run}

abbrev quiet : List Action
quiet =
    create_order two_widgets customer "r1"
    ∷ deliver notification_events
    ∷ deliver inventory_events
    ∷ redeliver inventory_events
    ∷ cancel_order 1 customer "r2"
    ∷ deliver shipping_events
    ∷ deliver order_events
    ∷ deliver inventory_events
    ∷ []

run-IsClear_example : IsClear env (run env quiet start).net
run-IsClear_example =
    run-IsClear env (λ e. refl) quiet start (tt, (tt, (tt, (tt, (tt, (tt, (tt, (tt, tt))))))))
      (record { queued = λ q. tt; settled = λ q. refl; alive = λ q. refl; calm = refl })
