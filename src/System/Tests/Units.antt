-- ===== src/System/Tests/Units.antt =====
-- Five widgets, of which an order takes two and gives them back.
use ordermesh.Prelude.{List, [], ◌∷◌, refl, true}
use ordermesh.Prelude.Int.{pos}
use ordermesh.Inventory.Units.{HasUnits}
use ordermesh.System.Rabbit.{inventory_events}
use ordermesh.System.Units.{Counts, run-Counts}
use ordermesh.System.Tests.{env, start, two_widgets, customer}
use ordermesh.System.{Action, create_order, cancel_order, deliver, redeliver, disturb, run}

abbrev there_and_back : List Action
there_and_back =
    create_order two_widgets customer "r1"
    ∷ disturb (true ∷ [])
    ∷ deliver inventory_events
    ∷ redeliver inventory_events
    ∷ deliver inventory_events
    ∷ cancel_order 1 customer "r2"
    ∷ deliver inventory_events
    ∷ []

start-HasUnits : HasUnits 1 (pos 5) start.inventory_db
unfolding ordermesh.Prelude.Int.◌+ℤ◌
start-HasUnits = record { shelf = pos 5; there = refl; count = refl; keys = tt }

run-Counts_example : Counts env 1 (pos 5) (run env there_and_back start)
run-Counts_example = run-Counts env 1 (pos 5) there_and_back start start-HasUnits
