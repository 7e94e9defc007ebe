-- ===== src/System/Tests/Orders.antt =====
-- An order for more than there is, and one that was cancelled while its shipment was announced.
use ordermesh.Prelude.{◌≡◌, refl, some, List, [], ◌∷◌, map, arith, codes, if◌then◌else◌}
use ordermesh.Prelude.Int.{◌+ℤ◌}
use ordermesh.Shared.Event.{Event, EventType, Value, create}
use ordermesh.Shared.Broker.{Message, to_message}
use ordermesh.Order.Decimal.{plus, times, rounded}
use ordermesh.Order.Model.{Order, OrderCreate, pending, cancelled, shipped, accepts}
use ordermesh.Order.Service.{total_of, item_rows, find_order}
use ordermesh.Prelude.Decimal.{parse_int}
use ordermesh.Inventory.Service.{wanted_of, available}
use ordermesh.System.Rabbit.{Queue, order_events, same_queue}
use ordermesh.System.Life.Stage.{all_of}
use ordermesh.System.Life.Fulfilled.{Places}
use ordermesh.System.Life.Declined.{IsDeclined, create_order-IsDeclined}
use ordermesh.System.Life.At.{Says}
use ordermesh.System.Life.Late.{late_shipment_revives}
use ordermesh.System.Tests.{env, start, customer, backwards, backwards-IsRound}
use ordermesh.System.{System, create_order, deliver, run, step}

abbrev pub nine_widgets : OrderCreate
nine_widgets =
    record { product_id = 1; quantity = 9; price = record { coefficient = 1999; scale = 2 } } ∷ []

abbrev pub big_order : Order
big_order = record {
  id = 1;
  customer_id = 10;
  total_amount = 17991;
  status = pending;
  items = record { product_id = 1; quantity = 9; price = 1999 } ∷ [];
}

abbrev two_rounds : List (List Queue)
two_rounds = backwards ∷ backwards ∷ []

pub big_placed : Places env nine_widgets customer start big_order
unfolding accepts total_of item_rows parse_int plus times rounded
big_placed = record { accepted = refl; caller = refl; total = refl; rows = refl; row = refl }

create_order-IsDeclined_example :
    IsDeclined big_order start.inventory_db
      (run env (create_order nine_widgets customer "r1" ∷ map deliver (all_of two_rounds)) start)
unfolding wanted_of available ◌+ℤ◌
create_order-IsDeclined_example =
    create_order-IsDeclined env nine_widgets customer "r1" start big_order big_placed
      (record { empty = λ q. refl; calm = refl }) (λ e. refl) refl refl refl refl two_rounds
      (backwards-IsRound, (backwards-IsRound, tt)) (omega arith)

abbrev gone : Order
gone = record big_order { status = cancelled }

abbrev announcement : Message Event
announcement =
    to_message env.model_dump_json
      (create EventType.shipment_created (("order_id", Value.id 1) ∷ []) "r1" (codes "now"))

abbrev crossed : System (Unit {0}) Event
crossed = record start {
  order_db = record { orders = gone ∷ []; order_seq = 2 };
  net = record (start.net) {
    queues = λ q. if same_queue q order_events then announcement ∷ [] else [];
  };
}

announcement-Says : Says env 1 [] "ShipmentCreated" announcement
announcement-Says = record {
  event = announcement.body;
  valid = refl;
  count = refl;
  kind_of = refl;
  order = refl;
  ordered = cc;
}

late_shipment_revives_example :
    let s' = step env (deliver order_events) crossed in
    (find_order 1 s'.order_db.orders ≡ some (record gone { status = shipped }))
    × (s'.inventory_db ≡ crossed.inventory_db)
    × (s'.shipping_db ≡ crossed.shipping_db)
late_shipment_revives_example =
    late_shipment_revives env 1 [] crossed announcement [] gone refl announcement-Says refl refl
