-- ===== src/System/Tests.antt =====
-- Four services with one product in stock and no orders yet.
mod Startup
mod Orders
mod Tracing
mod Caches
mod Typed
mod Units
mod Late
use ordermesh.Prelude.{
  ℕ, ◌+◌, ◌-◌, ◌*◌, ◌^◌, ◌≡◌, refl, String, Bool, true, some, none, List, [], ◌∷◌, ◌++◌, codes, leb,
  if◌then◌else◌, arith, map,
}
use ordermesh.Prelude.Int.{pos, ◌+ℤ◌}
use ordermesh.Prelude.Decimal.{parse_int}
use ordermesh.Shared.Outcome.{Result, ok, raise, external, key_error}
use ordermesh.Shared.Auth.{Identity}
use ordermesh.Shared.Cache.{Client}
use ordermesh.Shared.Event.{Event, Item}
use ordermesh.Shared.Broker.{Message}
use ordermesh.Shared.Consumer.Delivery.{retried}
use ordermesh.Order.Decimal.{Decimal, plus, times, rounded}
use ordermesh.Order.Model.{Order, OrderCreate, pending, shipped, accepts}
use ordermesh.Order.Service.{total_of, item_rows}
use ordermesh.Order.Routes.{caller_id}
use ordermesh.Inventory.Service.{wanted_of, available}
use ordermesh.Inventory.Consumers as InventoryConsumers
use ordermesh.System.Rabbit.{
  Queue, order_events, inventory_events, shipping_events, notification_events, Net, bound, mem_key,
}
use ordermesh.System.Truth.{IsTrue}
use ordermesh.System.Invariant.{IsConsistent, run-IsConsistent}
use ordermesh.System.FanOut.{retry_fans_out}
use ordermesh.System.Life.Stage.{IsRound, all_of}
use ordermesh.System.Life.Serve.{taken}
use ordermesh.System.Life.Fulfilled.{IsFulfilled, Places, IsCalm, create_order-IsFulfilled}
use ordermesh.System.{
  System, Env, Action, create_order, cancel_order, step, deliver, disturb, run, consume, platform,
  inventory_host,
}

-- A cache that keeps nothing.
abbrev pub forgetful : {V : Type 0} → Client (Unit {0}) V
forgetful = record {
  get = λ key c. (ok none, c);
  set = λ key value ttl c. (ok tt, c);
  delete = λ keys c. (ok tt, c);
}

abbrev pub to_cents : Decimal → Result ℕ
to_cents d = if leb d.scale 2 then ok (d.coefficient * 10 ^ (2 - d.scale)) else raise external

abbrev pub env : Env (Unit {0}) Event
env = record {
  order_redis = forgetful;
  inventory_redis = forgetful;
  shipping_redis = forgetful;
  cache_ttl = 300;
  model_dump_json = λ event. event;
  validate = λ body. ok body;
  now = λ net. codes "2024-01-01T00:00:00+00:00";
  year = λ net. 2024;
  draw = λ net. 3;
  numeric = to_cents;
  dumps = λ payload. codes "{}";
  str_of_list = λ value. codes "[]";
}

abbrev pub start : System (Unit {0}) Event
start = record {
  order_db = record { orders = []; order_seq = 1 };
  order_cache = tt;
  inventory_db = record {
    products = record { id = 1; sku = "W"; name = "widget"; quantity_available = pos 5 } ∷ [];
    reservations = [];
    product_seq = 2;
    reservation_seq = 1;
  };
  inventory_cache = tt;
  shipping_db = record { shipments = []; shipment_seq = 1 };
  shipping_cache = tt;
  notification_db = record { notifications = []; notification_seq = 1 };
  net = record { queues = λ q. []; unacked = λ q. []; dead = λ q. []; faults = [] };
}

abbrev two_widgets : OrderCreate
two_widgets =
    record { product_id = 1; quantity = 2; price = record { coefficient = 1999; scale = 2 } } ∷ []

abbrev pub customer : Identity
customer = record { user_id = codes "10"; role = "CUSTOMER" }

start-IsConsistent : IsConsistent env start
start-IsConsistent = record {
  rows = record {
    inventory = record {
      no_oversell = λ id n e. ground arith;
      held = tt;
      product_keys = omega arith;
      reservation_keys = tt;
      skus = (tt, tt);
    };
    shipping = record { keys = tt; orders = tt; numbers = tt; numbered = tt };
    reservations = tt;
    shipments = tt;
    shipped_sent = tt;
  };
  truth = record { queued = λ q. tt; unacked = λ q. tt };
}

-- An order whose event is lost, and one that is filled.
abbrev busy : List Action
busy =
    disturb (true ∷ [])
    ∷ create_order two_widgets customer "r1"
    ∷ create_order two_widgets customer "r2"
    ∷ deliver inventory_events
    ∷ deliver shipping_events
    ∷ deliver order_events
    ∷ deliver order_events
    ∷ []

run-IsConsistent_example : IsConsistent env (run env busy start)
run-IsConsistent_example = run-IsConsistent env (λ e. refl) busy start start-IsConsistent

abbrev the_order : Order
the_order = record {
  id = 1;
  customer_id = 10;
  total_amount = 3998;
  status = pending;
  items = record { product_id = 1; quantity = 2; price = 1999 } ∷ [];
}

abbrev pub backwards : List Queue
backwards = order_events ∷ notification_events ∷ shipping_events ∷ inventory_events ∷ []

abbrev four_rounds : List (List Queue)
four_rounds = backwards ∷ backwards ∷ backwards ∷ backwards ∷ []

pub backwards-IsRound : IsRound backwards
backwards-IsRound = record { inventory = refl; shipping = refl; order = refl }

placed : Places env two_widgets customer start the_order
unfolding accepts total_of item_rows parse_int plus times rounded
placed = record { accepted = refl; caller = refl; total = refl; rows = refl; row = refl }

create_order-IsFulfilled_example :
    IsFulfilled the_order start.inventory_db
      (run env (create_order two_widgets customer "r1" ∷ map deliver (all_of four_rounds)) start)
unfolding wanted_of available ◌+ℤ◌
create_order-IsFulfilled_example =
    create_order-IsFulfilled env two_widgets customer "r1" start the_order placed
      (record { empty = λ q. refl; calm = refl }) (λ e. refl) refl refl refl four_rounds
      (backwards-IsRound, (backwards-IsRound, (backwards-IsRound, (backwards-IsRound, tt))))
      (omega arith)

-- An event without an order id, which the inventory's handler refuses.
abbrev broken : Message Event
broken = record {
  body = record { event_type = "OrderCreated"; timestamp = []; request_id = none; payload = [] };
  routing_key = "OrderCreated";
  headers = [];
}

retry_fans_out_example :
    (consume env inventory_events
        (InventoryConsumers.handlers (platform env forgetful))
        broken
        (inventory_host start)).net.queues
      notification_events
    ≡ retried broken 1 ∷ []
unfolding InventoryConsumers.handlers InventoryConsumers.on_order_created
retry_fans_out_example =
    retry_fans_out env inventory_events (InventoryConsumers.handlers (platform env forgetful))
      broken (inventory_host start) 0 broken.body
      (InventoryConsumers.on_order_created (platform env forgetful))
      (taken env inventory_events (InventoryConsumers.handlers (platform env forgetful)) broken
        (inventory_host start))
      (key_error "order_id") refl refl refl refl (omega arith) refl notification_events
