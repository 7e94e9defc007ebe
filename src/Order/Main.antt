-- ===== src/Order/Main.antt =====
-- services/order/app/main.py and the queue of consumers.py.
use ordermesh.Prelude.{String, List, [], ◌∷◌}
use ordermesh.Shared.Outcome.{Result}
use ordermesh.Shared.Connection.{Amqp, Links}
use ordermesh.Shared.Consumer.Start.{Topology, awaiting}
use ordermesh.Shared.Lifespan.{boot, close}
use ordermesh.Shared.Platform.{Platform}
use ordermesh.Order.Model.{OrderOut}
use ordermesh.Order.Consumers.{handlers}

-- `settings.service_name` and the name of the consumer's queue.
abbrev service_name : String
service_name = "order"

abbrev pub queue_name : String
queue_name = "order.events"

-- `lifespan` before its `yield`
unfoldable pub startup :
    {C X Body Conn Chan Exch Q W : Type 0}
    → Platform OrderOut C X Body
    → Amqp Conn Chan Exch W
    → Topology Chan Exch Q W
    → W
    → Result (Unit {0}) × (Links Conn Chan Exch × W)
unfolding boot handlers
startup platform amqp topology w = boot amqp topology queue_name (handlers platform) w

-- `lifespan` after its `yield`
unfoldable pub shutdown :
    {Conn Chan Exch W : Type 0}
    → (Conn → W → Result (Unit {0}) × W)
    → (W → Result (Unit {0}) × W)
    → (W → Result (Unit {0}) × W)
    → Links Conn Chan Exch
    → W
    → Result (Unit {0}) × W
unfolding close
shutdown close_connection close_cache dispose broker w =
    awaiting (close close_connection broker.connection w)
      (λ _ w1. awaiting (close_cache w1) (λ _ w2. dispose w2))

-- `GET /health`
abbrev pub health : List (String × String)
health = ("status", "ok") ∷ ("service", service_name) ∷ []
