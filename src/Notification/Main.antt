-- ===== src/Notification/Main.antt =====
-- services/notification/app/main.py and the queue of consumers.py.
use ordermesh.Prelude.{String, List, [], ◌∷◌}
use ordermesh.Shared.Outcome.{Result}
use ordermesh.Shared.Connection.{Amqp, Links}
use ordermesh.Shared.Consumer.Start.{Topology, awaiting}
use ordermesh.Shared.Lifespan.{boot, close}
use ordermesh.Prelude.{Text}
use ordermesh.Shared.Event.{Payload, Value}
use ordermesh.Notification.Consumers.{handlers}

-- `settings.service_name` and the name of the consumer's queue.
abbrev service_name : String
service_name = "notification"

abbrev pub queue_name : String
queue_name = "notification.events"

-- `lifespan` before its `yield`
unfoldable pub startup :
    {Conn Chan Exch Q W : Type 0}
    → (Payload → Text)
    → (Value → Text)
    → Amqp Conn Chan Exch W
    → Topology Chan Exch Q W
    → W
    → Result (Unit {0}) × (Links Conn Chan Exch × W)
unfolding boot handlers
startup dumps str_of_list amqp topology w =
    boot amqp topology queue_name (handlers dumps str_of_list) w

-- `lifespan` after its `yield`
unfoldable pub shutdown :
    {Conn Chan Exch W : Type 0}
    → (Conn → W → Result (Unit {0}) × W)
    → (W → Result (Unit {0}) × W)
    → Links Conn Chan Exch
    → W
    → Result (Unit {0}) × W
unfolding close
shutdown close_connection dispose broker w =
    awaiting (close close_connection broker.connection w) (λ _ w1. dispose w1)

-- `GET /health`
abbrev pub health : List (String × String)
health = ("status", "ok") ∷ ("service", service_name) ∷ []
