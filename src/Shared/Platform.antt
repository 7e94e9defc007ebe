-- ===== src/Shared/Platform.antt =====
-- What a service holds beside its own tables: its Redis client, its bus and the clock, and the
-- state that a request or an event works on.
use ordermesh.Prelude.{ℕ, String, Option, Text}
use ordermesh.Shared.Outcome.{Result}
use ordermesh.Shared.Event.{Event, EventType, Payload, create}
use ordermesh.Shared.Broker.{Broker, publish_on_bus}
use ordermesh.Shared.Cache.{Client}

-- `V` is the value that the service caches, `C` and `X` are the states of Redis and of the world
-- behind the exchange, `Body` is a serialized event.
pub record Platform (V C X Body : Type 0) : Type 0 where
  pub redis : Client C V
  pub cache_ttl : ℕ
  pub bus : Option (Broker Body X)
  pub model_dump_json : Event → Body
  pub now : X → Text

-- The tables `D` of the service's database, the Redis server and the world behind the exchange.
pub record Host (D C X : Type 0) : Type 0 where
  pub db : D
  pub cache : C
  pub net : X

module _ {V C X Body : Type 0} (platform : Platform V C X Body) where
  -- `await bus.get_broker().publish(Event.create(…))`, in a context with this request id.
  unfoldable pub emit : EventType → Payload → String → X → Result (Unit {0}) × X
  emit event_type payload request_id x =
      publish_on_bus platform.model_dump_json platform.bus
        (create event_type payload request_id (platform.now x)) x

  -- The same, by a handler that works on the service's whole state.
  unfoldable pub publish_event :
      {D : Type 0} → EventType → Payload → String → Host D C X → Result (Unit {0}) × Host D C X
  unfolding emit
  publish_event event_type payload request_id h =
      let (r, x) = emit event_type payload request_id h.net in (r, record h { net = x })
