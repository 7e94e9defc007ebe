-- ===== src/Shared/Broker.antt =====
-- shared/shared/events/broker.py and the `bus.py` of each service. The AMQP client is outside the
-- repository: its exchange is a function that takes a message, and may raise.
use ordermesh.Prelude.{ℕ, String, Option, none, some, List, [], ◌∷◌}
use ordermesh.Shared.Outcome.{Result, ok, raise, runtime}
use ordermesh.Shared.Event.{Event}

-- A header's value: a whole number from 0, a text, or `malformed`, which `int()` refuses.
pub data Header : Type 0 where
  number : ℕ → Header
  label : String → Header
  malformed : Header

pub record Message (Body : Type 0) : Type 0 where
  pub body : Body
  pub routing_key : String
  pub headers : List (String × Header)

-- The connection's exchange, `X` being the state of the RabbitMQ server.
abbrev pub Exchange : Type 0 → Type 0 → Type 0
Exchange Body X = Message Body → X → Result (Unit {0}) × X

-- `exchange` is none until `connect` has declared it.
pub record Broker (Body X : Type 0) : Type 0 where
  pub exchange : Option (Exchange Body X)

-- `bus.get_broker()`
abbrev pub get_broker : {B : Type 0} → Option B → Result B
get_broker none = raise (runtime "Broker not initialised")
get_broker (some b) = ok b

abbrev pub to_message : {Body : Type 0} → (Event → Body) → Event → Message Body
to_message model_dump_json event = record {
  body = model_dump_json event;
  routing_key = event.event_type;
  headers = ("x-event-type", label event.event_type) ∷ [];
}

module _ {Body X : Type 0} (model_dump_json : Event → Body) where
  abbrev send : Option (Exchange Body X) → Event → X → Result (Unit {0}) × X
  send none event x = (raise (runtime "Broker is not connected"), x)
  send (some exchange) event x = exchange (to_message model_dump_json event) x

  unfoldable pub publish : Broker Body X → Event → X → Result (Unit {0}) × X
  publish broker event x = send broker.exchange event x

  abbrev via : Result (Broker Body X) → Event → X → Result (Unit {0}) × X
  via (ok broker) event x = publish broker event x
  via (raise e) event x = (raise e, x)

  -- `await bus.get_broker().publish(event)`
  unfoldable pub publish_on_bus : Option (Broker Body X) → Event → X → Result (Unit {0}) × X
  unfolding publish
  publish_on_bus bus event x = via (get_broker bus) event x
