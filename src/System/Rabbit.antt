-- ===== src/System/Rabbit.antt =====
-- RabbitMQ between the services: a message that is published goes to the end of every queue that
-- is bound to its routing key.
use text.Mathlib.Text.{◌==◌ as str_eq}
use ordermesh.Prelude.{String, Bool, true, false, ◌||◌, List, [], ◌∷◌, ◌++◌, if◌then◌else◌}
use ordermesh.Shared.Outcome.{Result, ok, raise, external}
use ordermesh.Shared.Broker.{Message, Exchange}
use ordermesh.Shared.Consumer.{Channel}
use ordermesh.Shared.Platform.{Host}

pub data Queue : Type 0 where
  order_events inventory_events shipping_events notification_events : Queue

abbrev pub same_queue : Queue → Queue → Bool
same_queue order_events order_events = true
same_queue inventory_events inventory_events = true
same_queue shipping_events shipping_events = true
same_queue notification_events notification_events = true
same_queue _ _ = false

-- The keys under which the consumers register their handlers, in that order.
abbrev pub bound : Queue → List String
bound order_events = "StockReserved" ∷ "StockUnavailable" ∷ "ShipmentCreated" ∷ []
bound inventory_events = "OrderCreated" ∷ "OrderCancelled" ∷ []
bound shipping_events = "StockReserved" ∷ []
bound notification_events =
    "OrderCreated" ∷ "StockReserved" ∷ "ShipmentCreated" ∷ "ShipmentDelivered" ∷ []

abbrev pub mem_key : String → List String → Bool
mem_key key [] = false
mem_key key (k ∷ ks) = str_eq k key || mem_key key ks

-- `unacked` are the messages of which a delivery ended with neither an answer nor a copy. `faults`
-- says of the next calls of `publish` whether they raise; after its end none does.
pub record Net (Body : Type 0) : Type 0 where
  pub queues : Queue → List (Message Body)
  pub unacked : Queue → List (Message Body)
  pub dead : Queue → List (Message Body)
  pub faults : List Bool

module _ {Body : Type 0} where
  abbrev pub at :
      Queue
      → (Message Body → List (Message Body) → List (Message Body))
      → Message Body
      → (Queue → List (Message Body))
      → Queue
      → List (Message Body)
  at q f m queues q' = if same_queue q q' then f m (queues q') else queues q'

  abbrev pub last : Message Body → List (Message Body) → List (Message Body)
  last m ms = ms ++ m ∷ []

  abbrev pub routed : Message Body → (Queue → List (Message Body)) → Queue → List (Message Body)
  routed m queues q = if mem_key m.routing_key (bound q) then queues q ++ m ∷ [] else queues q

  abbrev pub published : List Bool → Message Body → Net Body → Result (Unit {0}) × Net Body
  published [] m n = (ok tt, record n { queues = routed m n.queues })
  published (true ∷ fs) m n = (raise external, record n { faults = fs })
  published (false ∷ fs) m n = (ok tt, record n { queues = routed m n.queues; faults = fs })

  unfoldable pub exchange : Exchange Body (Net Body)
  exchange m n = published n.faults m n

  -- The channel of the consumer on the queue: the message that it works on has left the queue.
  abbrev pub channel : {D C : Type 0} → Queue → Channel Body (Host D C (Net Body))
  channel q = record {
    ack = λ m h. (ok tt, h);
    reject = λ m h. (ok tt, record h { net = record h.net { dead = at q last m h.net.dead } });
    sleep = λ seconds h. h;
    publish = λ m h. let (r, n) = exchange m h.net in (r, record h { net = n });
  }

  abbrev pub rest_of : Message Body → List (Message Body) → List (Message Body)
  rest_of m [] = []
  rest_of m (x ∷ xs) = xs

  -- The queue without its first message.
  abbrev pub without : Queue → Message Body → Net Body → Net Body
  without q m n = record n { queues = at q rest_of m n.queues }

  -- After a delivery: if the callback raised, the message stays with the channel.
  abbrev pub settle : Queue → Message Body → Result (Unit {0}) → Net Body → Net Body
  settle q m (ok _) n = n
  settle q m (raise e) n = record n { unacked = at q last m n.unacked }

  -- The first of the unacknowledged messages goes back to the front of its queue.
  abbrev pub requeue : Queue → List (Message Body) → Net Body → Net Body
  requeue q [] n = n
  requeue q (m ∷ ms) n = record n {
    queues = at q (λ x xs. x ∷ xs) m n.queues;
    unacked = at q rest_of m n.unacked;
  }
