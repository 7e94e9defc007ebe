-- ===== src/Shared/Consumer/Start.antt =====
-- shared/shared/events/consumer.py, `Consumer.start`: the queues and bindings of a consumer. The
-- calls of aio-pika are parameters, and each may raise.
pub mod Bound
use Prim.Native.String.{◌++◌ as cat}
use ordermesh.Prelude.{String, Option, none, some, List, [], ◌∷◌, map}
use ordermesh.Shared.Outcome.{Result, ok, raise, runtime}
use ordermesh.Shared.Connection.{Links}
use ordermesh.Shared.Consumer.{Handlers}

-- The dead-letter exchange and routing key among the arguments of a queue.
pub record DeadLetters : Type 0 where
  pub exchange : String
  pub routing_key : String

pub record Topology (Chan Exch Q W : Type 0) : Type 0 where
  pub declare_queue : Chan → String → Option DeadLetters → W → Result Q × W
  pub bind : Q → Exch → String → W → Result (Unit {0}) × W
  pub consume : Q → W → Result (Unit {0}) × W

-- `await …`, and what comes after it.
abbrev pub awaiting :
    {A W : Type 0} → Result A × W → (A → W → Result (Unit {0}) × W) → Result (Unit {0}) × W
awaiting (ok a, w) rest = rest a w
awaiting (raise e, w) rest = (raise e, w)

-- `f"{self.queue_name}.dlq"` and `f"{self.queue_name}.dead"`
abbrev pub dlq_name : String → String
dlq_name queue_name = cat queue_name ".dlq"

abbrev pub dead_key : String → String
dead_key queue_name = cat queue_name ".dead"

abbrev pub dead_letters : String → DeadLetters
dead_letters queue_name = record { exchange = "logistics.dlx"; routing_key = dead_key queue_name }

-- `for event_type in self.handlers:`
abbrev pub registered : {W : Type 0} → Handlers W → List String
registered [] = []
registered ((key, h) ∷ hs) = key ∷ registered hs

module _ {Chan Exch Q W : Type 0} (topology : Topology Chan Exch Q W) where
  unfoldable pub bind_all : Q → Exch → List String → W → Result (Unit {0}) × W
  bind_all queue exchange [] w = (ok tt, w)
  bind_all queue exchange (key ∷ keys) w =
      awaiting (topology.bind queue exchange key w) (λ _ w'. bind_all queue exchange keys w')

  abbrev pub start_queue : Chan → Exch → String → List String → W → Result (Unit {0}) × W
  start_queue channel exchange queue_name keys w =
      awaiting (topology.declare_queue channel queue_name (some (dead_letters queue_name)) w)
        (λ queue w1. awaiting (bind_all queue exchange keys w1) (λ _ w2. topology.consume queue w2))

  abbrev pub start_on :
      Option Chan → Option Exch → Option Exch → String → List String → W → Result (Unit {0}) × W
  start_on none exchange dlx queue_name keys w = (raise (runtime "Broker is not connected"), w)
  start_on (some channel) none dlx queue_name keys w =
      (raise (runtime "Broker is not connected"), w)
  start_on (some channel) (some exchange) none queue_name keys w =
      (raise (runtime "Broker is not connected"), w)
  start_on (some channel) (some exchange) (some dlx) queue_name keys w =
      awaiting (topology.declare_queue channel (dlq_name queue_name) none w) (λ dlq w1.
        awaiting (topology.bind dlq dlx (dead_key queue_name) w1)
          (λ _ w2. start_queue channel exchange queue_name keys w2))

  unfoldable pub start :
      {Conn A : Type 0} → Links Conn Chan Exch → String → Handlers A → W → Result (Unit {0}) × W
  start broker queue_name handlers w =
      start_on broker.channel broker.exchange broker.dlx queue_name (registered handlers) w
