-- ===== src/Shared/Lifespan.antt =====
-- services/*/app/main.py: what the four services with a consumer do around their requests.
pub mod Ready
use ordermesh.Prelude.{String, Option, none, some, List, [], ◌∷◌}
use ordermesh.Shared.Outcome.{Result, ok, raise}
use ordermesh.Shared.Connection.{Amqp, Links, Connecting, connect}
use ordermesh.Shared.Consumer.{Handlers}
use ordermesh.Shared.Consumer.Start.{Topology, start, awaiting}

module _ {Conn Chan Exch Q W : Type 0} (amqp : Amqp Conn Chan Exch W)
    (topology : Topology Chan Exch Q W) where
  -- `Broker(settings.rabbitmq_url, settings.service_name)`
  abbrev pub fresh_broker : Links Conn Chan Exch
  fresh_broker = record { connection = none; channel = none; exchange = none; dlx = none }

  abbrev pub started :
      {A : Type 0}
      → String
      → Handlers A
      → Result (Unit {0}) × Connecting amqp
      → Result (Unit {0}) × Connecting amqp
  started queue_name handlers (raise e, s) = (raise e, s)
  started queue_name handlers (ok _, (broker, w)) =
      let (r, w') = start topology broker queue_name handlers w in (r, (broker, w'))

  -- `await broker.connect()` with its default of 15 tries, then `build_consumer(broker).start()`.
  unfoldable pub boot : {A : Type 0} → String → Handlers A → W → Result (Unit {0}) × Connecting amqp
  boot queue_name handlers w = started queue_name handlers (connect amqp 15 (fresh_broker, w))

-- `if self.connection is not None: await self.connection.close()`
unfoldable pub close :
    {Conn W : Type 0} → (Conn → W → Result (Unit {0}) × W) → Option Conn → W → Result (Unit {0}) × W
close close_connection none w = (ok tt, w)
close close_connection (some c) w = close_connection c w
