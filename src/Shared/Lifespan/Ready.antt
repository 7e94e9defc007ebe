-- ===== src/Shared/Lifespan/Ready.antt =====
-- What a service finds when its startup has returned.
use Prim.Native.String.{◌++◌ as cat}
use ordermesh.Prelude.{String, ◌≡◌, refl, sym, subst, some, List}
use ordermesh.Shared.Outcome.{Result, ok, raise}
use ordermesh.Shared.Connection.{Amqp, Connecting}
use ordermesh.Shared.Connection.Names.{IsNamed, connect-IsNamed}
use ordermesh.Shared.Consumer.{Handlers}
use ordermesh.Shared.Consumer.Start.{Topology, registered, start}
use ordermesh.Shared.Consumer.Start.Bound.{Fact, queue, IsServer, IsBound, start-IsBound}
use ordermesh.Shared.Lifespan.{boot, started, fresh_broker}

module _ {Conn Chan Exch Q W : Type 0} (amqp : Amqp Conn Chan Exch W)
    (topology : Topology Chan Exch Q W) (exchange_name : Exch → String) {name_of : Q → String}
    {Knows : W → Fact Exch → Type 0} (server : IsServer topology name_of Knows)
    (declares : (ch : Chan) (name : String) (w w' : W) (x : Exch)
      → amqp.declare_exchange ch name w ≡ (ok x, w')
      → exchange_name x ≡ name) where
  -- The broker is connected, and the consumer's queue is bound to the exchange of the events under
  -- these keys and listens. Its dead letters go to the exchange that the broker holds for them,
  -- under the key to which the dead-letter queue is bound there.
  pub record IsReady (queue_name : String) (keys : List String) (s : Connecting amqp) : Type 0 where
    pub broker : IsNamed amqp exchange_name declares s.0
    pub consumer : IsBound topology server broker.main broker.dead queue_name keys s.1
    pub dead_lettered : Knows s.1 (
        queue queue_name (
          some (record {
            exchange = exchange_name broker.dead;
            routing_key = cat queue_name ".dead";
          })))

  started-IsReady :
      {A : Type 0} (queue_name : String) (handlers : Handlers A)
      (o : Result (Unit {0}) × Connecting amqp)
      → (o.0 ≡ ok tt → IsNamed amqp exchange_name declares o.1.0)
      → (started amqp topology queue_name handlers o).0 ≡ ok tt
      → IsReady queue_name (registered handlers) (started amqp topology queue_name handlers o).1
  started-IsReady queue_name handlers (raise e, s) named h = absurd (cc)
  started-IsReady queue_name handlers (ok _, (broker, w)) named h =
      let n = named refl in
      let b =
        start-IsBound topology server broker n.chan n.main n.dead queue_name handlers w n.channel
          n.exchange n.dlx h in
      record {
        broker = n;
        consumer = b;
        dead_lettered =
            subst
              (λ x. Knows (start topology broker queue_name handlers w).1 (
                queue queue_name
                  (some (record { exchange = x; routing_key = cat queue_name ".dead" }))))
              (sym n.dead_name) b.declared;
      }

  pub boot-IsReady :
      {A : Type 0} (queue_name : String) (handlers : Handlers A) (w : W)
      → (boot amqp topology queue_name handlers w).0 ≡ ok tt
      → IsReady queue_name (registered handlers) (boot amqp topology queue_name handlers w).1
  unfolding boot
  boot-IsReady queue_name handlers w h =
      started-IsReady queue_name handlers _
        (connect-IsNamed amqp exchange_name declares 15 (fresh_broker amqp topology, w)) h
