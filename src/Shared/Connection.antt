-- ===== src/Shared/Connection.antt =====
-- shared/shared/events/broker.py, `Broker.connect`. The calls of aio-pika are parameters; each may
-- raise, and `W` is the world.
pub mod Retries
pub mod Names
mod Tests
use ordermesh.Prelude.{
  ℕ, zero, suc, String, Bool, true, false, Option, none, some, List, [], ◌∷◌, map,
}
use ordermesh.Shared.Outcome.{Result, ok, raise, Error, unreachable, unreachable_untried}

pub record Amqp (Conn Chan Exch W : Type 0) : Type 0 where
  pub connect_robust : W → Result Conn × W
  pub open_channel : Conn → W → Result Chan × W
  pub set_qos : Chan → ℕ → W → Result (Unit {0}) × W
  pub declare_exchange : Chan → String → W → Result Exch × W
  pub sleep : W → W

-- The fields of `Broker`.
pub record Links (Conn Chan Exch : Type 0) : Type 0 where
  pub connection : Option Conn
  pub channel : Option Chan
  pub exchange : Option Exch
  pub dlx : Option Exch

module _ {Conn Chan Exch W : Type 0} (amqp : Amqp Conn Chan Exch W) where
  -- The broker's fields and the world.
  abbrev pub Connecting : Type 0
  Connecting = Links Conn Chan Exch × W

  abbrev dlx_declared : Result Exch × W → Links Conn Chan Exch → Result (Unit {0}) × Connecting
  dlx_declared (raise e, w) l = (raise e, (l, w))
  dlx_declared (ok dlx, w) l = (ok tt, (record l { dlx = some dlx }, w))

  abbrev exchange_declared :
      Chan → Result Exch × W → Links Conn Chan Exch → Result (Unit {0}) × Connecting
  exchange_declared ch (raise e, w) l = (raise e, (l, w))
  exchange_declared ch (ok exchange, w) l =
      dlx_declared (amqp.declare_exchange ch "logistics.dlx" w)
        (record l { exchange = some exchange })

  abbrev qos_set :
      Chan → Result (Unit {0}) × W → Links Conn Chan Exch → Result (Unit {0}) × Connecting
  qos_set ch (raise e, w) l = (raise e, (l, w))
  qos_set ch (ok _, w) l = exchange_declared ch (amqp.declare_exchange ch "logistics.events" w) l

  abbrev channel_open : Result Chan × W → Links Conn Chan Exch → Result (Unit {0}) × Connecting
  channel_open (raise e, w) l = (raise e, (l, w))
  channel_open (ok ch, w) l = qos_set ch (amqp.set_qos ch 10 w) (record l { channel = some ch })

  abbrev connection_open : Result Conn × W → Links Conn Chan Exch → Result (Unit {0}) × Connecting
  connection_open (raise e, w) l = (raise e, (l, w))
  connection_open (ok conn, w) l =
      channel_open (amqp.open_channel conn w) (record l { connection = some conn })

  -- The `try` block of one round.
  unfoldable pub connect_once : Connecting → Result (Unit {0}) × Connecting
  connect_once (l, w) = connection_open (amqp.connect_robust w) l

  abbrev pub or_retry :
      Result (Unit {0}) × Connecting
      → (Error → Connecting → Result (Unit {0}) × Connecting)
      → Result (Unit {0}) × Connecting
  or_retry (ok _, s) again = (ok tt, s)
  or_retry (raise e, (l, w)) again = again e (l, amqp.sleep w)

  abbrev not_connected : ℕ → Option Error → Error
  not_connected retries none = unreachable_untried
  not_connected retries (some last_err) = unreachable retries last_err

  -- The loop, with so many rounds left of `retries`; `last_err` is that of the round before.
  unfoldable pub rounds : ℕ → Option Error → ℕ → Connecting → Result (Unit {0}) × Connecting
  unfolding connect_once
  rounds retries last_err zero s = (raise (not_connected retries last_err), s)
  rounds retries last_err (suc left) s =
      or_retry (connect_once s) (λ e s'. rounds retries (some e) left s')

  unfoldable pub connect : ℕ → Connecting → Result (Unit {0}) × Connecting
  unfolding rounds
  connect retries s = rounds retries none retries s
