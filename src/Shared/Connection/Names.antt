-- ===== src/Shared/Connection/Names.antt =====
-- Which exchanges a successful `Broker.connect` has declared.
use ordermesh.Prelude.{ℕ, String, ◌≡◌, refl, sym, subst, ap, some, ◌∙◌}
use ordermesh.Shared.Outcome.{Result, ok, raise}
use ordermesh.Shared.Connection.{
  Amqp, Links, Connecting, connect_once, connect, dlx_declared, exchange_declared, qos_set,
  channel_open, connection_open,
}
use ordermesh.Shared.Connection.Retries.{Ending, connected, exhausted, connect_ends}

module _ {Conn Chan Exch W : Type 0} (amqp : Amqp Conn Chan Exch W) (name_of : Exch → String)
    (declares : (ch : Chan) (name : String) (w w' : W) (x : Exch)
      → amqp.declare_exchange ch name w ≡ (ok x, w')
      → name_of x ≡ name) where
  -- The channel, the topic exchange of the events and the dead-letter exchange.
  pub record IsNamed (l : Links Conn Chan Exch) : Type 0 where
    pub chan : Chan
    pub main : Exch
    pub dead : Exch
    pub channel : l.channel ≡ some chan
    pub exchange : l.exchange ≡ some main
    pub dlx : l.dlx ≡ some dead
    pub main_name : name_of main ≡ "logistics.events"
    pub dead_name : name_of dead ≡ "logistics.dlx"

  dlx_declared-IsNamed :
      (l : Links Conn Chan Exch) (ch : Chan) (x : Exch) (w : W)
      → l.channel ≡ some ch
      → l.exchange ≡ some x
      → name_of x ≡ "logistics.events"
      → (o : Result Exch × W) → amqp.declare_exchange ch "logistics.dlx" w ≡ o
      → (dlx_declared amqp o l).0 ≡ ok tt
      → IsNamed (dlx_declared amqp o l).1.0
  dlx_declared-IsNamed l ch x w hch hx named (raise e, w') eq h = absurd (cc)
  dlx_declared-IsNamed l ch x w hch hx named (ok d, w') eq h = record {
    chan = ch;
    main = x;
    dead = d;
    channel = hch;
    exchange = hx;
    dlx = refl;
    main_name = named;
    dead_name = declares ch "logistics.dlx" w w' d eq;
  }

  exchange_declared-IsNamed :
      (l : Links Conn Chan Exch) (ch : Chan) (w : W)
      → l.channel ≡ some ch
      → (o : Result Exch × W) → amqp.declare_exchange ch "logistics.events" w ≡ o
      → (exchange_declared amqp ch o l).0 ≡ ok tt
      → IsNamed (exchange_declared amqp ch o l).1.0
  exchange_declared-IsNamed l ch w hch (raise e, w') eq h = absurd (cc)
  exchange_declared-IsNamed l ch w hch (ok x, w') eq h =
      dlx_declared-IsNamed (record l { exchange = some x }) ch x w' hch refl
        (declares ch "logistics.events" w w' x eq) _ refl h

  qos_set-IsNamed :
      (l : Links Conn Chan Exch) (ch : Chan)
      → l.channel ≡ some ch
      → (o : Result (Unit {0}) × W) → (qos_set amqp ch o l).0 ≡ ok tt
      → IsNamed (qos_set amqp ch o l).1.0
  qos_set-IsNamed l ch hch (raise e, w) h = absurd (cc)
  qos_set-IsNamed l ch hch (ok _, w) h = exchange_declared-IsNamed l ch w hch _ refl h

  channel_open-IsNamed :
      (l : Links Conn Chan Exch) (o : Result Chan × W)
      → (channel_open amqp o l).0 ≡ ok tt
      → IsNamed (channel_open amqp o l).1.0
  channel_open-IsNamed l (raise e, w) h = absurd (cc)
  channel_open-IsNamed l (ok ch, w) h =
      qos_set-IsNamed (record l { channel = some ch }) ch refl (amqp.set_qos ch 10 w) h

  connection_open-IsNamed :
      (l : Links Conn Chan Exch) (o : Result Conn × W)
      → (connection_open amqp o l).0 ≡ ok tt
      → IsNamed (connection_open amqp o l).1.0
  connection_open-IsNamed l (raise e, w) h = absurd (cc)
  connection_open-IsNamed l (ok c, w) h =
      channel_open-IsNamed (record l { connection = some c }) (amqp.open_channel c w) h

  connect_once-IsNamed :
      (s : Connecting amqp) → (connect_once amqp s).0 ≡ ok tt → IsNamed (connect_once amqp s).1.0
  unfolding connect_once
  connect_once-IsNamed (l, w) h = connection_open-IsNamed l (amqp.connect_robust w) h

  pub connect-IsNamed :
      (retries : ℕ) (s : Connecting amqp)
      → (connect amqp retries s).0 ≡ ok tt
      → IsNamed (connect amqp retries s).1.0
  connect-IsNamed retries s h = go (connect amqp retries s) (connect_ends amqp retries s) h
    where
      go :
          (o : Result (Unit {0}) × Connecting amqp)
          → Ending amqp retries s o
          → o.0 ≡ ok tt
          → IsNamed o.1.0
      go o (connected k t before failed eq fine linked) h' =
          subst (λ p. IsNamed p.1.0) (sym eq)
            (connect_once-IsNamed t (ap (λ p. p.0) (sym eq) ∙ fine))
      go o (exhausted x t failed eq) h' = absurd (cc (h', ap (λ p. p.0) eq))
