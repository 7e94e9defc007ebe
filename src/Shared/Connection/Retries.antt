-- ===== src/Shared/Connection/Retries.antt =====
-- How `Broker.connect` ends.
use ordermesh.Prelude.{ℕ, zero, suc, ◌<◌, ◌≡◌, refl, sym, subst, ap, Option, none, some, arith}
use ordermesh.Shared.Outcome.{Result, ok, raise, Error}
use ordermesh.Shared.Connection.{
  Amqp, Links, Connecting, connect_once, or_retry, rounds, connect, dlx_declared, exchange_declared,
  qos_set, channel_open, connection_open,
}

module _ {Conn Chan Exch W : Type 0} (amqp : Amqp Conn Chan Exch W) where
  -- What `publish` and `Consumer.start` ask for.
  pub record IsConnected (l : Links Conn Chan Exch) : Type 0 where
    pub conn : Conn
    pub chan : Chan
    pub main : Exch
    pub dead : Exch
    pub connection : l.connection ≡ some conn
    pub channel : l.channel ≡ some chan
    pub exchange : l.exchange ≡ some main
    pub dlx : l.dlx ≡ some dead

  -- So many rounds that failed, with a sleep after each.
  pub data Failing : ℕ → Connecting amqp → Connecting amqp → Type 0 where
    none_yet : {s : Connecting amqp} → Failing 0 s s
    one_more :
        {k : ℕ} {s t : Connecting amqp} (l : Links Conn Chan Exch) (w : W) (e : Error)
        → connect_once amqp s ≡ (raise e, (l, w))
        → Failing k (l, amqp.sleep w) t
        → Failing (suc k) s t

  pub data Ending (retries : ℕ) (s : Connecting amqp)
      (outcome : Result (Unit {0}) × Connecting amqp) : Type 0 where
    connected :
        (k : ℕ) (t : Connecting amqp)
        → k < retries
        → Failing k s t
        → outcome ≡ connect_once amqp t
        → outcome.0 ≡ ok tt
        → IsConnected outcome.1.0
        → Ending retries s outcome
    exhausted :
        (x : Error) (t : Connecting amqp)
        → Failing retries s t
        → outcome ≡ (raise x, t)
        → Ending retries s outcome

  dlx_declared-IsConnected :
      (l : Links Conn Chan Exch) (c : Conn) (ch : Chan) (x : Exch)
      → l.connection ≡ some c
      → l.channel ≡ some ch
      → l.exchange ≡ some x
      → (o : Result Exch × W) → (dlx_declared amqp o l).0 ≡ ok tt
      → IsConnected (dlx_declared amqp o l).1.0
  dlx_declared-IsConnected l c ch x hc hch hx (raise e, w) h = cc
  dlx_declared-IsConnected l c ch x hc hch hx (ok d, w) h = record {
    conn = c;
    chan = ch;
    main = x;
    dead = d;
    connection = hc;
    channel = hch;
    exchange = hx;
    dlx = refl;
  }

  exchange_declared-IsConnected :
      (l : Links Conn Chan Exch) (c : Conn) (ch : Chan)
      → l.connection ≡ some c
      → l.channel ≡ some ch
      → (o : Result Exch × W) → (exchange_declared amqp ch o l).0 ≡ ok tt
      → IsConnected (exchange_declared amqp ch o l).1.0
  exchange_declared-IsConnected l c ch hc hch (raise e, w) h = cc
  exchange_declared-IsConnected l c ch hc hch (ok x, w) h =
      dlx_declared-IsConnected (record l { exchange = some x }) c ch x hc hch refl
        (amqp.declare_exchange ch "logistics.dlx" w) h

  qos_set-IsConnected :
      (l : Links Conn Chan Exch) (c : Conn) (ch : Chan)
      → l.connection ≡ some c
      → l.channel ≡ some ch
      → (o : Result (Unit {0}) × W) → (qos_set amqp ch o l).0 ≡ ok tt
      → IsConnected (qos_set amqp ch o l).1.0
  qos_set-IsConnected l c ch hc hch (raise e, w) h = cc
  qos_set-IsConnected l c ch hc hch (ok _, w) h =
      exchange_declared-IsConnected l c ch hc hch (amqp.declare_exchange ch "logistics.events" w) h

  channel_open-IsConnected :
      (l : Links Conn Chan Exch) (c : Conn)
      → l.connection ≡ some c
      → (o : Result Chan × W) → (channel_open amqp o l).0 ≡ ok tt
      → IsConnected (channel_open amqp o l).1.0
  channel_open-IsConnected l c hc (raise e, w) h = cc
  channel_open-IsConnected l c hc (ok ch, w) h =
      qos_set-IsConnected (record l { channel = some ch }) c ch hc refl (amqp.set_qos ch 10 w) h

  connection_open-IsConnected :
      (l : Links Conn Chan Exch) (o : Result Conn × W)
      → (connection_open amqp o l).0 ≡ ok tt
      → IsConnected (connection_open amqp o l).1.0
  connection_open-IsConnected l (raise e, w) h = cc
  connection_open-IsConnected l (ok c, w) h =
      channel_open-IsConnected (record l { connection = some c }) c refl (amqp.open_channel c w) h

  connect_once-IsConnected :
      (s : Connecting amqp)
      → (connect_once amqp s).0 ≡ ok tt
      → IsConnected (connect_once amqp s).1.0
  unfolding connect_once
  connect_once-IsConnected (l, w) h = connection_open-IsConnected l (amqp.connect_robust w) h

  after_failure :
      (n : ℕ) (s : Connecting amqp) (l : Links Conn Chan Exch) (w : W) (e : Error)
      (o : Result (Unit {0}) × Connecting amqp)
      → connect_once amqp s ≡ (raise e, (l, w))
      → Ending n (l, amqp.sleep w) o
      → Ending (suc n) s o
  after_failure n s l w e o failed (connected k t below before eq fine linked) =
      connected (suc k) t (omega arith) (one_more l w e failed before) eq fine linked
  after_failure n s l w e o failed (exhausted x t before eq) =
      exhausted x t (one_more l w e failed before) eq

  rounds_end :
      (retries : ℕ) (last_err : Option Error) (left : ℕ) (s : Connecting amqp)
      → Ending left s (rounds amqp retries last_err left s)
  unfolding rounds
  rounds_end retries last_err zero s = exhausted _ s none_yet refl
  rounds_end retries last_err (suc n) s =
      go (connect_once amqp s) refl (λ e t. rounds_end retries (some e) n t)
    where
      go :
          (o : Result (Unit {0}) × Connecting amqp)
          → connect_once amqp s ≡ o
          → ((e : Error) (t : Connecting amqp) → Ending n t (rounds amqp retries (some e) n t))
          → Ending (suc n) s (or_retry amqp o (λ e t. rounds amqp retries (some e) n t))
      go (raise e, (l, w)) failed ih = after_failure n s l w e _ failed (ih e (l, amqp.sleep w))
      go (ok _, t) done ih =
          connected 0 s (omega arith) none_yet (sym done) refl
            (subst (λ o. IsConnected o.1.0) done (connect_once-IsConnected s (ap (λ o. o.0) done)))

  -- `connect` makes at most `retries` rounds and sleeps after each one that fails. It ends with the
  -- first round that succeeds, and then the connection, the channel and both exchanges are set; or
  -- all rounds fail and it raises.
  pub connect_ends : (retries : ℕ) (s : Connecting amqp) → Ending retries s (connect amqp retries s)
  unfolding connect
  connect_ends retries s = rounds_end retries none retries s
