-- ===== src/Shared/Consumer/Start/Bound.antt =====
-- What a successful `Consumer.start` leaves at the server.
use Prim.Native.String.{◌++◌ as cat}
use ordermesh.Prelude.{
  String, ◌≡◌, refl, sym, ap, subst, Option, none, some, List, [], ◌∷◌, All, All-map,
}
use ordermesh.Shared.Outcome.{Result, ok, raise}
use ordermesh.Shared.Connection.{Links}
use ordermesh.Shared.Consumer.{Handlers}
use ordermesh.Shared.Consumer.Start.{
  DeadLetters, Topology, awaiting, dlq_name, dead_key, dead_letters, registered, bind_all, start_on,
  start,
}

-- A fact about the server: a queue with its arguments, a binding of a queue to an exchange under a
-- key, or a consumer on a queue.
pub data Fact (Exch : Type 0) : Type 0 where
  queue : String → Option DeadLetters → Fact Exch
  binding : String → Exch → String → Fact Exch
  consumer : String → Fact Exch

-- What RabbitMQ documents of the calls that return, `Knows w f` being that `f` is so at `w`: each
-- does what it says, and undoes nothing.
pub record IsServer {Chan Exch Q W : Type 0} (topology : Topology Chan Exch Q W)
    (name_of : Q → String) (Knows : W → Fact Exch → Type 0) : Type 0 where
  pub declared :
      (ch : Chan) (name : String) (args : Option DeadLetters) (w w' : W) (q : Q)
      → topology.declare_queue ch name args w ≡ (ok q, w')
      → (name_of q ≡ name) × Knows w' (queue name args) × ((f : Fact Exch) → Knows w f → Knows w' f)
  pub bound :
      (q : Q) (x : Exch) (key : String) (w w' : W)
      → topology.bind q x key w ≡ (ok tt, w')
      → Knows w' (binding (name_of q) x key) × ((f : Fact Exch) → Knows w f → Knows w' f)
  pub consuming :
      (q : Q) (w w' : W)
      → topology.consume q w ≡ (ok tt, w')
      → Knows w' (consumer (name_of q)) × ((f : Fact Exch) → Knows w f → Knows w' f)

awaiting-ok :
    {A W : Type 0} (m : Result A × W) (rest : A → W → Result (Unit {0}) × W) (w' : W)
    → awaiting m rest ≡ (ok tt, w')
    → (a : A) × (w : W) × (m ≡ (ok a, w)) × (rest a w ≡ (ok tt, w'))
awaiting-ok (ok a, w) rest w' e = (a, w, refl, e)
awaiting-ok (raise x, w) rest w' e = absurd (cc)

module _ {Chan Exch Q W : Type 0} (topology : Topology Chan Exch Q W) {name_of : Q → String}
    {Knows : W → Fact Exch → Type 0} (server : IsServer topology name_of Knows) where
  abbrev Keeps : W → W → Type 0
  Keeps w w' = (f : Fact Exch) → Knows w f → Knows w' f

  bind_all-bound :
      (q : Q) (x : Exch) (keys : List String) (w w' : W)
      → bind_all topology q x keys w ≡ (ok tt, w')
      → All (λ key. Knows w' (binding (name_of q) x key)) keys × Keeps w w'
  unfolding bind_all
  bind_all-bound q x [] w w' e = (tt, subst (Keeps w) (cc) (λ f k. k))
  bind_all-bound q x (key ∷ keys) w w' e =
      let (_, w1, bound, rest) =
        awaiting-ok (topology.bind q x key w) (λ _ v. bind_all topology q x keys v) w' e in
      let one = server.bound q x key w w1 bound in
      let more = bind_all-bound q x keys w1 w' rest in
      ((more.1 _ one.0, more.0), λ f k. more.1 f (one.1 f k))

  -- The consumer's queue with the exchange and the key of its dead letters, its dead-letter queue,
  -- the bindings of both, and that it listens.
  pub record IsBound (main dead : Exch) (queue_name : String) (keys : List String) (w : W)
      : Type 0 where
    pub declared : Knows w (
        queue queue_name
          (some (record { exchange = "logistics.dlx"; routing_key = cat queue_name ".dead" })))
    pub keyed : All (λ key. Knows w (binding queue_name main key)) keys
    pub listening : Knows w (consumer queue_name)
    pub dlq_declared : Knows w (queue (cat queue_name ".dlq") none)
    pub dlq_keyed : Knows w (binding (cat queue_name ".dlq") dead (cat queue_name ".dead"))

  start_on-IsBound :
      (ch : Chan) (main dead : Exch) (queue_name : String) (keys : List String) (w w' : W)
      → start_on topology (some ch) (some main) (some dead) queue_name keys w ≡ (ok tt, w')
      → IsBound main dead queue_name keys w'
  start_on-IsBound ch main dead queue_name keys w w' e =
      let (dlq, w1, e1, r1) =
        awaiting-ok (topology.declare_queue ch (dlq_name queue_name) none w) _ w' e in
      let (_, w2, e2, r2) = awaiting-ok (topology.bind dlq dead (dead_key queue_name) w1) _ w' r1 in
      let (q, w3, e3, r3) =
        awaiting-ok (topology.declare_queue ch queue_name (some (dead_letters queue_name)) w2) _ w'
          r2 in
      let (_, w4, e4, r4) = awaiting-ok (bind_all topology q main keys w3) _ w' r3 in
      let d1 = server.declared ch (dlq_name queue_name) none w w1 dlq e1 in
      let d2 = server.bound dlq dead (dead_key queue_name) w1 w2 e2 in
      let d3 = server.declared ch queue_name (some (dead_letters queue_name)) w2 w3 q e3 in
      let d4 = bind_all-bound q main keys w3 w4 e4 in
      let d5 = server.consuming q w4 w' r4 in
      let late : Keeps w3 w' = λ f k. d5.1 f (d4.1 f k) in
      record {
        declared = late _ d3.1;
        keyed =
            All-map (λ key k. d5.1 _ (subst (λ n. Knows w4 (binding n main key)) d3.0 k)) keys d4.0;
        listening = subst (λ n. Knows w' (consumer n)) d3.0 d5.0;
        dlq_declared = late _ (d3.2 _ (d2.1 _ d1.1));
        dlq_keyed =
            late _
              (d3.2 _ (subst (λ n. Knows w2 (binding n dead (dead_key queue_name))) d1.0 d2.0));
      }

  on_links :
      (c : Option Chan) (x d : Option Exch) (ch : Chan) (main dead : Exch) (queue_name : String)
      (keys : List String) (w : W)
      → c ≡ some ch
      → x ≡ some main
      → d ≡ some dead
      → (start_on topology c x d queue_name keys w).0 ≡ ok tt
      → IsBound main dead queue_name keys (start_on topology c x d queue_name keys w).1
  on_links c x d ch main dead queue_name keys w hc hx hd h =
      subst
        (λ c'.
          (start_on topology c' x d queue_name keys w).0 ≡ ok tt
          → IsBound main dead queue_name keys (start_on topology c' x d queue_name keys w).1)
        (sym hc)
        (subst
          (λ x'.
            (start_on topology (some ch) x' d queue_name keys w).0 ≡ ok tt
            → IsBound main dead queue_name keys
                (start_on topology (some ch) x' d queue_name keys w).1)
          (sym hx)
          (subst
            (λ d'.
              (start_on topology (some ch) (some main) d' queue_name keys w).0 ≡ ok tt
              → IsBound main dead queue_name keys
                  (start_on topology (some ch) (some main) d' queue_name keys w).1)
            (sym hd)
            (λ h'.
              start_on-IsBound ch main dead queue_name keys w
                (start_on topology (some ch) (some main) (some dead) queue_name keys w).1
                (ap
                  (λ r.
                    (r, (start_on topology (some ch) (some main) (some dead) queue_name keys w).1))
                  h'))))
        h

  pub start-IsBound :
      {Conn A : Type 0} (l : Links Conn Chan Exch) (ch : Chan) (main dead : Exch)
      (queue_name : String) (handlers : Handlers A) (w : W)
      → l.channel ≡ some ch
      → l.exchange ≡ some main
      → l.dlx ≡ some dead
      → (start topology l queue_name handlers w).0 ≡ ok tt
      → IsBound main dead queue_name
          (registered handlers)
          (start topology l queue_name handlers w).1
  unfolding start
  start-IsBound l ch main dead queue_name handlers w hc hx hd h =
      on_links l.channel l.exchange l.dlx ch main dead queue_name (registered handlers) w hc hx hd h
