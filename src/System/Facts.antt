-- ===== src/System/Facts.antt =====
-- Predicates on every message that RabbitMQ holds, and what its operations do to them.
use ordermesh.Prelude.{
  ◌≡◌, Bool, true, false, List, [], ◌∷◌, inl, inr, Bool-cases, All, All-append, All-map,
}
use ordermesh.Shared.Outcome.{Result, ok, raise}
use ordermesh.Shared.Broker.{Message}
use ordermesh.System.Rabbit.{
  Queue, same_queue, bound, mem_key, Net, at, last, rest_of, routed, published, exchange, without,
  settle, requeue,
}

abbrev pub Boxes : Type 0 → Type 0
Boxes Body = Queue → List (Message Body)

module _ {Body : Type 0} (P : Message Body → Type 0) where
  abbrev pub AllIn : Boxes Body → Type 0
  AllIn boxes = (q : Queue) → All P (boxes q)

  at-AllIn :
      (q : Queue) (f : Message Body → List (Message Body) → List (Message Body)) (m : Message Body)
      (boxes : Boxes Body)
      → AllIn boxes
      → All P (f m (boxes q))
      → ((q' : Queue) → same_queue q q' ≡ true → All P (f m (boxes q')))
      → AllIn (at q f m boxes)
  at-AllIn q f m boxes h here there q' = elim (Bool-cases (same_queue q q')) [
    | inl e ↦ rw e (there q' e)
    | inr e ↦ rw e (h q')
  ]

  rest_of-All : (m : Message Body) (ms : List (Message Body)) → All P ms → All P (rest_of m ms)
  rest_of-All m [] h = tt
  rest_of-All m (x ∷ ms) h = h.1

  pub drop-AllIn :
      (q : Queue) (m : Message Body) (boxes : Boxes Body)
      → AllIn boxes
      → AllIn (at q rest_of m boxes)
  drop-AllIn q m boxes h =
      at-AllIn q rest_of m boxes h (rest_of-All m _ (h q)) (λ q' e. rest_of-All m _ (h q'))

  pub last-AllIn :
      (q : Queue) (m : Message Body) (boxes : Boxes Body)
      → P m
      → AllIn boxes
      → AllIn (at q last m boxes)
  last-AllIn q m boxes p h =
      at-AllIn q last m boxes h (All-append P _ _ (h q) (p, tt))
        (λ q' e. All-append P _ _ (h q') (p, tt))

  pub front-AllIn :
      (q : Queue) (m : Message Body) (boxes : Boxes Body)
      → P m
      → AllIn boxes
      → AllIn (at q (λ x xs. x ∷ xs) m boxes)
  front-AllIn q m boxes p h = at-AllIn q (λ x xs. x ∷ xs) m boxes h (p, h q) (λ q' e. (p, h q'))

  pub routed-AllIn :
      (m : Message Body) (boxes : Boxes Body) → P m → AllIn boxes → AllIn (routed m boxes)
  routed-AllIn m boxes p h q = elim (Bool-cases (mem_key m.routing_key (bound q))) [
    | inl e ↦ rw e (All-append P _ _ (h q) (p, tt))
    | inr e ↦ rw e (h q)
  ]

  -- The messages that may still be handled.
  pub record Holds (n : Net Body) : Type 0 where
    pub queued : AllIn n.queues
    pub unacked : AllIn n.unacked

  pub published-Holds :
      (fs : List Bool) (m : Message Body) (n : Net Body)
      → P m
      → Holds n
      → Holds (published fs m n).1
  published-Holds [] m n p h = record {
    queued = routed-AllIn m n.queues p h.queued;
    unacked = h.unacked;
  }
  published-Holds (true ∷ fs) m n p h = record { queued = h.queued; unacked = h.unacked }
  published-Holds (false ∷ fs) m n p h = record {
    queued = routed-AllIn m n.queues p h.queued;
    unacked = h.unacked;
  }

  pub exchange-Holds : (m : Message Body) (n : Net Body) → P m → Holds n → Holds (exchange m n).1
  unfolding exchange
  exchange-Holds m n p h = published-Holds n.faults m n p h

  pub without-Holds :
      (q : Queue) (m : Message Body) (n : Net Body) → Holds n → Holds (without q m n)
  without-Holds q m n h = record { queued = drop-AllIn q m n.queues h.queued; unacked = h.unacked }

  pub settle-Holds :
      (q : Queue) (m : Message Body) (r : Result (Unit {0})) (n : Net Body)
      → P m
      → Holds n
      → Holds (settle q m r n)
  settle-Holds q m (ok _) n p h = h
  settle-Holds q m (raise e) n p h = record {
    queued = h.queued;
    unacked = last-AllIn q m n.unacked p h.unacked;
  }

  pub requeue-Holds :
      (q : Queue) (ms : List (Message Body)) (n : Net Body)
      → All P ms
      → Holds n
      → Holds (requeue q ms n)
  requeue-Holds q [] n p h = h
  requeue-Holds q (m ∷ ms) n p h = record {
    queued = front-AllIn q m n.queues p.0 h.queued;
    unacked = drop-AllIn q m n.unacked h.unacked;
  }

pub Holds-weaken :
    {Body : Type 0} {P Q : Message Body → Type 0}
    → ((m : Message Body) → P m → Q m)
    → (n : Net Body) → Holds P n
    → Holds Q n
Holds-weaken f n h = record {
  queued = λ q. All-map f (n.queues q) (h.queued q);
  unacked = λ q. All-map f (n.unacked q) (h.unacked q);
}
