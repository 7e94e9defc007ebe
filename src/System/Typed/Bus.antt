-- ===== src/System/Typed/Bus.antt =====
-- What the messages between the services carry, and a RabbitMQ in which every one of them can be
-- handled.
use ordermesh.Prelude.{
  ℕ, ◌≡◌, ◌≢◌, refl, sym, ap, subst, String, Option, none, some, List, [], ◌∷◌, All, Bool-cases,
  inl, inr,
}
use text.Mathlib.Text.{◌==◌ as str_eq}
use text.Mathlib.TextEquality.{eq_iff}
use ordermesh.Shared.Outcome.{Result, ok}
use ordermesh.Shared.Cache.{Client}
use ordermesh.Shared.Event.{Event, EventType, Item, Payload, Value, field, name, create}
use ordermesh.Shared.Broker.{Message, publish_on_bus, publish}
use ordermesh.Shared.Consumer.{Handler, Handlers, handler_for, has_request_id, int_of, retry_header}
use ordermesh.Shared.Platform.{Host, emit, publish_event}
use ordermesh.System.Rabbit.{Queue, Net, exchange, without}
use ordermesh.System.Facts.{AllIn, drop-AllIn, routed-AllIn}
use ordermesh.System.Truth.{IsRoundTrip}
use ordermesh.System.Life.Serve.{served, ignored, taken, context_of}
use ordermesh.System.{Env, platform, consume}

-- The fields that the consumers read, with the types that they need.
pub record IsTyped (key : String) (p : Payload) : Type 0 where
  pub id : ℕ
  pub order : field "order_id" p ≡ some (Value.id id)
  pub items : key ≡ "OrderCreated" → (l : List Item) × (field "items" p ≡ some (Value.items l))

pub plain-IsTyped :
    (key : String) (p : Payload) (id : ℕ)
    → field "order_id" p ≡ some (Value.id id)
    → key ≢ "OrderCreated"
    → IsTyped key p
plain-IsTyped key p id e other = record { id = id; order = e; items = λ same. absurd (other same) }

module _ {C Body : Type 0} (env : Env C Body) where
  -- The message decodes to such an event, and has never been retried.
  pub record IsGood (m : Message Body) : Type 0 where
    pub event : Event
    pub valid : env.validate m.body ≡ ok event
    pub count : int_of (retry_header m.headers) ≡ ok 0
    pub typed : IsTyped event.event_type event.payload

  -- Every queued message is good, none is without an answer, none is with the dead letters, and no
  -- call of `publish` will raise.
  pub record IsClear (n : Net Body) : Type 0 where
    pub queued : AllIn IsGood n.queues
    pub settled : (q : Queue) → n.unacked q ≡ []
    pub alive : (q : Queue) → n.dead q ≡ []
    pub calm : n.faults ≡ []

  without-IsClear :
      (q : Queue) (m : Message Body) (n : Net Body) → IsClear n → IsClear (without q m n)
  without-IsClear q m n c = record {
    queued = drop-AllIn IsGood q m n.queues c.queued;
    settled = c.settled;
    alive = c.alive;
    calm = c.calm;
  }

  exchange-IsClear :
      (m : Message Body) (n : Net Body)
      → IsGood m
      → IsClear n
      → ((exchange m n).0 ≡ ok tt) × IsClear (exchange m n).1
  unfolding exchange
  exchange-IsClear m n good c = rw c.calm (
    refl,
    record {
      queued = routed-AllIn IsGood m n.queues good c.queued;
      settled = c.settled;
      alive = c.alive;
      calm = refl;
    },
  )

  -- The outcome of what succeeds and leaves RabbitMQ clear.
  abbrev pub Fine : {D K : Type 0} → Result (Unit {0}) × Host D K (Net Body) → Type 0
  Fine out = (out.0 ≡ ok tt) × IsClear out.1.net

  pub publish-Fine :
      IsRoundTrip env
      → {V D : Type 0} (redis : Client C V) (kind : EventType) (p : Payload) (rid : String)
        (h : Host D C (Net Body))
      → IsTyped (name kind) p
      → IsClear h.net
      → Fine (publish_event (platform env redis) kind p rid h)
  unfolding publish_event emit publish_on_bus publish
  publish-Fine round_trip redis kind p rid h typed c =
      exchange-IsClear _ h.net
        (record {
          event = create kind p rid (env.now h.net);
          valid = round_trip (create kind p rid (env.now h.net));
          count = refl;
          typed = typed;
        })
        c

  module _ {D K : Type 0} where
    -- The handler registered under a key handles every typed event with the key.
    abbrev pub Handles : String × Handler (Host D K (Net Body)) → Type 0
    Handles (key, f) =
        (e : Event)
        → IsTyped e.event_type e.payload
        → e.event_type ≡ key
        → (ctx : String) (h : Host D K (Net Body)) → IsClear h.net
        → Fine (f e ctx h)

    HandlesFound : Event → Option (Handler (Host D K (Net Body))) → Type 0
    HandlesFound e none = Unit
    HandlesFound e (some f) =
        (ctx : String) (h : Host D K (Net Body)) → IsClear h.net → Fine (f e ctx h)

    found-Handles :
        (e : Event) (hs : Handlers (Host D K (Net Body)))
        → IsTyped e.event_type e.payload
        → All Handles hs
        → HandlesFound e (handler_for e.event_type hs)
    unfolding HandlesFound
    found-Handles e [] typed k = tt
    found-Handles e ((key, f) ∷ hs) typed k = elim (Bool-cases (str_eq key e.event_type)) [
      | inl same ↦ rw same (k.0 e typed (sym ((eq_iff key e.event_type).0 same)))
      | inr other ↦ rw other (found-Handles e hs typed k.1)
    ]

    pub consume-IsClear :
        (q : Queue) (hs : Handlers (Host D K (Net Body))) (m : Message Body)
        (h : Host D K (Net Body))
        → All Handles hs
        → IsGood m
        → IsClear h.net
        → IsClear (consume env q hs m h).net
    unfolding HandlesFound
    consume-IsClear q hs m h k good c =
        go (handler_for good.event.event_type hs) refl (found-Handles good.event hs good.typed k)
      where
        start : Host D K (Net Body)
        start = taken env q hs m h

        go :
            (found : Option (Handler (Host D K (Net Body))))
            → handler_for good.event.event_type hs ≡ found
            → HandlesFound good.event found
            → IsClear (consume env q hs m h).net
        go none e tt =
            subst (λ (x : Host D K (Net Body)). IsClear x.net)
              (sym (ignored env q hs m h 0 good.event good.count good.valid e))
              (without-IsClear q m h.net c)
        go (some f) e fine =
            let ctx = context_of (has_request_id good.event.request_id) in
            let done = fine ctx start (without-IsClear q m h.net c) in
            subst (λ (x : Host D K (Net Body)). IsClear x.net)
              (sym (
                served env q hs m h 0 good.event f (f good.event ctx start).1 good.count good.valid
                  e (ap (λ r. (r, (f good.event ctx start).1)) done.0)))
              done.1
