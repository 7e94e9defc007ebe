-- ===== src/Shared/Consumer/Settles.antt =====
-- shared/shared/events/consumer.py: what becomes of one message in the end, whatever its handler
-- does.
use Prim.Native.Nat.{min}
use ordermesh.Prelude.{
  ℕ, zero, suc, ◌+◌, ◌^◌, ◌≤◌, ◌<◌, ◌≡◌, ap, refl, subst, String, Option, none, some, Option-cases,
  [], ◌∷◌, ◌++◌, inl, inr, arith, Bool-cases, leb,
}
use mathlib.Core.Option
use text.Mathlib.Text.{◌==◌ as str_eq}
use ordermesh.Shared.Outcome.{Result, ok, raise, Error}
use ordermesh.Shared.Event.{Event}
use ordermesh.Shared.Broker.{Message, number}
use ordermesh.Shared.Consumer.{
  Handler, Handlers, handler_for, has_request_id, dispatch, attempt, run_handler, retry_header,
  int_of, then_ack, on_failure, handle, caught,
}
use ordermesh.Shared.Consumer.Link.{Link, channel, lifted, lift_all, deliver, drain}
use ordermesh.Shared.Consumer.Delivery.{retried, retry_header-set_retry}

-- The request id that a handler reads: the event's, or the one that was there.
abbrev in_context : Option String → String → String
in_context none ctx = ctx
in_context (some rid) ctx = rid

lifted-handler :
    {A Body : Type 0} (hs : Handlers A) (key : String)
    → handler_for key (lift_all {A = A} {Body = Body} hs) ≡ Option.map lifted (handler_for key hs)
lifted-handler [] key = refl
lifted-handler ((k, h) ∷ hs) key = elim (Bool-cases (str_eq k key)) [
  | inl e ↦ rw e refl
  | inr e ↦ rw e (lifted-handler hs key)
]

module _ {A Body : Type 0} (validate : Body → Result Event) (hs : Handlers A) (ctx : String) where
  -- What the service makes of a message at a state `a`: how that ends, and the state afterwards.
  pub data Tries (m : Message Body) (a : A) : Result (Unit {0}) → A → Type 0 where
    unreadable : (e : Error) → validate m.body ≡ raise e → Tries m a (raise e) a
    unhandled :
        (event : Event)
        → validate m.body ≡ ok event
        → handler_for event.event_type hs ≡ none
        → Tries m a (ok tt) a
    ran :
        (event : Event) (f : Handler A) {r : Result (Unit {0})} {a' : A}
        → validate m.body ≡ ok event
        → handler_for event.event_type hs ≡ some f
        → f event (in_context (has_request_id event.request_id) ctx) a ≡ (r, a')
        → Tries m a r a'

  -- From a link with nothing pending but `m`, with its counter at `n`, to `l'`, where nothing is
  -- pending: the service has tried without an exception and the message is acknowledged; or it has
  -- raised, has been tried three times and is dead; or it has raised and a copy with the next
  -- counter, put into the queue after the backoff, comes to `l'`.
  pub data Settles (l' : Link A Body) : Message Body → ℕ → Link A Body → Type 0 where
    succeeded :
        {m : Message Body} {n : ℕ} {l : Link A Body} (a : A)
        → Tries m l.app (ok tt) a
        → l' ≡ record l { app = a; pending = []; acked = m ∷ l.acked }
        → Settles l' m n l
    gave_up :
        {m : Message Body} {n : ℕ} {l : Link A Body} (a : A) (e : Error)
        → Tries m l.app (raise e) a
        → 3 ≤ n + 1
        → l' ≡ record l { app = a; pending = []; dead = m ∷ l.dead }
        → Settles l' m n l
    tried_again :
        {m : Message Body} {n : ℕ} {l : Link A Body} (a : A) (e : Error) (m' : Message Body)
        → Tries m l.app (raise e) a
        → n + 1 < 3
        → m'.body ≡ m.body
        → m'.routing_key ≡ m.routing_key
        → retry_header m'.headers ≡ number (n + 1)
        → Settles l' m' (n + 1) (record l {
          app = a;
          pending = m' ∷ [];
          acked = m ∷ l.acked;
          slept = l.slept ++ min (2 ^ (n + 1)) 10 ∷ [];
        })
        → Settles l' m n l

  abbrev left_by : Message Body → Link A Body → Result (Unit {0}) → A → Link A Body
  left_by m l (ok _) a = record l { app = a; acked = m ∷ l.acked }
  left_by m l (raise e) a = record l { app = a }

  abbrev Attempted : Message Body → Link A Body → Result (Unit {0}) → Link A Body → Type 0
  Attempted m l r l' = (a : A) × Tries m l.app r a × (l' ≡ left_by m l r a)

  ran-Attempted :
      (m : Message Body) (l : Link A Body) (event : Event) (f : Handler A)
      → validate m.body ≡ ok event
      → handler_for event.event_type hs ≡ some f
      → (o : Result (Unit {0}) × A)
      → f event (in_context (has_request_id event.request_id) ctx) l.app ≡ o
      → let (r, l') = then_ack channel m (o.0, record l { app = o.1 }) in Attempted m l r l'
  ran-Attempted m l event f read found (ok _, a) e = (a, ran event f read found e, refl)
  ran-Attempted m l event f read found (raise x, a) e = (a, ran event f read found e, refl)

  dispatch-Attempted :
      (m : Message Body) (l : Link A Body) (event : Event) (rid : Option String)
      → let (r, l') =
          run_handler channel m
            (handler_for event.event_type (lift_all hs))
            event
            (in_context rid ctx)
            l in
        Attempted m l r l'
        → let t = dispatch channel (lift_all hs) m event rid ctx l in Attempted m l t.result t.world
  dispatch-Attempted m l event none h = h
  dispatch-Attempted m l event (some rid) h = h

  attempt-Attempted :
      (m : Message Body) (l : Link A Body) (decoded : Result Event)
      → validate m.body ≡ decoded
      → let t = attempt channel (lift_all hs) m decoded ctx l in Attempted m l t.result t.world
  unfolding attempt
  attempt-Attempted m l (raise e) read = (l.app, unreadable e read, refl)
  attempt-Attempted m l (ok event) read =
      dispatch-Attempted m l event (has_request_id event.request_id)
        (elim (Option-cases (handler_for event.event_type hs)) [
          | inl unknown ↦
              rw (lifted-handler {A = A} {Body = Body} hs event.event_type, unknown)
                (l.app, unhandled event read unknown, refl)
          | inr (f, found) ↦
              rw (lifted-handler {A = A} {Body = Body} hs event.event_type, found)
                (ran-Attempted m l event f read found _ refl)
        ])

  caught-Settles :
      (m : Message Body) (n : ℕ) (l lw : Link A Body) (r : Result (Unit {0}))
      (after : Link A Body → Link A Body)
      → ((k : Link A Body) → k.pending ≡ [] → after k ≡ k)
      → ((k : Link A Body)
          → k.pending ≡ retried m (n + 1) ∷ []
          → n + 1 < 3
          → Settles (after k) (retried m (n + 1)) (n + 1) k)
      → Attempted m (record l { pending = [] }) r lw
      → Settles (after (caught channel m n r lw).1) m n l
  unfolding on_failure
  caught-Settles m n l lw (ok _) after idle again (a, t, e) = succeeded a t (rw e (idle _ refl))
  caught-Settles m n l lw (raise x) after idle again (a, t, e) = elim (Bool-cases (leb 3 (n + 1))) [
    | inl over ↦ gave_up a x t (ground arith) (rw (e, over) (idle _ refl))
    | inr more ↦
        tried_again a x (retried m (n + 1)) t (ground arith) refl refl
          (retry_header-set_retry (n + 1) m.headers) (rw (e, more) (again _ refl (ground arith)))
  ]

  drain-empty : (fuel : ℕ) (l : Link A Body) → l.pending ≡ [] → drain validate hs fuel ctx l ≡ l
  unfolding drain
  drain-empty zero l e = refl
  drain-empty (suc fuel) l e = rw e

  drain-alone :
      (fuel : ℕ) (m : Message Body) (l : Link A Body)
      → l.pending ≡ m ∷ []
      → drain validate hs fuel ctx (deliver validate hs m ctx (record l { pending = [] }))
        ≡ drain validate hs (suc fuel) ctx l
  unfolding drain
  drain-alone fuel m l e = rw e refl

  deliver-Settles :
      (m : Message Body) (n : ℕ) (l : Link A Body) (after : Link A Body → Link A Body)
      → int_of (retry_header m.headers) ≡ ok n
      → ((k : Link A Body) → k.pending ≡ [] → after k ≡ k)
      → ((k : Link A Body)
          → k.pending ≡ retried m (n + 1) ∷ []
          → n + 1 < 3
          → Settles (after k) (retried m (n + 1)) (n + 1) k)
      → Settles (after (deliver validate hs m ctx (record l { pending = [] }))) m n l
  unfolding handle
  deliver-Settles m n l after h idle again =
      rw (h, deliver)
        (caught-Settles m n l _ _ after idle again
          (attempt-Attempted m (record l { pending = [] }) (validate m.body) refl))

-- A message alone in the queue, with a counter that `int()` reads, is settled after the deliveries
-- that its counter leaves (three for a new message), whatever the handlers do. Either one of the
-- tries ends without an exception (the event's handler returns, or it has none): then the message
-- tried is acknowledged, nothing is dead-lettered, and there are no further tries. Or each of them
-- raises until the counter is at its limit: then the last copy, of the same body and routing key,
-- is dead-lettered, once. The queue is empty in the end, the service's state is what its tries made
-- of it in turn, and before a further try with the counter at n the consumer sleeps min(2 ^ n, 10)
-- seconds.
pub drain-Settles :
    {A Body : Type 0} (validate : Body → Result Event) (hs : Handlers A) (fuel n : ℕ)
    (m : Message Body) (ctx : String) (l : Link A Body)
    → l.pending ≡ m ∷ []
    → int_of (retry_header m.headers) ≡ ok n
    → 3 ≤ n + fuel
    → 1 ≤ fuel
    → Settles validate hs ctx (drain validate hs fuel ctx l) m n l
drain-Settles validate hs zero n m ctx l alone h enough some_fuel = absurd (omega arith)
drain-Settles validate hs (suc fuel) n m ctx l alone h enough some_fuel =
    subst (λ l'. Settles validate hs ctx l' m n l) (drain-alone validate hs ctx fuel m l alone)
      (deliver-Settles validate hs ctx m n l (drain validate hs fuel ctx) h
        (drain-empty validate hs ctx fuel)
        (λ k one more.
          drain-Settles validate hs fuel (n + 1) (retried m (n + 1)) ctx k one
            (ap int_of (retry_header-set_retry (n + 1) m.headers)) (omega arith) (omega arith)))
