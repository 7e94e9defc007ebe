-- ===== src/System/FanOut.antt =====
-- shared/shared/events/consumer.py, `_republish`, among the other consumers.
use ordermesh.Prelude.{
  ℕ, ◌+◌, ◌<◌, ◌≡◌, refl, String, Option, none, some, false, [], ◌∷◌, ◌++◌, arith, leb,
  if◌then◌else◌,
}
use ordermesh.Shared.Outcome.{ok, raise, Error}
use ordermesh.Shared.Event.{Event}
use ordermesh.Shared.Broker.{Message}
use ordermesh.Shared.Consumer.{
  Handler, Handlers, handler_for, has_request_id, int_of, retry_header, attempt, handle, dispatch,
  on_failure,
}
use ordermesh.Shared.Consumer.Delivery.{retried}
use ordermesh.Shared.Platform.{Host}
use ordermesh.System.Rabbit.{Queue, Net, channel, exchange, bound, mem_key}
use ordermesh.System.Life.Serve.{taken, context_of}
use ordermesh.System.{Env, consume}

module _ {C Body D K : Type 0} (env : Env C Body) (q : Queue) (hs : Handlers (Host D K (Net Body)))
    (m : Message Body) (h : Host D K (Net Body)) where
  failed :
      (rid : Option String) (e : Event) (f : Handler (Host D K (Net Body)))
      (h' : Host D K (Net Body)) (why : Error)
      → handler_for e.event_type hs ≡ some f
      → f e (context_of rid) (taken env q hs m h) ≡ (raise why, h')
      → let a = dispatch (channel q) hs m e rid "-" (taken env q hs m h) in
        (a.result ≡ raise why) × (a.world ≡ h')
  failed none e f h' why found fails = (rw (found, fails), rw (found, fails))
  failed (some rid) e f h' why found fails = (rw (found, fails), rw (found, fails))

  few : (n : ℕ) → n + 1 < 3 → leb 3 (n + 1) ≡ false
  few n h = ground arith

  -- A handler of one consumer fails on a message that has retries left, and `publish` does not raise:
  -- a copy with the next counter is put at the end of every queue that is bound to the message's
  -- key, and of no other, whichever consumer failed.
  pub retry_fans_out :
      (n : ℕ) (e : Event) (f : Handler (Host D K (Net Body))) (h' : Host D K (Net Body))
      (why : Error)
      → int_of (retry_header m.headers) ≡ ok n
      → env.validate m.body ≡ ok e
      → handler_for e.event_type hs ≡ some f
      → f e (context_of (has_request_id e.request_id)) (taken env q hs m h) ≡ (raise why, h')
      → n + 1 < 3
      → h'.net.faults ≡ []
      → (p : Queue)
      → (consume env q hs m h).net.queues p ≡ (
          if mem_key m.routing_key (bound p)
          then h'.net.queues p ++ retried m (n + 1) ∷ []
          else h'.net.queues p)
  unfolding handle attempt on_failure exchange
  retry_fans_out n e f h' why count valid found fails more calm p =
      let d = failed (has_request_id e.request_id) e f h' why found fails in
      rw (count, valid, d.0, d.1, few n more, calm) refl
