-- ===== src/System/Life/Serve.antt =====
-- A delivery whose handler succeeds.
use ordermesh.Prelude.{ℕ, ◌≡◌, String, Option, none, some}
use ordermesh.Shared.Outcome.{ok}
use ordermesh.Shared.Event.{Event}
use ordermesh.Shared.Broker.{Message}
use ordermesh.Shared.Consumer.{
  Handler, Handlers, handler_for, has_request_id, int_of, retry_header, attempt, handle, dispatch,
}
use ordermesh.Shared.Platform.{Host}
use ordermesh.System.Rabbit.{Queue, Net, channel, without}
use ordermesh.System.{Env, consume}

-- The request id of the context in which the handler runs.
abbrev pub context_of : Option String → String
context_of none = "-"
context_of (some rid) = rid

module _ {C Body D K : Type 0} (env : Env C Body) (q : Queue) (hs : Handlers (Host D K (Net Body)))
    (m : Message Body) (h : Host D K (Net Body)) where
  -- The state in which the handler starts.
  abbrev pub taken : Host D K (Net Body)
  taken = record h { net = without q m h.net }

  dispatched :
      (rid : Option String) (e : Event) (f : Handler (Host D K (Net Body)))
      (h' : Host D K (Net Body))
      → handler_for e.event_type hs ≡ some f
      → f e (context_of rid) taken ≡ (ok tt, h')
      → let a = dispatch (channel q) hs m e rid "-" taken in (a.result ≡ ok tt) × (a.world ≡ h')
  dispatched none e f h' found fine = (rw (found, fine), rw (found, fine))
  dispatched (some rid) e f h' found fine = (rw (found, fine), rw (found, fine))

  -- The state after the delivery is the one that the handler leaves.
  pub served :
      (n : ℕ) (e : Event) (f : Handler (Host D K (Net Body))) (h' : Host D K (Net Body))
      → int_of (retry_header m.headers) ≡ ok n
      → env.validate m.body ≡ ok e
      → handler_for e.event_type hs ≡ some f
      → f e (context_of (has_request_id e.request_id)) taken ≡ (ok tt, h')
      → consume env q hs m h ≡ h'
  unfolding handle attempt
  served n e f h' count valid found fine =
      let d = dispatched (has_request_id e.request_id) e f h' found fine in
      rw (count, valid, d.0, d.1)

  -- An event that no handler is registered for is acknowledged.
  ignored_dispatch :
      (rid : Option String) (e : Event)
      → handler_for e.event_type hs ≡ none
      → let a = dispatch (channel q) hs m e rid "-" taken in (a.result ≡ ok tt) × (a.world ≡ taken)
  ignored_dispatch none e found = (rw found, rw found)
  ignored_dispatch (some rid) e found = (rw found, rw found)

  pub ignored :
      (n : ℕ) (e : Event)
      → int_of (retry_header m.headers) ≡ ok n
      → env.validate m.body ≡ ok e
      → handler_for e.event_type hs ≡ none
      → consume env q hs m h ≡ taken
  unfolding handle attempt
  ignored n e count valid found =
      let d = ignored_dispatch (has_request_id e.request_id) e found in rw (count, valid, d.0, d.1)
