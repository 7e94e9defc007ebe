-- ===== src/System/Kept.antt =====
-- A predicate on a service's tables and its cache: what happens to RabbitMQ does not touch it.
pub mod Inventory
use ordermesh.Prelude.{String, All}
use ordermesh.Shared.Cache.{Client}
use ordermesh.Shared.Event.{EventType, Payload}
use ordermesh.Shared.Broker.{Message}
use ordermesh.Shared.Consumer.{Handlers}
use ordermesh.Shared.Platform.{Host, publish_event}
use ordermesh.System.Rabbit.{Queue, Net, channel, without}
use ordermesh.System.Keeping.{Calls, Keeps, handle-keeps}
use ordermesh.System.{Env, platform, consume}

module _ {C Body D : Type 0} (env : Env C Body) (P : D → C → Type 0) where
  abbrev pub Kept : Host D C (Net Body) → Type 0
  Kept h = P h.db h.cache

  calls : (q : Queue) (m : Message Body) → Calls Kept (channel q) env.validate m
  calls q m = record { ack = λ h k. k; reject = λ h k. k; sleep = λ n h k. k; publish = λ n h k. k }

  -- A delivery, whatever becomes of it.
  pub consume-Kept :
      (q : Queue) (hs : Handlers (Host D C (Net Body))) (m : Message Body)
      → All (Keeps Kept (channel q) env.validate m) hs
      → (h : Host D C (Net Body)) → Kept h
      → Kept (consume env q hs m h)
  consume-Kept q hs m keeps h k =
      handle-keeps Kept (channel q) env.validate m (calls q m) hs keeps "-"
        (record h { net = without q m h.net }) k

  pub publish-Kept :
      {V : Type 0} (redis : Client C V) (kind : EventType) (p : Payload) (rid : String)
      (h : Host D C (Net Body))
      → Kept h
      → Kept (publish_event (platform env redis) kind p rid h).1
  unfolding publish_event
  publish-Kept redis kind p rid h k = k
