-- ===== src/Shared/Consumer/Link.antt =====
-- A consumer on its queue: RabbitMQ hands over the messages in order, drops what is acknowledged,
-- moves what is rejected to the dead-letter queue, and puts what is published at the end.
use ordermesh.Prelude.{ℕ, zero, suc, String, List, [], ◌∷◌, ◌++◌}
use ordermesh.Shared.Outcome.{Result, ok}
use ordermesh.Shared.Event.{Event}
use ordermesh.Shared.Broker.{Message}
use ordermesh.Shared.Consumer.{Channel, Handler, Handlers, handle}

-- `app` is the state of the service; `slept` are the backoffs in seconds, in order.
pub record Link (A Body : Type 0) : Type 0 where
  pub app : A
  pub pending : List (Message Body)
  pub acked : List (Message Body)
  pub dead : List (Message Body)
  pub slept : List ℕ

module _ {A Body : Type 0} where
  abbrev pub channel : Channel Body (Link A Body)
  channel = record {
    ack = λ m l. (ok tt, record l { acked = m ∷ l.acked });
    reject = λ m l. (ok tt, record l { dead = m ∷ l.dead });
    sleep = λ n l. record l { slept = l.slept ++ n ∷ [] };
    publish = λ m l. (ok tt, record l { pending = l.pending ++ m ∷ [] });
  }

-- A handler of the service's own state, and the same on the link.
abbrev pub lifted : {A Body : Type 0} → Handler A → Handler (Link A Body)
lifted h event ctx l = let (r, a) = h event ctx l.app in (r, record l { app = a })

abbrev pub lift_all : {A Body : Type 0} → Handlers A → Handlers (Link A Body)
lift_all [] = []
lift_all ((k, h) ∷ hs) = (k, lifted h) ∷ lift_all hs

module _ {A Body : Type 0} (validate : Body → Result Event) (hs : Handlers A) where
  abbrev pub deliver : Message Body → String → Link A Body → Link A Body
  deliver m ctx l = (handle channel validate (lift_all hs) m ctx l).1.1

  -- Up to so many deliveries, one after the other.
  unfoldable pub drain : ℕ → String → Link A Body → Link A Body
  drain zero ctx l = l
  drain (suc fuel) ctx l = elim l.pending [
    | [] ↦ l
    | m ∷ rest ↦ drain fuel ctx (deliver m ctx (record l { pending = rest }))
  ]
