-- ===== src/System/Working.antt =====
-- One service at work: its tables, what RabbitMQ holds, and the messages that it works on.
use ordermesh.Prelude.{String, List, [], ◌∷◌, All, All-map}
use ordermesh.Shared.Outcome.{Result}
use ordermesh.Shared.Cache.{Client}
use ordermesh.Shared.Event.{EventType, Payload, name}
use ordermesh.Shared.Broker.{Message}
use ordermesh.Shared.Consumer.{Handlers, handle}
use ordermesh.Shared.Platform.{Host, emit}
use ordermesh.System.Rabbit.{Queue, Net, channel, without, settle}
use ordermesh.System.Facts.{Holds, exchange-Holds, without-Holds, settle-Holds}
use ordermesh.System.Keeping.{Calls, Keeps, handle-keeps}
use ordermesh.System.Truth.{
  Tables, Sound, Grows, IsTrue, IsRoundTrip, Grows-IsTrue, Grows-Holds, emit-Holds,
}
use ordermesh.System.{Env, platform, consume}

-- `tables_of` reads from the service's tables what events are about, and `Rows` is what the service
-- keeps of its tables.
module _ {C Body D K : Type 0} (env : Env C Body) (tables_of : D → Tables) (Rows : D → Type 0) where
  pub record Working (ms : List (Message Body)) (h : Host D K (Net Body)) : Type 0 where
    pub rows : Rows h.db
    pub truth : Holds (IsTrue env (tables_of h.db)) h.net
    pub held : All (IsTrue env (tables_of h.db)) ms

  -- A commit, and what it does to the cache.
  pub Working-commit :
      (ms : List (Message Body)) (h : Host D K (Net Body)) (db : D) (c : K)
      → Grows (tables_of h.db) (tables_of db)
      → Rows db
      → Working ms h
      → Working ms (record h { db = db; cache = c })
  Working-commit ms h db c g rows w = record {
    rows = rows;
    truth = Grows-Holds env (tables_of h.db) (tables_of db) g h.net w.truth;
    held = All-map (Grows-IsTrue env (tables_of h.db) (tables_of db) g) ms w.held;
  }

  pub Working-publish :
      {V : Type 0} (redis : Client C V)
      → IsRoundTrip env
      → (ms : List (Message Body)) (kind : EventType) (p : Payload) (rid : String)
        (h : Host D K (Net Body))
      → Sound (tables_of h.db).orders (tables_of h.db).shipments (name kind) p
      → Working ms h
      → Working ms (record h { net = (emit (platform env redis) kind p rid h.net).1 })
  Working-publish redis round_trip ms kind p rid h sound w = record {
    rows = w.rows;
    truth = emit-Holds env round_trip redis (tables_of h.db) kind p rid h.net sound w.truth;
    held = w.held;
  }

  calls : (q : Queue) (m : Message Body) → Calls (Working (m ∷ [])) (channel q) env.validate m
  calls q m = record {
    ack = λ h w. w;
    reject = λ h w. record {
      rows = w.rows;
      truth = record { queued = w.truth.queued; unacked = w.truth.unacked };
      held = w.held;
    };
    sleep = λ n h w. w;
    publish = λ n h w. record {
      rows = w.rows;
      truth = exchange-Holds (IsTrue env (tables_of h.db)) _ h.net (w.held.0) w.truth;
      held = w.held;
    };
  }

  -- A callback of the consumer, if each of its handlers keeps the service at work.
  pub consume-Working :
      (q : Queue) (hs : Handlers (Host D K (Net Body))) (m : Message Body)
      → All (Keeps (Working (m ∷ [])) (channel q) env.validate m) hs
      → (h : Host D K (Net Body)) → Working (m ∷ []) h
      → Working [] (consume env q hs m h)
  consume-Working q hs m keeps h w =
      settled (handle (channel q) env.validate hs m "-" (record h { net = without q m h.net })) (
        handle-keeps (Working (m ∷ [])) (channel q) env.validate m (calls q m) hs keeps "-" _
          (record { rows = w.rows; truth = without-Holds _ q m h.net w.truth; held = w.held }))
    where
      settled :
          (out : Result (Unit {0}) × (String × Host D K (Net Body)))
          → Working (m ∷ []) out.1.1
          → Working [] (record (out.1.1) { net = settle q m out.0 out.1.1.net })
      settled (r, (ctx, h')) w' = record {
        rows = w'.rows;
        truth = settle-Holds _ q m r h'.net w'.held.0 w'.truth;
        held = tt;
      }
