-- ===== src/Shared/Consumer/Tests.antt =====
-- A consumer whose state is a count: one handler counts, another always raises.
use ordermesh.Prelude.{ℕ, suc, ◌≡◌, refl, [], ◌∷◌, arith}
use ordermesh.Shared.Outcome.{Result, ok, raise, runtime}
use ordermesh.Shared.Event.{Event, EventType, create}
use ordermesh.Shared.Broker.{Message, to_message}
use ordermesh.Shared.Consumer.{Handlers, on, handle}
use ordermesh.Shared.Consumer.Link.{Link, drain}
use ordermesh.Shared.Consumer.Delivery.{retried}
use ordermesh.Shared.Consumer.Settles.{Settles, drain-Settles}
use ordermesh.Shared.Consumer.Queue.{drain_empties}
use ordermesh.Shared.Consumer.Poison.{poison_dead_letters}

abbrev reserved : Event
reserved = create EventType.stock_reserved [] "r-1" []

abbrev created : Event
created = create EventType.order_created [] "r-2" []

abbrev message : Event → Message Event
message event = to_message (λ e. e) event

abbrev decode : Event → Result Event
decode event = ok event

abbrev handlers : Handlers ℕ
handlers =
    on EventType.order_created (λ event rid n. (raise (runtime rid), suc n))
      (on EventType.stock_reserved (λ event rid n. (ok tt, suc n)) [])

abbrev with_pending : Event → Link ℕ Event
with_pending event = record {
  app = 0;
  pending = message event ∷ [];
  acked = [];
  dead = [];
  slept = [];
}

-- The handler of this one raises three times.
drain-Settles_example :
    Settles decode handlers "-"
      (drain decode handlers 3 "-" (with_pending created))
      (message created)
      0
      (with_pending created)
drain-Settles_example =
    drain-Settles decode handlers 3 0 (message created) "-" (with_pending created) refl refl
      (omega arith) (omega arith)

handled_once :
    drain decode handlers 3 "-" (with_pending reserved)
    ≡ record { app = 1; pending = []; acked = message reserved ∷ []; dead = []; slept = [] }
unfolding drain handle ordermesh.Shared.Consumer.attempt ordermesh.Shared.Consumer.on_failure
handled_once = refl

poison_dead_letters_example :
    let l = drain decode handlers 3 "-" (with_pending created) in
    let m = message created in
    (l.pending ≡ [])
    × (l.dead ≡ retried (retried m 1) 2 ∷ [])
    × (l.acked ≡ retried m 1 ∷ m ∷ [])
    × (l.slept ≡ 2 ∷ 4 ∷ [])
poison_dead_letters_example =
    poison_dead_letters decode handlers (message created) created refl (λ rid n. tt) "-" 0 refl

-- Nine deliveries are enough for three new messages.
abbrev mixed : Link ℕ Event
mixed = record {
  app = 0;
  pending = message reserved ∷ message created ∷ message reserved ∷ [];
  acked = [];
  dead = [];
  slept = [];
}

drain_empties_example : (drain decode handlers 9 "-" mixed).pending ≡ []
drain_empties_example =
    drain_empties decode handlers 9 "-" mixed ((0, refl), ((0, refl), ((0, refl), tt)))
      (omega arith)
