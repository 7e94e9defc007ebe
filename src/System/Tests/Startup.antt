-- ===== src/System/Tests/Startup.antt =====
-- A server that records what it is told.
use ordermesh.Prelude.{String, ◌≡◌, ◌⊎◌, inl, inr, refl, subst, List, [], ◌∷◌}
use ordermesh.Shared.Outcome.{ok}
use ordermesh.Shared.Connection.{Amqp, connect, rounds}
use ordermesh.Shared.Consumer.Start.{Topology, start, bind_all}
use ordermesh.Shared.Consumer.Start.Bound.{Fact, queue, binding, consumer, IsServer}
use ordermesh.Shared.Lifespan.Ready.{IsReady}
use ordermesh.Notification.Main as NotificationMain
use ordermesh.System.Rabbit.{notification_events, bound}
use ordermesh.System.Boot.{name_of_queue, startup_of, startup-IsReady}
use ordermesh.System.Tests.{env}

abbrev Facts : Type 0
Facts = List (Fact String)

abbrev client : Amqp (Unit {0}) (Unit {0}) String Facts
client = record {
  connect_robust = λ w. (ok tt, w);
  open_channel = λ connection w. (ok tt, w);
  set_qos = λ channel count w. (ok tt, w);
  declare_exchange = λ channel name w. (ok name, w);
  sleep = λ w. w;
}

abbrev recorder : Topology (Unit {0}) String String Facts
recorder = record {
  declare_queue = λ channel name args w. (ok name, queue name args ∷ w);
  bind = λ q exchange key w. (ok tt, binding q exchange key ∷ w);
  consume = λ q w. (ok tt, consumer q ∷ w);
}

abbrev In : Facts → Fact String → Type 0
In [] f = ⊥
In (x ∷ w) f = (f ≡ x) ⊎ In w f

-- A fact that was put in front.
put_first :
    (x : Fact String) (w w' : Facts) → x ∷ w ≡ w' → In w' x × ((f : Fact String) → In w f → In w' f)
put_first x w w' e =
    subst (λ v. In v x × ((f : Fact String) → In w f → In v f)) e (inl refl, λ f k. inr k)

recorder-IsServer : IsServer recorder (λ q. q) In
recorder-IsServer = record {
  declared =
      λ ch name args w w' q e. let p = put_first (queue name args) w w' (cc) in (cc, p.0, p.1);
  bound = λ q x key w w' e. put_first (binding q x key) w w' (cc);
  consuming = λ q w w' e. put_first (consumer q) w w' (cc);
}

client-declares :
    (ch : Unit {0}) (name : String) (w w' : Facts) (x : String)
    → client.declare_exchange ch name w ≡ (ok x, w')
    → x ≡ name
client-declares ch name w w' x e = cc

startup-IsReady_example :
    IsReady client recorder
      (λ x. x)
      recorder-IsServer
      client-declares
      (name_of_queue notification_events)
      (bound notification_events)
      (startup_of env client recorder notification_events []).1
unfolding NotificationMain.startup connect rounds start bind_all
startup-IsReady_example =
    startup-IsReady env client recorder (λ x. x) recorder-IsServer client-declares
      notification_events [] refl
