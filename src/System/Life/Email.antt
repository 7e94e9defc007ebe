-- ===== src/System/Life/Email.antt =====
-- services/notification/app/consumers.py: the emails about the order.
use ordermesh.Prelude.{
  ℕ, ◌≡◌, refl, sym, ap, subst, ◌∙◌, String, Option, none, some, List, [], ◌∷◌, All, Bool-cases,
  inl, inr,
}
use text.Mathlib.Text.{◌==◌ as str_eq}
use ordermesh.Order.Model.{Order}
use ordermesh.Shared.Outcome.{ok}
use ordermesh.Shared.Event.{Event, Item}
use ordermesh.Shared.Broker.{Message}
use ordermesh.Shared.Consumer.{Handler, Handlers, handler_for, has_request_id}
use ordermesh.Shared.Platform.{Host}
use ordermesh.Inventory.Model as InventoryModel
use ordermesh.Notification.Service as Notification
use ordermesh.Notification.Consumers.{handlers}
use ordermesh.System.Rabbit.{
  Net, notification_events, inventory_events, shipping_events, order_events, without,
}
use ordermesh.System.Life.Stage.{Stage, waiting}
use ordermesh.System.Life.Serve.{served, ignored, taken, context_of}
use ordermesh.System.Life.At.{At, Says, Saying, SaysSome}
use ordermesh.System.{
  System, Env, consume, all_on_tables, notification_host, consumed, deliver_first,
}

-- The handler accepts the event.
abbrev Accepts : Event → String × Handler Notification.Db → Type 0
Accepts e (key, f) = (ctx : String) (db : Notification.Db) → (f e ctx db).0 ≡ ok tt

module _ (K X : Type 0) where
  abbrev IsQuiet : Event → Option (Handler (Host Notification.Db K X)) → Type 0
  IsQuiet e none = Unit
  IsQuiet e (some g) =
      (ctx : String) (h : Host Notification.Db K X)
      → ((g e ctx h).0 ≡ ok tt) × ((g e ctx h).1.net ≡ h.net)

  found-IsQuiet :
      (e : Event) (key : String) (hs : Handlers Notification.Db)
      → All (Accepts e) hs
      → IsQuiet e (handler_for key (all_on_tables hs))
  found-IsQuiet e key [] a = tt
  found-IsQuiet e key ((k, f) ∷ hs) a = elim (Bool-cases (str_eq k key)) [
    | inl same ↦ rw same (λ ctx h. (a.0 ctx h.db, refl))
    | inr other ↦ rw other (found-IsQuiet e key hs a.1)
  ]

module _ {C Body : Type 0} (env : Env C Body) (id : ℕ) (items : List Item) where
  abbrev emailers : Handlers (Host Notification.Db (Unit {0}) (Net Body))
  emailers = all_on_tables (handlers env.dumps env.str_of_list)

  all-Accept :
      (kind : String) (m : Message Body) (says : Says env id items kind m)
      → All (Accepts says.event) (handlers env.dumps env.str_of_list)
  unfolding handlers
  all-Accept kind m says = (
    λ ctx db. rw says.order,
    (λ ctx db. rw says.order, (λ ctx db. rw says.order, (λ ctx db. rw says.order, tt))),
  )

  -- The net afterwards is the net without the message.
  net-consume :
      (kind : String) (m : Message Body) (says : Says env id items kind m)
      (h : Host Notification.Db (Unit {0}) (Net Body))
      → (consume env notification_events emailers m h).net ≡ without notification_events m h.net
  net-consume kind m says h = go (handler_for says.event.event_type emailers) refl (
      found-IsQuiet (Unit {0}) (Net Body) says.event says.event.event_type
        (handlers env.dumps env.str_of_list) (all-Accept kind m says))
    where
      go :
          (found : Option (Handler (Host Notification.Db (Unit {0}) (Net Body))))
          → handler_for says.event.event_type emailers ≡ found
          → IsQuiet (Unit {0}) (Net Body) says.event found
          → (consume env notification_events emailers m h).net ≡ without notification_events m h.net
      go none e quiet =
          ap (λ (k : Host Notification.Db (Unit {0}) (Net Body)). k.net)
            (ignored env notification_events emailers m h 0 says.event says.count says.valid e)
      go (some g) e quiet =
          let ctx = context_of (has_request_id says.event.request_id) in
          let start = taken env notification_events emailers m h in
          let fine = quiet ctx start in
          ap (λ (k : Host Notification.Db (Unit {0}) (Net Body)). k.net)
            (served env notification_events emailers m h 0 says.event g (g says.event ctx start).1
              says.count says.valid e (ap (λ r. (r, (g says.event ctx start).1)) fine.0))
          ∙ fine.1

  module _ (o : Order) (before : InventoryModel.Db) (st : Stage) (s : System C Body) where
    -- The notification service's delivery.
    pub email-At :
        (ms : List (Message Body))
        → At env id items o before st s
        → s.net.queues notification_events ≡ ms
        → All (SaysSome env id items) ms
        → At env id items o before st (deliver_first env notification_events ms s)
    email-At [] at e h = at
    email-At (m ∷ ms) at e h =
        let (kind, says) = h.0 in
        let after = net-consume kind m says (notification_host s) in
        unfold consumed in
        record {
          inventory =
              subst
                (λ (n : Net Body).
                  Saying env id items (waiting st inventory_events) (n.queues inventory_events))
                (sym after) at.inventory;
          shipping =
              subst
                (λ (n : Net Body).
                  Saying env id items (waiting st shipping_events) (n.queues shipping_events))
                (sym after) at.shipping;
          order =
              subst
                (λ (n : Net Body).
                  Saying env id items (waiting st order_events) (n.queues order_events))
                (sym after) at.order;
          emails =
              subst (λ (n : Net Body). All (SaysSome env id items) (n.queues notification_events))
                (sym after) (rw e h.1);
          calm = subst (λ (n : Net Body). n.faults ≡ []) (sym after) at.calm;
          found = at.found;
          stock = at.stock;
          sent = at.sent;
        }
