-- ===== src/System/Tracing.antt =====
-- The request id: from a request's header through the order service's route and event to the
-- inventory's handler, and to the event that this one publishes.
use text.Mathlib.Text.{◌==◌ as str_eq}
use text.Mathlib.TextEquality.{eq_iff}
use ordermesh.Prelude.{
  String, Text, ◌≡◌, ◌≢◌, ◌∙◌, ap, refl, subst, sym, true, false, Bool, Option, none, some, [], ◌∷◌,
  ◌++◌, Bool-cases, inl, inr,
}
use ordermesh.Shared.Outcome.{Result, ok, raise}
use ordermesh.Shared.Auth.{Identity}
use ordermesh.Shared.Event.{Event, EventType, create}
use ordermesh.Shared.Broker.{Message, to_message}
use ordermesh.Shared.Consumer.{has_request_id}
use ordermesh.Shared.Middleware.{request_id_of, dispatch}
use ordermesh.Shared.Platform.{Host, publish_event}
use ordermesh.Order.Model.{Order, OrderOut, OrderCreate}
use ordermesh.Order.Model as OrderModel
use ordermesh.Order.Service as OrderService
use ordermesh.Order.Service.{created_payload}
use ordermesh.Order.Routes as OrderRoutes
use ordermesh.Inventory.Model as InventoryModel
use ordermesh.Inventory.Service.{reserve_for_order}
use ordermesh.Inventory.Consumers.{
  announce, on_order_created, reserve_and_announce, reserved_payload, handlers,
}
use ordermesh.System.Rabbit.{order_events, inventory_events, notification_events, Net}
use ordermesh.System.Truth.{IsRoundTrip}
use ordermesh.System.Life.At.{emit-routed}
use ordermesh.System.Life.Serve.{served, taken, context_of}
use ordermesh.System.Life.Fulfilled.{items_of, report, placed_host, Places}
use ordermesh.System.{System, Env, platform, consume, order_host}

-- The id that a request has: its header's, or the fresh one where there is no header or an empty
-- one.
pub data Identifies (header : Option String) (uuid : String) : String → Type 0 where
  given : (value : String) → header ≡ some value → value ≢ "" → Identifies header uuid value
  absent : header ≡ none → Identifies header uuid uuid
  empty : header ≡ some "" → Identifies header uuid uuid

request_id_of-Identifies :
    (header : Option String) (uuid : String) → Identifies header uuid (request_id_of header uuid)
request_id_of-Identifies none uuid = absent refl
request_id_of-Identifies (some value) uuid = elim (Bool-cases (str_eq value "")) [
  | inl e ↦ rw e (empty (ap some ((eq_iff value "").0 e)))
  | inr e ↦ rw e (given value refl (λ same. cc (e, (eq_iff value "").1 same)))
]

Identifies-ne-empty :
    (header : Option String) (uuid rid : String) → uuid ≢ "" → Identifies header uuid rid → rid ≢ ""
Identifies-ne-empty header uuid rid made (given value e h) = h
Identifies-ne-empty header uuid rid made (absent e) = made
Identifies-ne-empty header uuid rid made (empty e) = made

context-nonempty : (rid : String) → rid ≢ "" → context_of (has_request_id (some rid)) ≡ rid
context-nonempty rid h = elim (Bool-cases (str_eq rid "")) [
  | inl e ↦ absurd (h ((eq_iff rid "").0 e))
  | inr e ↦ rw e refl
]

-- The response to a request whose route has returned.
abbrev pub responding :
    {A Response S : Type 0} → (A → Response) → Result A × S → Result Response × S
responding respond (ok a, s) = (ok (respond a), s)
responding respond (raise e, s) = (raise e, s)

module _ {C Body : Type 0} (env : Env C Body) where
  -- The message decodes to an event with this request id.
  abbrev pub Bears : String → Message Body → Type 0
  Bears rid m = (e : Event) × (env.validate m.body ≡ ok e) × (e.request_id ≡ some rid)

  create_order-placed :
      (payload : OrderCreate) (identity : Identity) (s : System C Body) (o : Order) (rid : String)
      → Places env payload identity s o
      → s.net.faults ≡ []
      → OrderRoutes.create_order
          (platform env env.order_redis)
          env.numeric
          payload
          identity
          rid
          (order_host s)
        ≡ (ok o, placed_host env o rid s)
  unfolding OrderRoutes.create_order OrderService.create_order publish_event
  create_order-placed payload identity s o rid places calm = rw (
    places.accepted,
    places.caller,
    places.total,
    places.rows,
    ← places.row,
    emit-routed env o.id (items_of o) env.order_redis EventType.order_created (created_payload o)
        rid s.net calm,
  )

  announce-Bears :
      IsRoundTrip env
      → (b : Bool) (id : _) (items : _) (rid : String) (h : Host InventoryModel.Db C (Net Body))
      → h.net.faults ≡ []
      → let (r, h') = announce (platform env env.inventory_redis) b id items rid h in
        (r ≡ ok tt)
        × (m' : Message Body) × Bears rid m'
        × (h'.net.queues order_events ≡ h.net.queues order_events ++ m' ∷ [])
  unfolding publish_event
  announce-Bears round_trip true id items rid h calm =
      rw
        (emit-routed env id items env.inventory_redis EventType.stock_reserved
          (reserved_payload id items) rid h.net calm)
        (refl, _, (_, round_trip _, refl), refl)
  announce-Bears round_trip false id items rid h calm =
      rw
        (emit-routed env id items env.inventory_redis EventType.stock_unavailable
          (("order_id", _) ∷ []) rid h.net calm)
        (refl, _, (_, round_trip _, refl), refl)

  -- The inventory's handler of a new order, in the context of a request.
  on_order_created-Bears :
      IsRoundTrip env
      → (o : Order) (rid : String) (now : Text) (h : Host InventoryModel.Db C (Net Body))
      → h.net.faults ≡ []
      → let (r, h') =
          on_order_created
            (platform env env.inventory_redis)
            (create EventType.order_created (created_payload o) rid now)
            rid
            h in
        (r ≡ ok tt)
        × (m' : Message Body) × Bears rid m'
        × (h'.net.queues order_events ≡ h.net.queues order_events ++ m' ∷ [])
  unfolding on_order_created reserve_and_announce created_payload
  on_order_created-Bears round_trip o rid now h calm =
      let s = reserve_for_order env.inventory_redis o.id (items_of o) h.db h.cache in
      announce-Bears round_trip s.result o.id (items_of o) rid
        (record h { db = s.db; cache = s.cache }) calm

  inventory-Bears :
      IsRoundTrip env
      → (o : Order) (rid : String) (now : Text) (h : Host InventoryModel.Db C (Net Body)) → rid ≢ ""
      → h.net.faults ≡ []
      → let m =
          to_message env.model_dump_json
            (create EventType.order_created (created_payload o) rid now) in
        let h' = consume env inventory_events (handlers (platform env env.inventory_redis)) m h in
        (m' : Message Body) × Bears rid m'
        × (h'.net.queues order_events ≡ h.net.queues order_events ++ m' ∷ [])
  unfolding handlers
  inventory-Bears round_trip o rid now h named calm =
      let e = create EventType.order_created (created_payload o) rid now in
      let m = to_message env.model_dump_json e in
      let hs = handlers (platform env env.inventory_redis) in
      let f = on_order_created (platform env env.inventory_redis) in
      let t = taken env inventory_events hs m h in
      let out = on_order_created-Bears round_trip o rid now t calm in
      let same = served env inventory_events hs m h 0 e f (f e rid t).1 refl (round_trip e) refl (
        subst (λ ctx. f e ctx t ≡ (ok tt, (f e rid t).1)) (sym (context-nonempty rid named))
          (ap (λ r. (r, (f e rid t).1)) out.0)) in
      (out.1, out.2, ap (λ k. k.net.queues order_events) same ∙ out.3)

  module _ {Response : Type 0} (set_header : String → String → Response → Response)
      (respond : OrderOut → Response) where
    -- What a request of this id that places the order leaves: its response has the id, the context
    -- is as it was, and one message with the id has gone to the queues of the inventory and of the
    -- notifications; and what the inventory publishes on it has the id too.
    pub record IsTraced (rid ctx : String) (o : Order) (s : System C Body)
        (after : Result Response × (String × Host OrderModel.Db C (Net Body))) : Type 0 where
      pub response : after.0 ≡ ok (set_header "X-Request-ID" rid (respond o))
      pub context : after.1.0 ≡ ctx
      pub message : Message Body
      pub bears : Bears rid message
      pub to_inventory :
          after.1.1.net.queues inventory_events ≡ s.net.queues inventory_events ++ message ∷ []
      pub to_notification :
          after.1.1.net.queues notification_events
          ≡ s.net.queues notification_events ++ message ∷ []
      pub passed_on :
          (h : Host InventoryModel.Db C (Net Body))
          → h.net.faults ≡ []
          → let h' =
              consume env inventory_events
                (handlers (platform env env.inventory_redis))
                message
                h in
            (m' : Message Body) × Bears rid m'
            × (h'.net.queues order_events ≡ h.net.queues order_events ++ m' ∷ [])

    -- A request `POST /orders` that goes through the middleware, is accepted and has amounts that fit
    -- their columns has a request id: the value of its header, or the fresh one, which is not empty,
    -- where there is no header or an empty one. Its response has that id as its X-Request-ID, and
    -- the context is as it was before. The event `OrderCreated` that it publishes carries the id to
    -- the queues of the inventory and of the notifications, and the event by which the inventory
    -- answers it, whenever it is delivered and whatever the stock, carries the id on to the queue of
    -- the orders. Both hold where `publish` does not raise, and pydantic reads back what it wrote.
    pub request_id_flows :
        IsRoundTrip env
        → (header : Option String) (uuid ctx : String) (payload : OrderCreate) (identity : Identity)
          (s : System C Body) (o : Order)
        → uuid ≢ ""
        → Places env payload identity s o
        → s.net.faults ≡ []
        → (rid : String) × Identifies header uuid rid
          × IsTraced rid ctx o s (
              dispatch set_header
                (λ rid' h. responding respond (
                  OrderRoutes.create_order
                    (platform env env.order_redis)
                    env.numeric
                    payload
                    identity
                    rid'
                    h))
                header
                uuid
                ctx
                (order_host s))
    unfolding dispatch
    request_id_flows round_trip header uuid ctx payload identity s o made places calm =
        let rid = request_id_of header uuid in
        let id = request_id_of-Identifies header uuid in
        (
          rid,
          id,
          rw (create_order-placed payload identity s o rid places calm) (record {
            response = refl;
            context = refl;
            message = report env o rid s;
            bears = (_, round_trip _, refl);
            to_inventory = refl;
            to_notification = refl;
            passed_on = λ h quiet.
                inventory-Bears round_trip o rid (env.now s.net) h
                  (Identifies-ne-empty header uuid rid made id) quiet;
          }),
        )
