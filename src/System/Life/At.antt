-- ===== src/System/Life/At.antt =====
-- The system while one order is on its way, and nothing else is in the queues.
use ordermesh.Prelude.{ℕ, ◌≡◌, refl, String, some, none, List, [], ◌∷◌, ◌++◌, All}
use ordermesh.Shared.Outcome.{ok}
use ordermesh.Shared.Cache.{Client}
use ordermesh.Shared.Event.{
  Event, EventType, Item, Payload, Value, name, create, field, require_items,
}
use ordermesh.Shared.Broker.{Message, to_message, publish, publish_on_bus}
use ordermesh.Shared.Consumer.{int_of, retry_header}
use ordermesh.Shared.Platform.{emit}
use ordermesh.Order.Model.{Order}
use ordermesh.Order.Service.{find_order}
use ordermesh.Inventory.Model as InventoryModel
use ordermesh.Inventory.Service.{reserve_all, wanted_of}
use ordermesh.Shipping.Model.{Shipment}
use ordermesh.Shipping.Service.{for_order}
use ordermesh.System.Rabbit.{
  order_events, inventory_events, shipping_events, notification_events, Net, exchange, routed,
}
use ordermesh.System.Truth.{HasShipment, IsRoundTrip}
use ordermesh.System.Life.Stage.{
  Stage, placed, reserved, confirmed_first, sent_first, announced, over, placed_short, declined,
  dropped, waiting, status_at,
}
use ordermesh.System.{System, Env, platform}

module _ {C Body : Type 0} (env : Env C Body) (id : ℕ) (items : List Item) where
  -- An event of this kind about the order, which has not failed before.
  pub record Says (kind : String) (m : Message Body) : Type 0 where
    pub event : Event
    pub valid : env.validate m.body ≡ ok event
    pub count : int_of (retry_header m.headers) ≡ ok 0
    pub kind_of : event.event_type ≡ kind
    pub order : field "order_id" event.payload ≡ some (Value.id id)
    pub ordered : kind ≡ "OrderCreated" → require_items "items" event.payload ≡ ok items

  -- Messages of these kinds, in this order, and no others.
  abbrev pub Saying : List String → List (Message Body) → Type 0
  Saying [] [] = Unit
  Saying [] (m ∷ ms) = ⊥
  Saying (k ∷ ks) [] = ⊥
  Saying (k ∷ ks) (m ∷ ms) = Says k m × Saying ks ms

  abbrev pub SaysSome : Message Body → Type 0
  SaysSome m = (kind : String) × Says kind m

  abbrev pub Sent : Stage → List Shipment → Type 0
  Sent placed ss = Unit
  Sent reserved ss = Unit
  Sent confirmed_first ss = Unit
  Sent sent_first ss = HasShipment ss id
  Sent announced ss = HasShipment ss id
  Sent over ss = HasShipment ss id
  Sent placed_short ss = for_order id ss ≡ none
  Sent declined ss = for_order id ss ≡ none
  Sent dropped ss = for_order id ss ≡ none

  abbrev pub stock_at : Stage → InventoryModel.Db → InventoryModel.Db
  stock_at placed before = before
  stock_at placed_short before = before
  stock_at declined before = before
  stock_at dropped before = before
  stock_at _ before = reserve_all id (wanted_of items) before

  -- The system at a stage of the order `o`, `before` being the inventory's tables when it was placed.
  pub record At (o : Order) (before : InventoryModel.Db) (st : Stage) (s : System C Body)
      : Type 0 where
    pub inventory : Saying (waiting st inventory_events) (s.net.queues inventory_events)
    pub shipping : Saying (waiting st shipping_events) (s.net.queues shipping_events)
    pub order : Saying (waiting st order_events) (s.net.queues order_events)
    pub emails : All SaysSome (s.net.queues notification_events)
    pub calm : s.net.faults ≡ []
    pub found : find_order id s.order_db.orders ≡ some (record o { status = status_at st })
    pub stock : s.inventory_db ≡ stock_at st before
    pub sent : Sent st s.shipping_db.shipments

  -- Without faults, what is published is routed.
  pub emit-routed :
      {V : Type 0} (redis : Client C V) (kind : EventType) (p : Payload) (rid : String)
      (n : Net Body)
      → n.faults ≡ []
      → emit (platform env redis) kind p rid n ≡ (
        ok tt,
        record n {
          queues = routed (to_message env.model_dump_json (create kind p rid (env.now n))) n.queues;
        },
      )
  unfolding emit publish_on_bus publish exchange
  emit-routed redis kind p rid n calm = rw calm

  pub told :
      (kind : EventType) (p : Payload) (rid : String) (n : Net Body)
      → IsRoundTrip env
      → field "order_id" p ≡ some (Value.id id)
      → (name kind ≡ "OrderCreated" → require_items "items" p ≡ ok items)
      → Says (name kind) (to_message env.model_dump_json (create kind p rid (env.now n)))
  told kind p rid n round_trip h ordered = record {
    event = create kind p rid (env.now n);
    valid = round_trip (create kind p rid (env.now n));
    count = refl;
    kind_of = refl;
    order = h;
    ordered = ordered;
  }

  pub Saying-append :
      (ks : List String) (ms : List (Message Body)) (k : String) (m : Message Body)
      → Saying ks ms
      → Says k m
      → Saying (ks ++ k ∷ []) (ms ++ m ∷ [])
  Saying-append [] [] k m h t = (t, tt)
  Saying-append [] (x ∷ ms) k m h t = absurd h
  Saying-append (j ∷ ks) [] k m h t = absurd h
  Saying-append (j ∷ ks) (x ∷ ms) k m h t = (h.0, Saying-append ks ms k m h.1 t)
