-- ===== src/Inventory/Consumers.antt =====
-- services/inventory/app/consumers.py: order events reserve and release stock.
use ordermesh.Prelude.{ℕ, String, true, false, Bool, List, [], ◌∷◌}
use ordermesh.Shared.Outcome.{Result, ok, raise}
use ordermesh.Shared.Event.{Event, EventType, Item, Value, Payload, require_id, require_items}
use ordermesh.Shared.Consumer.{Handlers, on}
use ordermesh.Shared.Platform.{Platform, Host, publish_event}
use ordermesh.Inventory.Model.{Db, ProductOut}
use ordermesh.Inventory.Service.{reserve_for_order, release_for_order}

abbrev pub reserved_payload : ℕ → List Item → Payload
reserved_payload order_id items =
    ("order_id", Value.id order_id) ∷ ("items", Value.items items) ∷ []

module _ {C X Body : Type 0} (platform : Platform ProductOut C X Body) where
  abbrev pub State : Type 0
  State = Host Db C X

  -- `if reserved: … else: …`
  abbrev pub announce : Bool → ℕ → List Item → String → State → Result (Unit {0}) × State
  announce true order_id items rid h =
      publish_event platform EventType.stock_reserved (reserved_payload order_id items) rid h
  announce false order_id items rid h =
      publish_event platform EventType.stock_unavailable (("order_id", Value.id order_id) ∷ []) rid
        h

  unfoldable pub reserve_and_announce : ℕ → List Item → String → State → Result (Unit {0}) × State
  reserve_and_announce order_id items rid h =
      let s = reserve_for_order platform.redis order_id items h.db h.cache in
      announce s.result order_id items rid (record h { db = s.db; cache = s.cache })

  abbrev pub created_with :
      Result ℕ → Result (List Item) → String → State → Result (Unit {0}) × State
  created_with (ok order_id) (ok items) rid h = reserve_and_announce order_id items rid h
  created_with (raise e) items rid h = (raise e, h)
  created_with (ok order_id) (raise e) rid h = (raise e, h)

  unfoldable pub on_order_created : Event → String → State → Result (Unit {0}) × State
  unfolding reserve_and_announce
  on_order_created event rid h =
      created_with (require_id "order_id" event.payload) (require_items "items" event.payload) rid h

  -- `if released:`
  abbrev pub announce_release : List ℕ → ℕ → String → State → Result (Unit {0}) × State
  announce_release [] order_id rid h = (ok tt, h)
  announce_release (id ∷ ids) order_id rid h =
      publish_event platform EventType.stock_released
        (("order_id", Value.id order_id) ∷ ("product_ids", Value.ids (id ∷ ids)) ∷ []) rid h

  unfoldable pub release_and_announce : ℕ → String → State → Result (Unit {0}) × State
  release_and_announce order_id rid h =
      let (released, (db, c)) = release_for_order platform.redis order_id h.db h.cache in
      announce_release released order_id rid (record h { db = db; cache = c })

  abbrev pub cancelled_with : Result ℕ → String → State → Result (Unit {0}) × State
  cancelled_with (ok order_id) rid h = release_and_announce order_id rid h
  cancelled_with (raise e) rid h = (raise e, h)

  unfoldable pub on_order_cancelled : Event → String → State → Result (Unit {0}) × State
  unfolding release_and_announce
  on_order_cancelled event rid h = cancelled_with (require_id "order_id" event.payload) rid h

  -- The handlers of `build_consumer`, on the queue `inventory.events`.
  unfoldable pub handlers : Handlers State
  handlers =
      on EventType.order_cancelled on_order_cancelled
        (on EventType.order_created on_order_created [])
