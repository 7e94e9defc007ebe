-- ===== src/System/Truth.antt =====
-- What a message between the services says, and that it is so: the tables of the order service and
-- of the shipping service bear it out.
use ordermesh.Prelude.{ℕ, ◌≡◌, ◌≢◌, subst, String, none, List, All}
use ordermesh.Shared.Outcome.{ok}
use ordermesh.Shared.Event.{
  Event, EventType, Payload, Item, name, create, require_id, require_items,
}
use ordermesh.Shared.Broker.{Message, publish_on_bus, publish}
use ordermesh.Shared.Platform.{emit}
use ordermesh.Shared.Cache.{Client}
use ordermesh.Order.Model.{Order}
use ordermesh.Order.Service.{find_order}
use ordermesh.Inventory.Safety.{AsksForUnits}
use ordermesh.Shipping.Model.{Shipment}
use ordermesh.Shipping.Service.{for_order}
use ordermesh.System.Rabbit.{Net}
use ordermesh.System.Facts.{Holds, Holds-weaken, exchange-Holds}
use ordermesh.System.{Env, platform}

abbrev pub IsOrder : List Order → ℕ → Type 0
IsOrder orders n = find_order n orders ≢ none

abbrev pub HasShipment : List Shipment → ℕ → Type 0
HasShipment shipments n = for_order n shipments ≢ none

-- The order that the event names is in the table, no item asks for a negative quantity, and a
-- shipment that is announced is there.
pub record Sound (orders : List Order) (shipments : List Shipment) (key : String) (p : Payload)
    : Type 0 where
  pub known : (n : ℕ) → require_id "order_id" p ≡ ok n → IsOrder orders n
  pub asks : (items : List Item) → require_items "items" p ≡ ok items → All AsksForUnits items
  pub sent :
      key ≡ "ShipmentCreated" → (n : ℕ) → require_id "order_id" p ≡ ok n → HasShipment shipments n

-- The tables of both services that events are about.
pub record Tables : Type 0 where
  pub orders : List Order
  pub shipments : List Shipment

-- Every order and every shipment stays.
pub record Grows (t t' : Tables) : Type 0 where
  pub orders : (n : ℕ) → IsOrder t.orders n → IsOrder t'.orders n
  pub shipments : (n : ℕ) → HasShipment t.shipments n → HasShipment t'.shipments n

pub Grows-refl : (t : Tables) → Grows t t
Grows-refl t = record { orders = λ n h. h; shipments = λ n h. h }

module _ {C Body : Type 0} (env : Env C Body) where
  -- What the message decodes to is sound.
  abbrev pub IsTrue : Tables → Message Body → Type 0
  IsTrue t m =
      (e : Event) → env.validate m.body ≡ ok e → Sound t.orders t.shipments e.event_type e.payload

  -- pydantic reads back what it wrote.
  abbrev pub IsRoundTrip : Type 0
  IsRoundTrip = (e : Event) → env.validate (env.model_dump_json e) ≡ ok e

  pub Grows-IsTrue : (t t' : Tables) → Grows t t' → (m : Message Body) → IsTrue t m → IsTrue t' m
  Grows-IsTrue t t' g m h e v =
      let s = h e v in
      record {
        known = λ n is. g.orders n (s.known n is);
        asks = s.asks;
        sent = λ key n is. g.shipments n (s.sent key n is);
      }

  pub Grows-Holds :
      (t t' : Tables) → Grows t t' → (n : Net Body) → Holds (IsTrue t) n → Holds (IsTrue t') n
  Grows-Holds t t' g n h = Holds-weaken (Grows-IsTrue t t' g) n h

  module _ (round_trip : IsRoundTrip) {V : Type 0} (redis : Client C V) where
    pub emit-Holds :
        (t : Tables) (kind : EventType) (p : Payload) (rid : String) (n : Net Body)
        → Sound t.orders t.shipments (name kind) p
        → Holds (IsTrue t) n
        → Holds (IsTrue t) (emit (platform env redis) kind p rid n).1
    unfolding emit publish_on_bus publish
    emit-Holds t kind p rid n s h = exchange-Holds (IsTrue t) _ n truth h
      where
        truth :
            (e : Event)
            → env.validate (env.model_dump_json (create kind p rid (env.now n))) ≡ ok e
            → Sound t.orders t.shipments e.event_type e.payload
        truth e v = subst (λ x. Sound t.orders t.shipments x.event_type x.payload) same s
          where
            same : create kind p rid (env.now n) ≡ e
            same = cc (round_trip (create kind p rid (env.now n)))
