-- ===== src/Shipping/Tests.antt =====
-- A depot with two shipments.
use ordermesh.Prelude.{ℕ, ◌≡◌, ◌≢◌, ◌≤◌, refl, some, List, [], ◌∷◌, Text, codes, arith, length}
use ordermesh.Shared.Outcome.{raise, external}
use ordermesh.Shared.Auth.{Identity}
use ordermesh.Shared.Event.{Event}
use ordermesh.Shared.Cache.Memory.{Memory, memory, nothing, memory-IsServer}
use ordermesh.Shared.Platform.{Platform, Host}
use ordermesh.Shipping.Routes.{update_shipment_status}
use ordermesh.Shipping.Routes
use ordermesh.Shipping.Coherence.{IsCoherent, get_shipment_transparent}
use ordermesh.Shipping.Update.{Update, update_shipment_status-Update}
use ordermesh.Shipping.Model.{ShipmentOut, Shipment, Db, delivered}
use ordermesh.Shipping.Service.{tracking_number, create_shipment}
use ordermesh.Shipping.Create.{
  IsValid, tracking_number_injective, create_shipment-IsValid, create_shipment_idempotent,
}

abbrev shipment : ℕ → ℕ → ℕ → Shipment
shipment year id order_id = record {
  id = id;
  order_id = order_id;
  tracking_number = tracking_number year id;
  courier_name = "DHL";
  status = delivered;
}

abbrev depot : Db
depot = record { shipments = shipment 2023 1 7 ∷ shipment 2024 2 9 ∷ []; shipment_seq = 3 }

tracking_number_test : tracking_number 2024 12 ≡ codes "TRK-2024-000012"
unfolding tracking_number ordermesh.Prelude.Decimal.to_text ordermesh.Prelude.Decimal.zero_padded
tracking_number_test = refl

numbers_apart : tracking_number 2024 2 ≢ tracking_number 2023 1
numbers_apart e = omega (arith, tracking_number_injective 2024 2023 2 1 e)

depot-IsValid : IsValid depot
depot-IsValid = record {
  keys = (omega arith, (omega arith, tt), (omega arith, tt, tt));
  orders = ((omega arith, tt), (tt, tt));
  numbers = ((numbers_apart, tt), (tt, tt));
  numbered = ((2023, refl), ((2024, refl), tt));
}

create_shipment-IsValid_example : IsValid (create_shipment 2024 3 11 depot).1
create_shipment-IsValid_example = create_shipment-IsValid 2024 3 11 depot depot-IsValid

create_shipment_idempotent_example :
    let (s, db) = create_shipment 2024 3 11 depot in create_shipment 2025 4 11 db ≡ (s, db)
create_shipment_idempotent_example = create_shipment_idempotent 2024 3 2025 4 11 depot

-- An exchange that refuses every message; the world is the number of messages it has seen.
abbrev platform : Platform ShipmentOut (Memory ShipmentOut) ℕ Event
platform = record {
  redis = memory;
  cache_ttl = 300;
  bus = some (record { exchange = some (λ m n. (raise external, ℕ.suc n)) });
  model_dump_json = λ event. event;
  now = λ n. [];
}

abbrev start : Host Db (Memory ShipmentOut) ℕ
start = record { db = depot; cache = nothing; net = 0 }

abbrev admin : Identity
admin = record { user_id = codes "1"; role = "ADMIN" }

-- The delivery is stored although its event is not published.
delivered_anyway : update_shipment_status platform 2 delivered admin "r" start ≡ (
  raise external,
  record start {
    net = 1;
    cache = (update_shipment_status platform 2 delivered admin "r" start).1.cache;
  },
)
unfolding update_shipment_status ordermesh.Shared.Auth.require_role
    ordermesh.Shipping.Service.get_shipment ordermesh.Shipping.Service.update_status
    ordermesh.Shared.Platform.publish_event ordermesh.Shared.Platform.emit
    ordermesh.Shared.Broker.publish_on_bus ordermesh.Shared.Broker.publish
delivered_anyway = refl

update_shipment_status-Update_example :
    Update platform 2 delivered admin "r" start
      (update_shipment_status platform 2 delivered admin "r" start)
update_shipment_status-Update_example =
    update_shipment_status-Update platform 2 delivered admin "r" start

depot-IsCoherent : IsCoherent platform memory-IsServer depot nothing
depot-IsCoherent = record { agrees = λ id out e. cc e }

-- The shipment has been read, and the server holds it.
abbrev read : Memory ShipmentOut
read = (Routes.get_shipment platform 2 admin depot nothing).1

read-IsCoherent : IsCoherent platform memory-IsServer depot read
read-IsCoherent =
    (get_shipment_transparent platform memory-IsServer 2 admin depot nothing depot-IsCoherent).1
