-- ===== src/Shipping/Model.antt =====
-- services/shipping/app/models.py.
use ordermesh.Prelude.{ℕ, String, List, Text, Bool, true, false}

pub data ShipmentStatus : Type 0 where
  created picked_up in_transit delivered : ShipmentStatus

abbrev pub status_name : ShipmentStatus → String
status_name created = "CREATED"
status_name picked_up = "PICKED_UP"
status_name in_transit = "IN_TRANSIT"
status_name delivered = "DELIVERED"

abbrev pub is_delivered : ShipmentStatus → Bool
is_delivered delivered = true
is_delivered _ = false

pub record Shipment : Type 0 where
  pub id : ℕ
  pub order_id : ℕ
  pub tracking_number : Text
  pub courier_name : String
  pub status : ShipmentStatus

pub record Db : Type 0 where
  pub shipments : List Shipment
  pub shipment_seq : ℕ

-- `ShipmentOut` has the columns of the row.
abbrev pub ShipmentOut : Type 0
ShipmentOut = Shipment
