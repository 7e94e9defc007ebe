-- ===== src/Schema/Models.antt =====
-- The tables of services/*/app/models.py, as SQLAlchemy reads their declarations: a column is not
-- null unless its annotation allows `None`, and `unique=True` with `index=True` is a unique index.
use ordermesh.Prelude.{String, Bool, true, false, none, some, List, [], ◌∷◌}
use ordermesh.Schema.{
  ColumnType, integer, text, date_time, numeric, string, no_default, now, Column,
}
use ordermesh.Schema.Migrations.{Service, gateway, inventory, notification, order, shipping}

-- `mapped_column(…)`; `default=…` is Python's own and not part of the schema.
pub record Mapped : Type 0 where
  pub column : Column
  pub unique : Bool
  pub index : Bool

pub record Model : Type 0 where
  pub tablename : String
  pub columns : List Mapped

abbrev plain : String → ColumnType → Column
plain name type = record {
  name = name;
  type = type;
  primary_key = false;
  nullable = false;
  server_default = no_default;
  foreign_key = none;
}

abbrev mapped : String → ColumnType → Mapped
mapped name type = record { column = plain name type; unique = false; index = false }

abbrev id : Mapped
id = record {
  column = record (plain "id" integer) { primary_key = true };
  unique = false;
  index = false;
}

abbrev indexed : String → ColumnType → Mapped
indexed name type = record (mapped name type) { index = true }

abbrev unique_indexed : String → ColumnType → Mapped
unique_indexed name type = record (mapped name type) { unique = true; index = true }

abbrev timestamp : String → Mapped
timestamp name = record {
  column = record (plain name date_time) { server_default = now };
  unique = false;
  index = false;
}

abbrev pub user : Model
user = record {
  tablename = "users";
  columns =
      id
      ∷ unique_indexed "email" (string 255)
      ∷ mapped "hashed_password" (string 255)
      ∷ mapped "role" (string 20)
      ∷ timestamp "created_at"
      ∷ [];
}

abbrev pub product : Model
product = record {
  tablename = "products";
  columns =
      id
      ∷ unique_indexed "sku" (string 64)
      ∷ mapped "name" (string 255)
      ∷ mapped "quantity_available" integer
      ∷ [];
}

abbrev pub reservation : Model
reservation = record {
  tablename = "inventory_reservations";
  columns =
      id
      ∷ indexed "product_id" integer
      ∷ indexed "order_id" integer
      ∷ mapped "quantity" integer
      ∷ [];
}

abbrev pub notification_row : Model
notification_row = record {
  tablename = "notifications";
  columns =
      id
      ∷ indexed "type" (string 64)
      ∷ mapped "recipient" (string 255)
      ∷ mapped "payload" text
      ∷ mapped "status" (string 20)
      ∷ timestamp "created_at"
      ∷ record {
        column = record (plain "order_id" integer) { nullable = true };
        unique = false;
        index = true;
      }
      ∷ [];
}

abbrev pub order_row : Model
order_row = record {
  tablename = "orders";
  columns =
      id
      ∷ indexed "customer_id" integer
      ∷ mapped "total_amount" (numeric 12 2)
      ∷ indexed "status" (string 20)
      ∷ timestamp "created_at"
      ∷ timestamp "updated_at"
      ∷ [];
}

abbrev pub order_item : Model
order_item = record {
  tablename = "order_items";
  columns =
      id
      ∷ record {
        column = record (plain "order_id" integer) {
          foreign_key = some (record { target = "orders.id"; on_delete = "CASCADE" });
        };
        unique = false;
        index = false;
      }
      ∷ mapped "product_id" integer
      ∷ mapped "quantity" integer
      ∷ mapped "price" (numeric 12 2)
      ∷ [];
}

abbrev pub shipment : Model
shipment = record {
  tablename = "shipments";
  columns =
      id
      ∷ unique_indexed "order_id" integer
      ∷ unique_indexed "tracking_number" (string 32)
      ∷ mapped "courier_name" (string 64)
      ∷ mapped "status" (string 20)
      ∷ [];
}

-- `Base.metadata` of each service.
abbrev pub metadata : Service → List Model
metadata gateway = user ∷ []
metadata inventory = product ∷ reservation ∷ []
metadata notification = notification_row ∷ []
metadata order = order_row ∷ order_item ∷ []
metadata shipping = shipment ∷ []
