-- ===== src/Schema/Migrations.antt =====
-- services/*/alembic/versions/0001_initial.py.
use ordermesh.Prelude.{String, true, false, none, some, List, [], ◌∷◌}
use ordermesh.Schema.{
  ColumnType, integer, text, date_time, numeric, string, Default, no_default, now, literal, Column,
  Index, Op, create_table, create_index, drop_index, drop_table,
}

abbrev key : Column
key = record {
  name = "id";
  type = integer;
  primary_key = true;
  nullable = false;
  server_default = no_default;
  foreign_key = none;
}

abbrev column : String → ColumnType → Column
column name type = record key { name = name; type = type; primary_key = false }

abbrev defaulted : String → ColumnType → Default → Column
defaulted name type default = record (column name type) { server_default = default }

abbrev pub index : String → String → String → Index
index name table column = record {
  name = name;
  table = table;
  columns = column ∷ [];
  unique = false;
}

abbrev pub unique_index : String → String → String → Index
unique_index name table column = record (index name table column) { unique = true }

abbrev pub users : List Column
users =
    key
    ∷ column "email" (string 255)
    ∷ column "hashed_password" (string 255)
    ∷ defaulted "role" (string 20) (literal "CUSTOMER")
    ∷ defaulted "created_at" date_time now
    ∷ []

abbrev pub products : List Column
products =
    key
    ∷ column "sku" (string 64)
    ∷ column "name" (string 255)
    ∷ defaulted "quantity_available" integer (literal "0")
    ∷ []

abbrev pub inventory_reservations : List Column
inventory_reservations =
    key ∷ column "product_id" integer ∷ column "order_id" integer ∷ column "quantity" integer ∷ []

abbrev pub notifications : List Column
notifications =
    key
    ∷ column "type" (string 64)
    ∷ column "recipient" (string 255)
    ∷ column "payload" text
    ∷ defaulted "status" (string 20) (literal "SENT")
    ∷ record (column "order_id" integer) { nullable = true }
    ∷ defaulted "created_at" date_time now
    ∷ []

abbrev pub orders : List Column
orders =
    key
    ∷ column "customer_id" integer
    ∷ defaulted "total_amount" (numeric 12 2) (literal "0")
    ∷ defaulted "status" (string 20) (literal "PENDING")
    ∷ defaulted "created_at" date_time now
    ∷ defaulted "updated_at" date_time now
    ∷ []

abbrev pub order_items : List Column
order_items =
    key
    ∷ record (column "order_id" integer) {
      foreign_key = some (record { target = "orders.id"; on_delete = "CASCADE" });
    }
    ∷ column "product_id" integer
    ∷ column "quantity" integer
    ∷ column "price" (numeric 12 2)
    ∷ []

abbrev pub shipments : List Column
shipments =
    key
    ∷ column "order_id" integer
    ∷ column "tracking_number" (string 32)
    ∷ column "courier_name" (string 64)
    ∷ defaulted "status" (string 20) (literal "CREATED")
    ∷ []

-- One name for the migration of each service.
pub data Service : Type 0 where
  gateway inventory notification order shipping : Service

abbrev upgrade_gateway : List Op
upgrade_gateway =
    create_table "users" users ∷ create_index (unique_index "ix_users_email" "users" "email") ∷ []

abbrev upgrade_inventory : List Op
upgrade_inventory =
    create_table "products" products
    ∷ create_index (unique_index "ix_products_sku" "products" "sku")
    ∷ create_table "inventory_reservations" inventory_reservations
    ∷ create_index
        (index "ix_inventory_reservations_product_id" "inventory_reservations" "product_id")
    ∷ create_index (index "ix_inventory_reservations_order_id" "inventory_reservations" "order_id")
    ∷ []

abbrev upgrade_notification : List Op
upgrade_notification =
    create_table "notifications" notifications
    ∷ create_index (index "ix_notifications_type" "notifications" "type")
    ∷ create_index (index "ix_notifications_order_id" "notifications" "order_id")
    ∷ []

abbrev upgrade_order : List Op
upgrade_order =
    create_table "orders" orders
    ∷ create_index (index "ix_orders_customer_id" "orders" "customer_id")
    ∷ create_index (index "ix_orders_status" "orders" "status")
    ∷ create_table "order_items" order_items
    ∷ []

abbrev upgrade_shipping : List Op
upgrade_shipping =
    create_table "shipments" shipments
    ∷ create_index (unique_index "ix_shipments_order_id" "shipments" "order_id")
    ∷ create_index (unique_index "ix_shipments_tracking_number" "shipments" "tracking_number")
    ∷ []

abbrev downgrade_gateway : List Op
downgrade_gateway = drop_index "ix_users_email" ∷ drop_table "users" ∷ []

abbrev downgrade_inventory : List Op
downgrade_inventory =
    drop_table "inventory_reservations" ∷ drop_index "ix_products_sku" ∷ drop_table "products" ∷ []

abbrev downgrade_notification : List Op
downgrade_notification =
    drop_index "ix_notifications_order_id"
    ∷ drop_index "ix_notifications_type"
    ∷ drop_table "notifications"
    ∷ []

abbrev downgrade_order : List Op
downgrade_order =
    drop_table "order_items"
    ∷ drop_index "ix_orders_status"
    ∷ drop_index "ix_orders_customer_id"
    ∷ drop_table "orders"
    ∷ []

abbrev downgrade_shipping : List Op
downgrade_shipping =
    drop_index "ix_shipments_tracking_number"
    ∷ drop_index "ix_shipments_order_id"
    ∷ drop_table "shipments"
    ∷ []

abbrev pub upgrade : Service → List Op
upgrade gateway = upgrade_gateway
upgrade inventory = upgrade_inventory
upgrade notification = upgrade_notification
upgrade order = upgrade_order
upgrade shipping = upgrade_shipping

abbrev pub downgrade : Service → List Op
downgrade gateway = downgrade_gateway
downgrade inventory = downgrade_inventory
downgrade notification = downgrade_notification
downgrade order = downgrade_order
downgrade shipping = downgrade_shipping
