-- ===== src/Schema/Undo.antt =====
-- services/*/alembic/versions/0001_initial.py: `downgrade` after `upgrade`.
use text.Mathlib.Text.{◌==◌ as str_eq}
use ordermesh.Prelude.{
  String, Bool, true, false, ◌&&◌, ◌≡◌, refl, List, [], ◌∷◌, All, Text, codes, ◌==◌,
}
use ordermesh.Schema.{Column, Index, Op, create_table, create_index, drop_index, drop_table, run}
use ordermesh.Schema.Migrations.{
  Service, gateway, inventory, notification, order, shipping, upgrade, downgrade, index,
  unique_index, users, products, inventory_reservations, notifications, orders, order_items,
  shipments,
}

abbrev pub is_prefix : Text → Text → Bool
is_prefix [] t = true
is_prefix (c ∷ p) [] = false
is_prefix (c ∷ p) (d ∷ t) = c == d && is_prefix p t

-- What PostgreSQL documents. `free s n`: no table or index has the name `n`. A table brings in names
-- that begin with its own (its key's index and sequence), and takes its indexes with it.
pub record IsDdl {S : Type 0} (execute : Op → S → S) (free : S → String → Type 0) : Type 0 where
  pub drop_created_table :
      (name : String) (columns : List Column) (s : S)
      → free s name
      → execute (drop_table name) (execute (create_table name columns) s) ≡ s
  pub drop_created_index :
      (i : Index) (s : S)
      → free s i.name
      → execute (drop_index i.name) (execute (create_index i) s) ≡ s
  pub drop_indexed_table :
      (i : Index) (s : S)
      → execute (drop_table i.table) (execute (create_index i) s) ≡ execute (drop_table i.table) s
  pub free_after_table :
      (name n : String) (columns : List Column) (s : S)
      → is_prefix (codes name) (codes n) ≡ false
      → free s n
      → free (execute (create_table name columns) s) n
  pub free_after_index :
      (i : Index) (n : String) (s : S)
      → str_eq i.name n ≡ false
      → str_eq i.table n ≡ false
      → free s n
      → free (execute (create_index i) s) n

-- The names that a list of operations brings in.
abbrev pub created : List Op → List String
created [] = []
created (create_table name columns ∷ ops) = name ∷ created ops
created (create_index i ∷ ops) = i.name ∷ created ops
created (drop_index name ∷ ops) = created ops
created (drop_table name ∷ ops) = created ops

module _ {S : Type 0} {execute : Op → S → S} {free : S → String → Type 0}
    (ddl : IsDdl execute free) where
  -- A table and two indexes on it, dropped in the reverse order.
  two_indexes :
      (table : String) (columns : List Column) (i j : Index) (s : S)
      → is_prefix (codes table) (codes i.name) ≡ false
      → is_prefix (codes table) (codes j.name) ≡ false
      → str_eq i.name j.name ≡ false
      → str_eq i.table j.name ≡ false
      → free s table
      → free s i.name
      → free s j.name
      → run execute
          (drop_index j.name ∷ drop_index i.name ∷ drop_table table ∷ [])
          (run execute (create_table table columns ∷ create_index i ∷ create_index j ∷ []) s)
        ≡ s
  two_indexes table columns i j s pi pj apart other free_table free_i free_j =
      let s1 = execute (create_table table columns) s in
      rw (
        ddl.drop_created_index j (execute (create_index i) s1) (
            ddl.free_after_index i j.name s1 apart other
              (ddl.free_after_table table j.name columns s pj free_j)),
        ddl.drop_created_index i s1 (ddl.free_after_table table i.name columns s pi free_i),
        ddl.drop_created_table table columns s free_table,
      )

  -- `downgrade` undoes `upgrade`, for every service: on a database without tables or indexes of
  -- these names, the migration and its inverse leave the schema as it was.
  pub run-downgrade-upgrade :
      (service : Service) (s : S)
      → All (free s) (created (upgrade service))
      → run execute (downgrade service) (run execute (upgrade service) s) ≡ s
  run-downgrade-upgrade gateway s (free_users, (free_email, _)) =
      let s1 = execute (create_table "users" users) s in
      let email = unique_index "ix_users_email" "users" "email" in
      rw (
        ddl.drop_created_index email s1
            (ddl.free_after_table "users" email.name users s refl free_email),
        ddl.drop_created_table "users" users s free_users,
      )
  run-downgrade-upgrade inventory s (free_products, (free_sku, (free_reservations, _))) =
      let s1 = execute (create_table "products" products) s in
      let sku = unique_index "ix_products_sku" "products" "sku" in
      let s2 = execute (create_index sku) s1 in
      let table : String = "inventory_reservations" in
      let s3 = execute (create_table table inventory_reservations) s2 in
      let by_product = index "ix_inventory_reservations_product_id" table "product_id" in
      let by_order = index "ix_inventory_reservations_order_id" table "order_id" in
      rw (
        ddl.drop_indexed_table by_order (execute (create_index by_product) s3),
        ddl.drop_indexed_table by_product s3,
        ddl.drop_created_table table inventory_reservations s2 (
            ddl.free_after_index sku table s1 refl refl
              (ddl.free_after_table "products" table products s refl free_reservations)),
        ddl.drop_created_index sku s1
            (ddl.free_after_table "products" sku.name products s refl free_sku),
        ddl.drop_created_table "products" products s free_products,
      )
  run-downgrade-upgrade notification s (free_notifications, (free_type, (free_order_id, _))) =
      two_indexes "notifications" notifications
        (index "ix_notifications_type" "notifications" "type")
        (index "ix_notifications_order_id" "notifications" "order_id") s refl refl refl refl
        free_notifications free_type free_order_id
  run-downgrade-upgrade order s (free_orders, (free_customer_id, (free_status, (free_items, _)))) =
      let s1 = execute (create_table "orders" orders) s in
      let by_customer = index "ix_orders_customer_id" "orders" "customer_id" in
      let by_status = index "ix_orders_status" "orders" "status" in
      let s2 = execute (create_index by_customer) s1 in
      rw (
        ddl.drop_created_table "order_items" order_items (execute (create_index by_status) s2) (
            ddl.free_after_index by_status "order_items" s2 refl refl (
              ddl.free_after_index by_customer "order_items" s1 refl refl
                (ddl.free_after_table "orders" "order_items" orders s refl free_items))),
        two_indexes "orders" orders by_customer by_status s refl refl refl refl free_orders
            free_customer_id free_status,
      )
  run-downgrade-upgrade shipping s (free_shipments, (free_order_id, (free_number, _))) =
      two_indexes "shipments" shipments
        (unique_index "ix_shipments_order_id" "shipments" "order_id")
        (unique_index "ix_shipments_tracking_number" "shipments" "tracking_number") s refl refl refl
        refl free_shipments free_order_id free_number
