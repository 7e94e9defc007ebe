-- ===== src/Schema/Agreement.antt =====
-- services/*/alembic/versions/0001_initial.py beside services/*/app/models.py.
use Prim.Native.String.{◌++◌ as cat}
use mathlib.Core.List.{Perm}
use mathlib.Core.List.Perm
use ordermesh.Prelude.{String, ◌≡◌, refl, List, [], ◌∷◌, ◌++◌, map, if◌then◌else◌}
use ordermesh.Schema.{Column, Index, no_default, Op, create_table, create_index}
use ordermesh.Schema.Migrations.{
  Service, gateway, inventory, notification, order, shipping, upgrade,
}
use ordermesh.Schema.Models.{Mapped, Model, metadata}

-- A column's default in the database may stand for one that Python gives, so it is left aside.
abbrev shape : Column → Column
shape c = record c { server_default = no_default }

abbrev pub created_tables : List Op → List (String × List Column)
created_tables [] = []
created_tables (create_table name columns ∷ ops) = (name, map shape columns) ∷ created_tables ops
created_tables (_ ∷ ops) = created_tables ops

abbrev pub created_indexes : List Op → List Index
created_indexes [] = []
created_indexes (create_index i ∷ ops) = i ∷ created_indexes ops
created_indexes (_ ∷ ops) = created_indexes ops

-- The index of a declared column, with the name that SQLAlchemy gives it.
abbrev index_of : String → Mapped → Index
index_of table m = record {
  name = cat "ix_" (cat table (cat "_" m.column.name));
  table = table;
  columns = m.column.name ∷ [];
  unique = m.unique;
}

abbrev indexes_of : String → List Mapped → List Index
indexes_of table [] = []
indexes_of table (m ∷ ms) =
    if m.index then index_of table m ∷ indexes_of table ms else indexes_of table ms

abbrev pub declared_indexes : List Model → List Index
declared_indexes [] = []
declared_indexes (m ∷ ms) = indexes_of m.tablename m.columns ++ declared_indexes ms

-- The same tables, each with the same columns in some order.
abbrev pub SameTables : List (String × List Column) → List Model → Type 0
SameTables [] [] = Unit
SameTables [] (m ∷ ms) = ⊥
SameTables (t ∷ ts) [] = ⊥
SameTables (t ∷ ts) (m ∷ ms) =
    (t.0 ≡ m.tablename) × Perm t.1 (map (λ c. shape c.column) m.columns) × SameTables ts ms

-- The migration of every service creates the tables that its models declare, each with the same
-- columns (their types, keys and what may be null included, their defaults in the database left
-- aside), and exactly the indexes that they declare, unique where they say so.
pub upgrade_agrees :
    (service : Service)
    → SameTables (created_tables (upgrade service)) (metadata service)
      × (created_indexes (upgrade service) ≡ declared_indexes (metadata service))
upgrade_agrees gateway = ((refl, Perm.refl _, tt), refl)
upgrade_agrees inventory = ((refl, Perm.refl _, (refl, Perm.refl _, tt)), refl)
upgrade_agrees notification = (
  (
    refl,
    Perm.cons _ (Perm.cons _ (Perm.cons _ (Perm.cons _ (Perm.cons _ (Perm.swap _ _ []))))),
    tt,
  ),
  refl,
)
upgrade_agrees order = ((refl, Perm.refl _, (refl, Perm.refl _, tt)), refl)
upgrade_agrees shipping = ((refl, Perm.refl _, tt), refl)
