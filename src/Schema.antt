-- ===== src/Schema.antt =====
-- The tables that the services' migrations create, and those that their models declare: the types
-- of alembic's operations.
pub mod Migrations
pub mod Models
pub mod Undo
pub mod Agreement
pub mod Widths
mod Tests
use mathlib.Core.List.{foldl}
use ordermesh.Prelude.{ℕ, String, Bool, Option, List}

pub data ColumnType : Type 0 where
  integer text date_time : ColumnType
  numeric : ℕ → ℕ → ColumnType
  string : ℕ → ColumnType

pub data Default : Type 0 where
  no_default now : Default
  literal : String → Default

pub record ForeignKey : Type 0 where
  pub target : String
  pub on_delete : String

pub record Column : Type 0 where
  pub name : String
  pub type : ColumnType
  pub primary_key : Bool
  pub nullable : Bool
  pub server_default : Default
  pub foreign_key : Option ForeignKey

pub record Index : Type 0 where
  pub name : String
  pub table : String
  pub columns : List String
  pub unique : Bool

pub data Op : Type 0 where
  create_table : String → List Column → Op
  create_index : Index → Op
  drop_index drop_table : String → Op

-- The operations of a migration, one after the other, on a database that executes them.
abbrev pub run : {S : Type 0} → (Op → S → S) → List Op → S → S
run execute ops s = foldl (λ t op. execute op t) s ops
