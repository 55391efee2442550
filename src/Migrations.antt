-- ===== src/Migrations.antt =====
-- migrations/versions: the changes of the schema, as the operations that they hand to Alembic.
pub mod Tables
mod Steps
pub mod Initial
pub mod Later
use text.Mathlib.Text.{◌==◌ as str_eq}
use razor_pay.Prelude.{ℕ, String, Bool, true, false, Option, none, some, List, [], ◌∷◌, ◌≡◌, exists}

pub data ColumnType : Type 0 where
  uuid_type json_type time_type integer_type : ColumnType
  string_type : Option ℕ → ColumnType
  numeric_type : ℕ → ℕ → ColumnType
  enum_type : List String → String → ColumnType

-- `has_default` says that there is a `server_default`, which is always CURRENT_TIMESTAMP.
pub record Column : Type 0 where
  pub name : String
  pub type : ColumnType
  pub nullable : Bool
  pub has_default : Bool

abbrev pub required : String → ColumnType → Column
required name type = record { name = name; type = type; nullable = false; has_default = false }

abbrev pub optional : String → ColumnType → Column
optional name type = record { name = name; type = type; nullable = true; has_default = false }

abbrev pub defaulted : String → ColumnType → Column
defaulted name type = record { name = name; type = type; nullable = false; has_default = true }

pub data Constraint : Type 0 where
  primary_key : String → Constraint
  unique_key : Option String → List String → Constraint
  foreign_key : String → String → String → Constraint

pub record Table : Type 0 where
  pub name : String
  pub columns : List Column
  pub constraints : List Constraint

-- `condition` is `postgresql_where`.
pub record Index : Type 0 where
  pub name : String
  pub table : String
  pub columns : List String
  pub unique : Bool
  pub condition : Option String

-- What is dropped is named by its table and its name, a type by its name; `cascade` is said of a type.
pub data Operation : Type 0 where
  create_table : Table → Operation
  create_index : Index → Operation
  create_check_constraint : String → String → String → Operation
  add_column : String → Column → Operation
  drop_table : String → Operation
  drop_index drop_constraint drop_column : String → String → Operation
  drop_type : String → Bool → Operation

-- The database that the operations run on: `step` is what one of them does to its schema, or nothing
-- where the database refuses it, which ends the migration and undoes it.
pub record Database : Type 1 where
  pub Schema : Type 0
  pub step : Operation → Schema → Option Schema
  pub uses : Schema → String → Bool

module _ (db : Database) where
  abbrev pub bind : Option db.Schema → (db.Schema → Option db.Schema) → Option db.Schema
  bind none f = none
  bind (some s) f = f s

  unfoldable pub migrate : List Operation → db.Schema → Option db.Schema
  migrate [] s = some s
  migrate (o ∷ ops) s = bind (db.step o s) (migrate ops)

abbrev pub is_enum : String → Column → Bool
is_enum type_name c = elim c.type [ ColumnType.enum_type values n ↦ str_eq n type_name | _ ↦ false ]

-- The operation creates a table with a column of the type.
abbrev pub creates_use : String → Operation → Bool
creates_use type_name (Operation.create_table t) = exists (is_enum type_name) t.columns
creates_use type_name _ = false

abbrev pub is_create : Operation → Bool
is_create (Operation.create_table t) = true
is_create (Operation.create_index i) = true
is_create (Operation.create_check_constraint n t c) = true
is_create (Operation.add_column t c) = true
is_create _ = false

-- What drops an index, a check or a column that an operation creates.
abbrev pub undo : Operation → Option Operation
undo (Operation.create_index i) = some (Operation.drop_index i.table i.name)
undo (Operation.create_check_constraint n t c) = some (Operation.drop_constraint t n)
undo (Operation.add_column t c) = some (Operation.drop_column t c.name)
undo _ = none

-- The documented behaviour of the database that the migrations rely on: dropping what has just been
-- created restores the schema, the type of a column is in use from the creation of its table on,
-- nothing that is created ends that, and DROP TYPE without CASCADE refuses a type in use.
pub record Behaves (db : Database) : Type 0 where
  pub restores :
      (o u : Operation) {s t : db.Schema}
      → undo o ≡ some u
      → db.step o s ≡ some t
      → db.step u t ≡ some s
  pub begins_use :
      (n : String) (o : Operation) {s t : db.Schema}
      → creates_use n o ≡ true
      → db.step o s ≡ some t
      → db.uses t n ≡ true
  pub keeps_use :
      (n : String) (o : Operation) {s t : db.Schema}
      → is_create o ≡ true
      → db.step o s ≡ some t
      → db.uses s n ≡ true
      → db.uses t n ≡ true
  pub refuses :
      (n : String) {s : db.Schema}
      → db.uses s n ≡ true
      → db.step (Operation.drop_type n false) s ≡ none
