-- ===== src/Migrations.antt =====
-- The scripts of alembic/versions/*.py as lists of operations, and what the operations do to the
-- columns of tables and to the enumeration types: `CREATE` asks for a free name, all else for the
-- table or type that it names, and a table that is dropped leaves the types of its columns behind, as
-- PostgreSQL's documentation has it. Here constraints and indexes are checked as far as the tables and
-- the columns of an index go; Named keeps them by name.
pub mod Early
pub mod Late
pub mod Chain
pub mod Declared
pub mod Revised
pub mod Head
pub mod Undone
pub mod Again
pub mod Named
pub mod Constraints
use Prim.Native.String.{String}
use package.text.Mathlib.Text.{◌==◌}
use banking_payments_api.Prelude.{
  ℕ, Bool, given, true, false, not, ◌||◌, Option, none, some, List, [], ◌∷◌, ◌++◌, map,
  if◌then◌else◌,
}
use banking_payments_api.Prelude.Lists.{select}

pub data ColumnType : Type 0 where
  uuid boolean integer text date_time : ColumnType
  varchar : ℕ → ColumnType
  numeric : (precision scale : ℕ) → ColumnType
  -- `sa.Enum(…, name=…)`
  enum : (name : String) → List String → ColumnType

pub record Column : Type 0 where
  pub name : String
  pub type : ColumnType
  pub nullable : Bool
  pub server_default : Option String

-- `sa.Column(…, nullable=False)`, `sa.Column(…, nullable=True)`, and the times that the server sets
abbrev pub required : String → ColumnType → Column
required name type = record { name = name; type = type; nullable = false; server_default = none }

abbrev pub optional : String → ColumnType → Column
optional name type = record { name = name; type = type; nullable = true; server_default = none }

abbrev pub stamped : String → Column
stamped name = record {
  name = name;
  type = date_time;
  nullable = false;
  server_default = some "now()";
}

pub data Constraint : Type 0 where
  primary_key unique : (name : String) → List String → Constraint
  foreign_key :
      (name : String) (columns : List String) (table : String) (referred : List String)
      (ondelete : String)
      → Constraint

-- The functions of `alembic.op` that the scripts call.
pub data Operation : Type 0 where
  create_table : (name : String) → List Column → List Constraint → Operation
  drop_table : (name : String) → Operation
  create_index : (name table : String) → List String → (unique : Bool) → Operation
  drop_index : (name table : String) → Operation
  add_column : (table : String) → Column → Operation
  drop_column : (table column : String) → Operation
  create_foreign_key : (table : String) → Constraint → Operation
  drop_constraint : (name table : String) → Operation
  -- `ALTER TYPE … ADD VALUE IF NOT EXISTS …`
  add_value : (type value : String) → Operation

pub record Schema : Type 0 where
  pub columns : String → Option (List Column)
  pub values : String → Option (List String)

module _ {A : Type 0} where
  abbrev pub assign : String → Option A → (String → Option A) → String → Option A
  assign k v f j = if j == k then v else f j

-- what asks for a free name
abbrev pub when_free : {A B : Type 0} → Option A → Option B → Option B
when_free none after = after
when_free (some _) after = none

abbrev pub among : String → List String → Bool
among x [] = false
among x (y ∷ ys) = (x == y) || among x ys

abbrev pub names : List Column → List String
names [] = []
names (c ∷ cs) = c.name ∷ names cs

abbrev pub all_among : List String → List String → Bool
all_among [] ys = true
all_among (x ∷ xs) ys = if among x ys then all_among xs ys else false

-- A column of an enumeration names the type, whose members the type has.
abbrev pub stored : Column → Column
stored c = record c { type = elim c.type [ enum name members ↦ enum name [] | other ↦ other ] }

-- `CREATE TYPE` for the enumerations among the columns
create_types :
    List Column → (String → Option (List String)) → Option (String → Option (List String))
create_types [] values = some values
create_types (c ∷ cs) values = elim c.type [
  | enum name members ↦
      when_free (values name) (create_types cs (assign name (some members) values))
  | _ ↦ create_types cs values
]

-- a change of the columns of a table
alter : String → (List Column → Option (List Column)) → Schema → Option Schema
alter table change s = given (s.columns table) (λ cols.
    given (change cols)
      (λ cols'. some (record s { columns = assign table (some cols') s.columns })))

-- what asks for a table, and changes no column
has_table : String → Schema → Option Schema
has_table table s = given (s.columns table) (λ _. some s)

unfoldable pub perform : Operation → Schema → Option Schema
unfolding create_types alter has_table
perform (create_table name cols _) s = when_free (s.columns name) (
    given (create_types cols s.values) (λ values.
      some (record { columns = assign name (some (map stored cols)) s.columns; values = values })))
perform (drop_table name) s =
    given (s.columns name) (λ _. some (record s { columns = assign name none s.columns }))
perform (create_index _ table cols _) s =
    given (s.columns table) (λ present. if all_among cols (names present) then some s else none)
perform (drop_index _ table) s = has_table table s
perform (add_column table c) s =
    alter table (λ cols. if among c.name (names cols) then none else some (cols ++ (c ∷ []))) s
perform (drop_column table column) s =
    alter table
      (λ cols.
        if among column (names cols)
        then some (select (λ c. not (c.name == column)) cols)
        else none)
      s
perform (create_foreign_key table _) s = has_table table s
perform (drop_constraint _ table) s = has_table table s
perform (add_value type value) s = given (s.values type) (λ members. some (
    if among value members
    then s
    else record s { values = assign type (some (members ++ (value ∷ []))) s.values }))

unfoldable pub perform_all : List Operation → Schema → Option Schema
perform_all [] s = some s
perform_all (o ∷ os) s = given (perform o s) (perform_all os)
