-- ===== src/Schema.antt =====
-- Tables, their columns and their keys (src/schema.h).
pub mod ColumnTypes
pub mod Ids
pub mod PrimaryKey
pub mod Merge
pub mod Matcher
mod Tests
use Prim.Native.Char.{code}
use Prim.Native.String.{String, compare}
use package.text.Mathlib.Text.{◌==◌ as str_eq, is_lt}
use kitchen_sync.Common.{
  ◌+◌, ℕ, Bool, true, false, not, ◌&&◌, ◌||◌, Option, none, some, List, [], ◌∷◌, ◌++◌, length, take,
  ◌==◌, leb, ltb, if◌then◌else◌,
}
use kitchen_sync.Schema.ColumnTypes.{ColumnType, column_type_value}

pub data DefaultType : Type 0 where
  no_default default_value generated_by_sequence : DefaultType
  generated_by_default_as_identity generated_always_as_identity : DefaultType
  default_expression generated_always_virtual generated_always_stored : DefaultType

abbrev pub default_type_value : DefaultType → ℕ
default_type_value DefaultType.no_default = 0
default_type_value DefaultType.default_value = 1
default_type_value DefaultType.generated_by_sequence = 64
default_type_value DefaultType.generated_by_default_as_identity = 65
default_type_value DefaultType.generated_always_as_identity = 66
default_type_value DefaultType.default_expression = 127
default_type_value DefaultType.generated_always_virtual = 128
default_type_value DefaultType.generated_always_stored = 129

pub data AutoUpdateType : Type 0 where
  no_auto_update current_timestamp : AutoUpdateType

abbrev auto_update_value : AutoUpdateType → ℕ
auto_update_value no_auto_update = 0
auto_update_value current_timestamp = 1

pub record Column : Type 0 where
  pub name : String
  pub nullable : Bool
  pub column_type : ColumnType
  pub size : ℕ
  pub scale : ℕ
  pub default_type : DefaultType
  pub default_value : String
  pub auto_update_type : AutoUpdateType
  pub subtype : String
  pub reference_system : String
  pub enumeration_values : List String
  pub filter_expression : String

abbrev pub equal_lists {ℓ} : {A : Type ℓ} → (A → A → Bool) → List A → List A → Bool
equal_lists eq [] [] = true
equal_lists eq [] (y ∷ ys) = false
equal_lists eq (x ∷ xs) [] = false
equal_lists eq (x ∷ xs) (y ∷ ys) = eq x y && equal_lists eq xs ys

abbrev pub equal_flags : Bool → Bool → Bool
equal_flags a b = if a then b else not b

abbrev pub str_less : String → String → Bool
str_less s t = is_lt (compare s t)

-- Column::operator ==, which leaves filter_expression out.
pub column_eq : Column → Column → Bool
column_eq c d =
    str_eq c.name d.name
    && equal_flags c.nullable d.nullable
    && column_type_value c.column_type == column_type_value d.column_type
    && c.size == d.size
    && c.scale == d.scale
    && default_type_value c.default_type == default_type_value d.default_type
    && str_eq c.default_value d.default_value
    && auto_update_value c.auto_update_type == auto_update_value d.auto_update_type
    && str_eq c.subtype d.subtype
    && str_eq c.reference_system d.reference_system
    && equal_lists str_eq c.enumeration_values d.enumeration_values

abbrev pub generated_always : Column → Bool
generated_always c =
    leb (default_type_value DefaultType.generated_always_virtual)
      (default_type_value c.default_type)

pub data KeyType : Type 0 where
  unique_key standard_key spatial_key : KeyType

abbrev pub key_type_value : KeyType → ℕ
key_type_value unique_key = 0
key_type_value standard_key = 1
key_type_value spatial_key = 2

pub record Key : Type 0 where
  pub name : String
  pub key_type : KeyType
  pub columns : List ℕ

abbrev pub is_unique : Key → Bool
is_unique key = key_type_value key.key_type == 0

abbrev pub key_less : Key → Key → Bool
key_less k l =
    if not (key_type_value k.key_type == key_type_value l.key_type)
    then ltb (key_type_value k.key_type) (key_type_value l.key_type)
    else str_less k.name l.name

pub key_eq : Key → Key → Bool
key_eq k l =
    str_eq k.name l.name
    && key_type_value k.key_type == key_type_value l.key_type
    && equal_lists (λ a b. a == b) k.columns l.columns

pub data PrimaryKeyType : Type 0 where
  no_available_key explicit_primary_key suitable_unique_key entire_row_as_key : PrimaryKeyType

abbrev pub is_explicit : PrimaryKeyType → Bool
is_explicit explicit_primary_key = true
is_explicit _ = false

-- The Table of the schema; its rows are those of `Table`.
pub record TableSchema : Type 0 where
  pub schema_name : String
  pub name : String
  pub columns : List Column
  pub primary_key_columns : List ℕ
  pub primary_key_type : PrimaryKeyType
  pub keys : List Key
  pub where_conditions : String

abbrev pub table_less : TableSchema → TableSchema → Bool
table_less t u =
    if str_eq t.schema_name u.schema_name
    then str_less t.name u.name
    else str_less t.schema_name u.schema_name

-- The columns of a declared primary key, which are all of its columns or none.
abbrev explicit_columns : TableSchema → List ℕ
explicit_columns t = if is_explicit t.primary_key_type then t.primary_key_columns else []

pub same_primary_key_as : TableSchema → TableSchema → Bool
same_primary_key_as t u =
    length (explicit_columns t) == length (explicit_columns u)
    && equal_lists (λ a b. a == b) (explicit_columns t)
        (take (length (explicit_columns t)) u.primary_key_columns)

pub table_eq : TableSchema → TableSchema → Bool
unfolding column_eq key_eq same_primary_key_as
table_eq t u =
    str_eq t.schema_name u.schema_name
    && str_eq t.name u.name
    && equal_lists column_eq t.columns u.columns
    && same_primary_key_as t u
    && equal_lists key_eq t.keys u.keys

-- Table::index_of_column; none where the code throws out_of_range.
pub index_of_column : String → List Column → Option ℕ
index_of_column name [] = none
index_of_column name (c ∷ columns) =
    let rest = index_of_column name columns in
    if str_eq c.name name then some 0 else elim rest [ none ↦ none | some n ↦ some (n + 1) ]

-- The character codes of a text; for ASCII, its bytes.
abbrev pub codes : String → List ℕ
codes String.[] = []
codes (String.◌∷◌ c s) = code c ∷ codes s

abbrev pub starts_with_backslash : List ℕ → Bool
starts_with_backslash [] = false
starts_with_backslash (c ∷ rest) = c == 92

-- A backslash before each `.\`, which is what `find` looks for.
unfoldable pub escape_name_for_id : List ℕ → List ℕ
escape_name_for_id [] = []
escape_name_for_id (c ∷ rest) =
    let escaped = escape_name_for_id rest in
    if c == 46 && starts_with_backslash rest then 92 ∷ c ∷ escaped else c ∷ escaped

unfoldable pub id_from_name : TableSchema → List ℕ
unfolding escape_name_for_id
id_from_name t =
    if str_eq t.schema_name ""
    then escape_name_for_id (codes t.name)
    else escape_name_for_id (codes t.schema_name) ++ (46 ∷ escape_name_for_id (codes t.name))
