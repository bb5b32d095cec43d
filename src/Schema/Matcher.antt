-- ===== src/Schema/Matcher.antt =====
-- Changing the target's tables into the source's (src/schema_matcher.h). A statement is kept as what it
-- does and to what; `to_table` is changed as the code changes it, to follow what the statements do.
pub mod Columns
pub mod Tables
pub mod Keys
use Prim.Native.String.{String}
use package.text.Mathlib.Text.{◌==◌ as str_eq}
use kitchen_sync.Common.{
  ℕ, zero, suc, ◌+◌, ◌-◌, ◌≡◌, refl, Bool, true, false, not, ◌&&◌, ◌||◌, Option, none, some, List,
  [], ◌∷◌, ◌++◌, length, ◌==◌, ltb, if◌then◌else◌,
}
use kitchen_sync.Schema.{
  TableSchema, Column, Key, DefaultType, PrimaryKeyType, column_eq, key_less, table_less, table_eq,
  equal_lists, default_type_value,
}
use kitchen_sync.Schema.ColumnTypes.{ColumnType}
use kitchen_sync.Schema.Merge.{
  match_both, create_missing, drop_extra, MergeAction, sort_by, merge, sources,
}

-- SequenceColumns, SetNullability and SupportsAddNonNullableColumns of the client's traits.
pub record Traits : Type 0 where
  pub sequence_columns : Bool
  pub set_nullability : Bool
  pub add_non_nullable_columns : Bool

pub data AlterClause : Type 0 where
  drop_column set_default drop_default modify drop_not_null set_not_null add_column :
      Column → AlterClause

pub data Statement : Type 0 where
  drop_key create_key : TableSchema → Key → Statement
  drop_table create_table : TableSchema → Statement
  drop_sequence create_sequence own_sequence : TableSchema → Column → Statement
  alter_table : TableSchema → List AlterClause → Statement
  -- The columns whose NULLs are overwritten, with the values.
  update_table : TableSchema → List (Column × String) → Statement
  comment_on : TableSchema → Statement

abbrev is_sequence : Column → Bool
is_sequence c =
    default_type_value c.default_type == default_type_value DefaultType.generated_by_sequence

abbrev sequence_statements : (Column → List Statement) → List Column → List Statement
sequence_statements f [] = []
sequence_statements f (c ∷ columns) =
    let rest = sequence_statements f columns in if is_sequence c then f c ++ rest else rest

abbrev create_keys : TableSchema → List Key → List Statement
create_keys table [] = []
create_keys table (key ∷ keys) = create_key table key ∷ create_keys table keys

-- CreateTableStatements, with the sequences of a client that has them.
pub create_table_statements : Traits → TableSchema → List Statement
create_table_statements traits table =
    let created =
      sequence_statements (λ c. drop_sequence table c ∷ create_sequence table c ∷ [])
        table.columns in
    let owned = sequence_statements (λ c. own_sequence table c ∷ []) table.columns in
    (if traits.sequence_columns then created else [])
    ++ (create_table table ∷ create_keys table table.keys)
    ++ (if traits.sequence_columns then owned else [])

-- Keys: those only the source has are created first, the rest is appended. The comparison of the
-- iterators never holds, so that a key of the same name is always recreated.
unfoldable pub key_statements :
    TableSchema → TableSchema → List (MergeAction Key) → List Statement → List Statement
key_statements from_table to_table [] statements = statements
key_statements from_table to_table (drop_extra key ∷ actions) statements =
    key_statements from_table to_table actions (statements ++ (drop_key to_table key ∷ []))
key_statements from_table to_table (create_missing key ∷ actions) statements =
    key_statements from_table to_table actions (create_key to_table key ∷ statements)
key_statements from_table to_table (match_both from_key to_key ∷ actions) statements =
    key_statements from_table to_table actions
      (statements ++ (drop_key from_table to_key ∷ create_key from_table from_key ∷ []))

pub match_keys : TableSchema → List Statement × TableSchema → List Statement × TableSchema
unfolding key_statements
match_keys from_table (alter_statements, to_table) =
    let actions = merge (λ (k : Key). k.name) to_table.keys from_table.keys in
    if equal_lists column_eq from_table.columns to_table.columns
    then (
      alter_statements ++ key_statements from_table to_table actions [],
      record to_table { keys = sources (λ (k : Key). k.name) actions },
    )
    else (alter_statements, to_table)

-- OverwriteColumnNullValueClauses::usable_column_value.
pub usable_column_value : Column → String
usable_column_value column = value column.column_type
  where
    first_of : List String → String
    first_of [] = ""
    first_of (v ∷ values) = v

    value : ColumnType → String
    value ColumnType.binary = ""
    value ColumnType.text = ""
    value ColumnType.text_varchar = ""
    value ColumnType.text_fixed = ""
    value ColumnType.date = "2000-01-01"
    value ColumnType.time = "00:00:00"
    value ColumnType.datetime = "2000-01-01 00:00:00"
    value ColumnType.uuid = "00000000-0000-0000-0000-000000000000"
    value ColumnType.enumeration = first_of column.enumeration_values
    value ColumnType.boolean = "false"
    value _ = "0"

abbrev pub key_contains : ℕ → List ℕ → Bool
key_contains column_index [] = false
key_contains column_index (n ∷ columns) = n == column_index || key_contains column_index columns

abbrev pub column_used_in_unique_key : List Key → ℕ → Bool
column_used_in_unique_key [] column_index = false
column_used_in_unique_key (key ∷ keys) column_index =
    key_contains column_index key.columns || column_used_in_unique_key keys column_index
