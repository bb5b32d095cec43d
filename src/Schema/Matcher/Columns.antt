-- ===== src/Schema/Matcher/Columns.antt =====
-- Matching the columns of a table (`match_columns` of src/schema_matcher.h).
pub mod Names
use Prim.Native.String.{String}
use package.text.Mathlib.Text.{◌==◌ as str_eq}
use kitchen_sync.Common.{
  ℕ, zero, suc, ◌+◌, ◌-◌, ◌≡◌, refl, Bool, true, false, not, ◌&&◌, ◌||◌, Option, none, some, List,
  [], ◌∷◌, ◌++◌, length, ◌==◌, ltb, if◌then◌else◌, map,
}
use kitchen_sync.Schema.{default_type_value, TableSchema, Column, Key, DefaultType}
use kitchen_sync.Schema.Matcher.{
  modify, alter_table, set_not_null, add_column, set_default, drop_default, drop_key, update_table,
  drop_not_null, drop_column, Traits, AlterClause, Statement, column_used_in_unique_key,
  usable_column_value,
}

-- The locals of match_columns; the columns of `to_table` are those that were matched already.
pub record ColumnMatch : Type 0 where
  pub to_table : TableSchema
  pub alter_statements : List Statement
  pub update_table_clauses : List (Column × String)
  pub alter_table_clauses : List AlterClause
  pub second_round_alter_table_clauses : List AlterClause

abbrev has_index : ℕ → List ℕ → Bool
has_index n [] = false
has_index n (m ∷ columns) = m == n || has_index n columns

-- The indices of the columns behind the one that is dropped.
pub update_indices : ℕ → List ℕ → List ℕ
update_indices column_index column_indices =
    map (λ n. if ltb column_index n then n - 1 else n) column_indices

-- The keys that a dropped column leaves, and those that go with it.
abbrev kept_keys : ℕ → List Key → List Key
kept_keys column_index [] = []
kept_keys column_index (key ∷ keys) =
    let rest = kept_keys column_index keys in
    if has_index column_index key.columns
    then rest
    else record key { columns = update_indices column_index key.columns } ∷ rest

abbrev prepend_dropped : TableSchema → ℕ → List Key → List Statement → List Statement
prepend_dropped table column_index [] statements = statements
prepend_dropped table column_index (key ∷ keys) statements =
    prepend_dropped table column_index keys
      (if has_index column_index key.columns then drop_key table key ∷ statements else statements)

-- DropColumnClauses; without a primary key the table differs and is recreated.
pub drop_column_clauses : ℕ → Column → ColumnMatch → ColumnMatch
unfolding update_indices
drop_column_clauses column_index column m =
    let table = m.to_table in
    let clauses = m.alter_table_clauses ++ (drop_column column ∷ []) in
    if has_index column_index table.primary_key_columns
    then record m {
      to_table = record table { primary_key_columns = [] };
      alter_table_clauses = clauses;
    }
    else record m {
      to_table = record table {
        primary_key_columns = update_indices column_index table.primary_key_columns;
        keys = kept_keys column_index table.keys;
      };
      alter_statements = prepend_dropped table column_index table.keys m.alter_statements;
      alter_table_clauses = clauses;
    }

-- AlterColumnNullabilityClauses; MODIFY sets the default too.
pub alter_nullability : Traits → Column → Column → Column × AlterClause
alter_nullability traits from_column to_column =
    if traits.set_nullability
    then (
      record to_column { nullable = from_column.nullable },
      if from_column.nullable then drop_not_null to_column else set_not_null to_column,
    )
    else (
      record to_column {
        nullable = from_column.nullable;
        default_type = from_column.default_type;
        default_value = from_column.default_value;
      },
      modify from_column,
    )

-- AlterColumnDefaultClauses.
abbrev is_no_default : DefaultType → Bool
is_no_default t = default_type_value t == 0

pub alter_default : Column → Column → Column × AlterClause
alter_default from_column to_column = (
  record to_column {
    default_type = from_column.default_type;
    default_value = from_column.default_value;
  },
  if is_no_default from_column.default_type
      then drop_default to_column
      else set_default from_column,
)

abbrev is_settable_default : DefaultType → Bool
is_settable_default t =
    is_no_default t
    || default_type_value t == default_type_value DefaultType.default_value
    || default_type_value t == default_type_value DefaultType.default_expression

abbrev same_default : Column → Column → Bool
same_default c d =
    default_type_value c.default_type == default_type_value d.default_type
    && str_eq c.default_value d.default_value

abbrev push_column : Column → TableSchema → TableSchema
push_column column table = record table { columns = table.columns ++ (column ∷ []) }

-- A column of the same name on both sides: first whether it may be NULL, then its default.
pub match_nullability :
    Traits → TableSchema → ℕ → Column → Column → ColumnMatch → Column × ColumnMatch
unfolding alter_nullability
match_nullability traits from_table column_index from_column to_column m =
    let (altered, clause) = alter_nullability traits from_column to_column in
    let clauses = m.alter_table_clauses ++ (clause ∷ []) in
    if from_column.nullable && not to_column.nullable
    then (altered, record m { alter_table_clauses = clauses })
    else if not from_column.nullable
        && to_column.nullable
        && not (column_used_in_unique_key from_table.keys column_index)
    then (
      altered,
      record m {
        update_table_clauses =
            m.update_table_clauses ++ ((to_column, usable_column_value to_column) ∷ []);
        alter_table_clauses = clauses;
      },
    )
    else (to_column, m)

pub match_default : Column → Column × ColumnMatch → Column × ColumnMatch
unfolding alter_default
match_default from_column (to_column, m) =
    let (altered, clause) = alter_default from_column to_column in
    if not (same_default from_column to_column) && is_settable_default from_column.default_type
    then (altered, record m { alter_table_clauses = m.alter_table_clauses ++ (clause ∷ []) })
    else (to_column, m)

abbrev keep_column : Column × ColumnMatch → ColumnMatch
keep_column (column, m) = record m { to_table = push_column column m.to_table }

-- The first loop, over the target's columns, with the source's columns that are left.
pub match_existing :
    Traits → TableSchema → List Column → List Column → ℕ → ColumnMatch → List Column × ColumnMatch
unfolding drop_column_clauses match_nullability match_default
match_existing traits from_table [] from_columns column_index m = (from_columns, m)
match_existing traits from_table (to_column ∷ to_columns) [] column_index m =
    match_existing traits from_table to_columns [] column_index
      (drop_column_clauses column_index to_column m)
match_existing traits from_table (to_column ∷ to_columns) (from_column ∷ from_columns) column_index
      m =
    let dropped =
      match_existing traits from_table to_columns (from_column ∷ from_columns) column_index
        (drop_column_clauses column_index to_column m) in
    let kept = match_existing traits from_table to_columns from_columns (column_index + 1) (
      keep_column (
        match_default from_column
          (match_nullability traits from_table column_index from_column to_column m))) in
    if str_eq to_column.name from_column.name then kept else dropped

-- AddColumnClauses; without support for it a column that may not be NULL gets its default in the
-- second round.
pub add_column_clauses : Traits → Column → ColumnMatch → ColumnMatch
unfolding alter_default
add_column_clauses traits column m =
    let table = push_column column m.to_table in
    let simple =
      column.nullable
      || default_type_value column.default_type == default_type_value DefaultType.default_value
      || default_type_value column.default_type
        == default_type_value DefaultType.default_expression in
    let temp = record column {
      default_type = DefaultType.default_value;
      default_value = usable_column_value column;
    } in
    let (_, clause) = alter_default column temp in
    if traits.add_non_nullable_columns || simple
    then record m {
      to_table = table;
      alter_table_clauses = m.alter_table_clauses ++ (add_column column ∷ []);
    }
    else record m {
      to_table = table;
      alter_table_clauses = m.alter_table_clauses ++ (add_column temp ∷ []);
      second_round_alter_table_clauses = m.second_round_alter_table_clauses ++ (clause ∷ []);
    }

abbrev statement_of : {A : Type 0} → (List A → Statement) → List A → List Statement
statement_of f [] = []
statement_of f (x ∷ clauses) = f (x ∷ clauses) ∷ []

-- The statements of the clauses that were collected.
abbrev finish_columns : ColumnMatch → List Statement × TableSchema
finish_columns m = (
  m.alter_statements
      ++ statement_of (update_table m.to_table) m.update_table_clauses
      ++ statement_of (alter_table m.to_table) m.alter_table_clauses
      ++ statement_of (alter_table m.to_table) m.second_round_alter_table_clauses,
  m.to_table,
)

abbrev pub must_recreate : TableSchema → ℕ → Column → Bool
must_recreate from_table column_index column =
    not column.nullable && column_used_in_unique_key from_table.keys column_index

-- The second loop, over the source's columns that the target does not have. It gives up at a column of
-- a key that may not be NULL.
pub add_columns :
    Traits → TableSchema → List Column → ℕ → ColumnMatch → List Statement × TableSchema
unfolding add_column_clauses
add_columns traits from_table [] column_index m = finish_columns m
add_columns traits from_table (column ∷ columns) column_index m =
    let rest =
      add_columns traits from_table columns (column_index + 1)
        (add_column_clauses traits column m) in
    if must_recreate from_table column_index column then (m.alter_statements, m.to_table) else rest

pub match_columns :
    Traits → TableSchema → List Statement × TableSchema → List Statement × TableSchema
unfolding match_existing add_columns
match_columns traits from_table (alter_statements, to_table) =
    let (from_columns, m) =
      match_existing traits from_table to_table.columns from_table.columns 0 record {
        to_table = record to_table { columns = [] };
        alter_statements = alter_statements;
        update_table_clauses = [];
        alter_table_clauses = [];
        second_round_alter_table_clauses = [];
      } in
    add_columns traits from_table from_columns (length m.to_table.columns) m
