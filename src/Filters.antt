-- ===== src/Filters.antt =====
-- The filters that a user gives for some tables (src/filters.cpp, src/filters.h): an expression in
-- place of some columns, and a condition on the rows. A map is a list of pairs with distinct keys, and
-- none the error filter_definition_error.
pub mod Expressions
pub mod Apply
mod Tests
use Prim.Native.String.{String}
use package.text.Mathlib.Text.{◌==◌ as str_eq}
use kitchen_sync.Common.{
  ℕ, Bool, true, false, not, ◌||◌, Option, none, some, List, [], ◌∷◌, if◌then◌else◌, ◌>>=◌, ◌==◌,
}
use kitchen_sync.Schema.{TableSchema, Column, id_from_name, codes, equal_lists}
use kitchen_sync.Schema.PrimaryKey.{column_at}

pub record TableFilter : Type 0 where
  pub where_conditions : String
  pub filter_expressions : List (String × String)

abbrev pub replace_column : String → Column → Column
replace_column expression c = record c { filter_expression = expression }

-- The last column with a name is meant, as in a map that is filled from the first to the last.
abbrev behind_or :
    Option (List Column) → Bool → String → Column → List Column → Option (List Column)
behind_or (some rest) found expression c columns = some (c ∷ rest)
behind_or none found expression c columns =
    if found then some (replace_column expression c ∷ columns) else none

-- `columns_by_name[column_name]->filter_expression = filter_expression`.
unfoldable pub set_filter_expression : String → String → List Column → Option (List Column)
set_filter_expression name expression [] = none
set_filter_expression name expression (c ∷ columns) =
    behind_or (set_filter_expression name expression columns) (str_eq c.name name) expression c
      columns

unfoldable pub set_filter_expressions : List (String × String) → List Column → Option (List Column)
unfolding set_filter_expression
set_filter_expressions [] columns = some columns
set_filter_expressions ((name, expression) ∷ expressions) columns =
    set_filter_expression name expression columns >>= set_filter_expressions expressions

-- An index out of range is refused, where the source has no check.
abbrev is_replaced : Option Column → Bool
is_replaced none = true
is_replaced (some c) = not (str_eq c.filter_expression "")

abbrev pub any_replaced : List Column → List ℕ → Bool
any_replaced columns [] = false
any_replaced columns (n ∷ ns) = is_replaced (column_at n columns) || any_replaced columns ns

unfoldable pub apply_filter : TableFilter → TableSchema → Option TableSchema
unfolding set_filter_expressions
apply_filter f table = set_filter_expressions f.filter_expressions table.columns >>= λ columns.
    if any_replaced columns table.primary_key_columns
    then none
    else some (record table { where_conditions = f.where_conditions; columns = columns })

-- What is changed when one is refused: the columns before the one that is not there.
abbrev set_or : List Column → (List Column → List Column) → Option (List Column) → List Column
set_or columns rest none = columns
set_or columns rest (some set) = rest set

abbrev set_partly : List (String × String) → List Column → List Column
set_partly [] columns = columns
set_partly ((name, expression) ∷ expressions) columns =
    set_or columns (set_partly expressions) (set_filter_expression name expression columns)

abbrev filtered_partly : TableFilter → TableSchema → TableSchema
filtered_partly f table = record table {
  where_conditions = f.where_conditions;
  columns = set_partly f.filter_expressions table.columns;
}

abbrev pub has_id : String → TableSchema → Bool
has_id id table = equal_lists (λ m n. m == n) (id_from_name table) (codes id)

abbrev pub has_table : String → List TableSchema → Bool
has_table id [] = false
has_table id (table ∷ tables) = has_id id table || has_table id tables

unfoldable pub filter_table : String → TableFilter → List TableSchema → Option (List TableSchema)
unfolding apply_filter
filter_table id f [] = none
filter_table id f (table ∷ tables) =
    let rest = filter_table id f tables in
    let applied = if has_id id table then apply_filter f table else none in
    if has_table id tables
    then (rest >>= λ tables. some (table ∷ tables))
    else (applied >>= λ table. some (table ∷ tables))

unfoldable pub apply_filters :
    List (String × TableFilter) → List TableSchema → Option (List TableSchema)
unfolding filter_table
apply_filters [] tables = some tables
apply_filters ((id, f) ∷ filters) tables = filter_table id f tables >>= apply_filters filters

abbrev filter_table_partly : String → TableFilter → List TableSchema → List TableSchema
filter_table_partly id f [] = []
filter_table_partly id f (table ∷ tables) =
    let rest = filter_table_partly id f tables in
    if has_table id tables
    then table ∷ rest
    else ((if has_id id table then filtered_partly f table else table) ∷ tables)

-- The tables when a filter was refused: they are changed in place up to there.
abbrev filtered_or :
    (List TableSchema → List TableSchema)
    → List TableSchema
    → Option (List TableSchema)
    → List TableSchema
filtered_or rest partly none = partly
filtered_or rest partly (some filtered) = rest filtered

abbrev pub apply_filters_partly : List (String × TableFilter) → List TableSchema → List TableSchema
apply_filters_partly [] tables = tables
apply_filters_partly ((id, f) ∷ filters) tables =
    filtered_or (apply_filters_partly filters) (filter_table_partly id f tables)
      (filter_table id f tables)
