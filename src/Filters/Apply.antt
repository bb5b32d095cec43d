-- ===== src/Filters/Apply.antt =====
-- What filters do to a table.
use Prim.Native.String.{String}
use package.text.Mathlib.Text.{◌==◌ as str_eq}
use package.text.Mathlib.TextEquality.{eq_iff}
use kitchen_sync.Common.{
  All, ℕ, ◌⊎◌, Option-cases, ◌≡◌, refl, inl, inr, true, false, not, Bool-cases, none, some, List,
  [], ◌∷◌, map, if◌then◌else◌,
}
use kitchen_sync.Schema.{TableSchema, Column}
use kitchen_sync.Schema.PrimaryKey.{column_at}
use kitchen_sync.Filters.Expressions.{
  have_distinct_names, filtered_column, all_found, ||-false, not-false, set_filter_expressions_lem,
}
use kitchen_sync.Filters.{TableFilter, any_replaced, apply_filter}

-- The expression that the filter has for a name, or the one that was there.
abbrev pub expression_for : List (String × String) → String → String → String
expression_for [] column old = old
expression_for ((name, expression) ∷ expressions) column old =
    expression_for expressions column (if str_eq column name then expression else old)

abbrev pub with_expressions : List (String × String) → List Column → List Column
with_expressions expressions [] = []
with_expressions expressions (c ∷ columns) =
    record c { filter_expression = expression_for expressions c.name c.filter_expression }
    ∷ with_expressions expressions columns

filtered_column_lem :
    (expressions : List (String × String)) (c : Column)
    → filtered_column expressions c
      ≡ record c { filter_expression = expression_for expressions c.name c.filter_expression }
filtered_column_lem [] c = refl
filtered_column_lem ((name, expression) ∷ expressions) c = elim (Bool-cases (str_eq c.name name)) [
  | inl e ↦ rw e (filtered_column_lem expressions (record c { filter_expression = expression }))
  | inr e ↦ rw e (filtered_column_lem expressions c)
]

map-filtered_column :
    (expressions : List (String × String)) (columns : List Column)
    → map (filtered_column expressions) columns ≡ with_expressions expressions columns
map-filtered_column expressions [] = refl
map-filtered_column expressions (c ∷ columns) =
    rw (filtered_column_lem expressions c, map-filtered_column expressions columns) refl

-- There is a column at the index, and it has no expression.
abbrev pub IsKept : List Column → ℕ → Type 0
IsKept columns n = (c : Column) × (column_at n columns ≡ some c) × (c.filter_expression ≡ "")

any_replaced-true :
    (columns : List Column) (ns : List ℕ)
    → any_replaced columns ns ≡ true
    → ¬ All (IsKept columns) ns
any_replaced-true columns [] e h = absurd (cc)
any_replaced-true columns (n ∷ ns) e ((c, found, kept), rest) =
    any_replaced-true columns ns (rw (found, kept) at e) rest

any_replaced-false :
    (columns : List Column) (ns : List ℕ)
    → any_replaced columns ns ≡ false
    → All (IsKept columns) ns
any_replaced-false columns [] e = tt
any_replaced-false columns (n ∷ ns) e = elim (Option-cases (column_at n columns)) [
  | inl missing ↦ absurd (let e' = rw missing at e in cc)
  | inr (c, found) ↦
      let e' = rw found at e in
      let (kept, rest) =
        ||-false (not (str_eq c.filter_expression "")) (any_replaced columns ns) e' in
      (
        (
          c,
          found,
          (eq_iff c.filter_expression "").0 (not-false (str_eq c.filter_expression "") kept),
        ),
        any_replaced-false columns ns rest,
      )
]

-- If the columns of a table have distinct names, then either a filter gives each column that it names
-- its expression and sets the condition, and changes nothing else, and each column of the primary key
-- is there and has no expression; or it is refused, and a column that it names is not there, or one of
-- the primary key would be replaced.
pub apply_filter_lem :
    (f : TableFilter) (table : TableSchema)
    → have_distinct_names table.columns ≡ true
    → let columns = with_expressions f.filter_expressions table.columns in
      ((all_found f.filter_expressions table.columns ≡ true)
        × All (IsKept columns) table.primary_key_columns
        × (apply_filter f table
            ≡ some (record table { where_conditions = f.where_conditions; columns = columns })))
      ⊎ (((all_found f.filter_expressions table.columns ≡ false)
            ⊎ (¬ All (IsKept columns) table.primary_key_columns))
          × (apply_filter f table ≡ none))
unfolding apply_filter
apply_filter_lem f table distinct =
    let columns = with_expressions f.filter_expressions table.columns in
    let set =
      rw (map-filtered_column f.filter_expressions table.columns) at
        (set_filter_expressions_lem f.filter_expressions table.columns distinct) in
    elim (Bool-cases (all_found f.filter_expressions table.columns)) [
      | inl found ↦ elim (Bool-cases (any_replaced columns table.primary_key_columns)) [
        | inl e ↦ inr (
          inr (any_replaced-true columns table.primary_key_columns e),
          rw (set, found) (rw e refl),
        )
        | inr e ↦ inl (
          found,
          any_replaced-false columns table.primary_key_columns e,
          rw (set, found) (rw e refl),
        )
      ]
      | inr missing ↦ inr (inl missing, rw (set, missing) refl)
    ]
