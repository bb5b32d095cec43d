-- ===== src/Filters/Expressions.antt =====
-- What the expressions of a filter do to the columns of a table (src/filters.cpp).
use Prim.Native.String.{String}
use package.text.Mathlib.Text.{◌==◌ as str_eq}
use package.text.Mathlib.TextEquality.{eq_iff}
use kitchen_sync.Common.{
  ◌≡◌, refl, ap, ◌∙◌, inl, inr, Bool, true, false, not, ◌&&◌, ◌||◌, Bool-cases, &&-true, none, some,
  List, [], ◌∷◌, map, if◌then◌else◌, arith,
}
use kitchen_sync.Schema.{Column}
use kitchen_sync.Filters.{replace_column, set_filter_expression, set_filter_expressions}

abbrev pub has_column : String → List Column → Bool
has_column name [] = false
has_column name (c ∷ columns) = str_eq c.name name || has_column name columns

abbrev pub have_distinct_names : List Column → Bool
have_distinct_names [] = true
have_distinct_names (c ∷ columns) = not (has_column c.name columns) && have_distinct_names columns

abbrev pub replace_named : String → String → Column → Column
replace_named name expression c = if str_eq c.name name then replace_column expression c else c

-- What the expressions make of one column.
abbrev pub filtered_column : List (String × String) → Column → Column
filtered_column [] c = c
filtered_column ((name, expression) ∷ expressions) c =
    filtered_column expressions (replace_named name expression c)

abbrev pub all_found : List (String × String) → List Column → Bool
all_found [] columns = true
all_found ((name, expression) ∷ expressions) columns =
    has_column name columns && all_found expressions columns

name-replace_named :
    (name expression : String) (c : Column) → (replace_named name expression c).name ≡ c.name
name-replace_named name expression c = elim (Bool-cases (str_eq c.name name)) [
  | inl e ↦ rw e refl
  | inr e ↦ rw e refl
]

has_column-replace_named :
    (other name expression : String) (columns : List Column)
    → has_column other (map (replace_named name expression) columns) ≡ has_column other columns
has_column-replace_named other name expression [] = refl
has_column-replace_named other name expression (c ∷ columns) =
    rw
      (name-replace_named name expression c, has_column-replace_named other name expression columns)
      refl

have_distinct_names-replace_named :
    (name expression : String) (columns : List Column)
    → have_distinct_names (map (replace_named name expression) columns)
      ≡ have_distinct_names columns
have_distinct_names-replace_named name expression [] = refl
have_distinct_names-replace_named name expression (c ∷ columns) =
    rw
      (
        name-replace_named name expression c,
        has_column-replace_named c.name name expression columns,
        have_distinct_names-replace_named name expression columns,
      )
      refl

all_found-replace_named :
    (name expression : String) (expressions : List (String × String)) (columns : List Column)
    → all_found expressions (map (replace_named name expression) columns)
      ≡ all_found expressions columns
all_found-replace_named name expression [] columns = refl
all_found-replace_named name expression ((other, e) ∷ expressions) columns =
    rw
      (
        has_column-replace_named other name expression columns,
        all_found-replace_named name expression expressions columns,
      )
      refl

pub ||-false : (a b : Bool) → (a || b) ≡ false → (a ≡ false) × (b ≡ false)
||-false a b h = ground arith

pub not-false : (a : Bool) → not a ≡ false → a ≡ true
not-false a h = ground arith

not-true : (a : Bool) → not a ≡ true → a ≡ false
not-true a h = ground arith

map-replace_named :
    (name expression : String) (columns : List Column)
    → has_column name columns ≡ false
    → map (replace_named name expression) columns ≡ columns
map-replace_named name expression [] e = refl
map-replace_named name expression (c ∷ columns) e =
    let (other, behind) = ||-false (str_eq c.name name) (has_column name columns) e in
    rw (other, map-replace_named name expression columns behind) refl

-- Of columns with distinct names, none in front of the one with a name has that name.
str_eq-distinct :
    (name : String) (c : Column) (columns : List Column)
    → has_column c.name columns ≡ false
    → has_column name columns ≡ true
    → str_eq c.name name ≡ false
str_eq-distinct name c columns unique behind = elim (Bool-cases (str_eq c.name name)) [
  | inl e ↦
      let same = (eq_iff c.name name).0 e in let found = ap (λ n. has_column n columns) same in cc
  | inr e ↦ e
]

set_filter_expression_lem :
    (name expression : String) (columns : List Column)
    → have_distinct_names columns ≡ true
    → set_filter_expression name expression columns ≡ (
        if has_column name columns
        then some (map (replace_named name expression) columns)
        else none)
unfolding set_filter_expression
set_filter_expression_lem name expression [] distinct = refl
set_filter_expression_lem name expression (c ∷ columns) distinct =
    let (unique, distinct') =
      &&-true (not (has_column c.name columns)) (have_distinct_names columns) distinct in
    let rest = set_filter_expression_lem name expression columns distinct' in
    elim (Bool-cases (has_column name columns)) [
      | inl behind ↦
          let other =
            str_eq-distinct name c columns (not-true (has_column c.name columns) unique) behind in
          rw (rest, behind, other) refl
      | inr last ↦
          let same = map-replace_named name expression columns last in
          elim (Bool-cases (str_eq c.name name)) [
            | inl e ↦ rw (rest, last, e, same) refl
            | inr e ↦ rw (rest, last, e) refl
          ]
    ]

map-nothing : (columns : List Column) → columns ≡ map (filtered_column []) columns
map-nothing [] = refl
map-nothing (c ∷ columns) = ap (λ cs. c ∷ cs) (map-nothing columns)

map-filtered :
    (name expression : String) (expressions : List (String × String)) (columns : List Column)
    → map (filtered_column expressions) (map (replace_named name expression) columns)
      ≡ map (filtered_column ((name, expression) ∷ expressions)) columns
map-filtered name expression expressions [] = refl
map-filtered name expression expressions (c ∷ columns) =
    ap (λ cs. filtered_column expressions (replace_named name expression c) ∷ cs)
      (map-filtered name expression expressions columns)

-- What is set by the expressions, one after the other, is what they make of each column.
pub set_filter_expressions_lem :
    (expressions : List (String × String)) (columns : List Column)
    → have_distinct_names columns ≡ true
    → set_filter_expressions expressions columns ≡ (
        if all_found expressions columns
        then some (map (filtered_column expressions) columns)
        else none)
unfolding set_filter_expressions
set_filter_expressions_lem [] columns distinct =
    ap (λ (cs : List Column). some cs) (map-nothing columns)
set_filter_expressions_lem ((name, expression) ∷ expressions) columns distinct =
    let step = set_filter_expression_lem name expression columns distinct in
    let rest =
      set_filter_expressions_lem expressions (map (replace_named name expression) columns)
        (have_distinct_names-replace_named name expression columns ∙ distinct) in
    elim (Bool-cases (has_column name columns)) [
      | inl found ↦
          rw
            (
              step,
              found,
              rest,
              all_found-replace_named name expression expressions columns,
              map-filtered name expression expressions columns,
            )
            refl
      | inr missing ↦ rw (step, missing) refl
    ]
