-- ===== src/Schema/PrimaryKey.antt =====
-- The key by which a table without a primary key is compared (src/substitute_primary_key.h).
pub mod Choice
use package.text.Mathlib.Text.{◌==◌ as str_eq}
use kitchen_sync.Common.{
  ==→eq, All-map, Option-cases, ◌⊎◌, arith, &&-true, ap, ◌++◌, Bool-cases, ℕ, zero, suc, ◌≡◌, refl,
  Bool, true, false, not, ◌&&◌, ◌||◌, Option, none, some, List, [], ◌∷◌, length, ◌==◌, ◌<◌,
  if◌then◌else◌, All, inl, inr,
}
use kitchen_sync.Schema.{
  no_available_key, TableSchema, Column, Key, PrimaryKeyType, KeyType, key_type_value, is_unique,
  is_explicit,
}

-- ColumnNullableOrReplaced.
unfoldable pub nullable_or_replaced : Column → Bool
nullable_or_replaced c = c.nullable || not (str_eq c.filter_expression "")

-- The column at an index; an index out of range is not used.
abbrev pub column_at : ℕ → List Column → Option Column
column_at n [] = none
column_at zero (c ∷ columns) = some c
column_at (suc n) (c ∷ columns) = column_at n columns

unfoldable pub unusable_at : List Column → ℕ → Bool
unfolding nullable_or_replaced
unusable_at columns n = elim (column_at n columns) [ none ↦ true | some c ↦ nullable_or_replaced c ]

abbrev pub none_of {ℓ} : {A : Type ℓ} → (A → Bool) → List A → Bool
none_of p [] = true
none_of p (x ∷ xs) = not (p x) && none_of p xs

-- The first key that a test accepts.
abbrev pub first_key_where : (Key → Bool) → List Key → Option Key
first_key_where p [] = none
first_key_where p (key ∷ keys) =
    let rest = first_key_where p keys in if p key then some key else rest

abbrev pub suitable : List Column → Key → Bool
suitable columns key = is_unique key && none_of (unusable_at columns) key.columns

abbrev pub covers_row : List Column → Key → Bool
covers_row columns key = length key.columns == length columns

abbrev use_key : PrimaryKeyType → TableSchema → Option Key → TableSchema
use_key type table none = table
use_key type table (some key) = record table {
  primary_key_columns = key.columns;
  primary_key_type = type;
}

abbrev choose_entire_row : TableSchema → TableSchema
choose_entire_row table =
    if none_of nullable_or_replaced table.columns
    then use_key PrimaryKeyType.entire_row_as_key table
        (first_key_where (covers_row table.columns) table.keys)
    else table

abbrev choose_substitute : TableSchema → Option Key → TableSchema
choose_substitute table none = choose_entire_row table
choose_substitute table (some key) = use_key PrimaryKeyType.suitable_unique_key table (some key)

unfoldable pub choose_primary_key_for : TableSchema → TableSchema
choose_primary_key_for table =
    if is_explicit table.primary_key_type
    then table
    else choose_substitute table (first_key_where (suitable table.columns) table.keys)
