-- ===== src/Schema/PrimaryKey/Choice.antt =====
-- Which key is chosen for a table without a primary key (src/substitute_primary_key.h).
use kitchen_sync.Common.{◌++◌, ℕ, ◌≡◌, Bool, false, List, ◌∷◌, length, ◌<◌, All}
use kitchen_sync.Schema.{TableSchema, Column, Key, KeyType}
use kitchen_sync.Schema.PrimaryKey.{nullable_or_replaced, unusable_at}

-- The key is one of the keys, and those before it are not accepted.
abbrev pub IsFirst : (Key → Bool) → List Key → Key → Type 0
IsFirst p keys key =
    (before after : List Key) × (keys ≡ before ++ (key ∷ after)) × All (λ k. p k ≡ false) before

abbrev pub AreUsable : List Column → List ℕ → Type 0
AreUsable columns indices = All (λ n. unusable_at columns n ≡ false) indices

abbrev pub InRange : TableSchema → Type 0
InRange table = All (λ (key : Key). All (λ n. n < length table.columns) key.columns) table.keys

-- A unique key that has no nullable and no replaced column.
abbrev pub IsSuitable : TableSchema → Key → Type 0
IsSuitable table key = (key.key_type ≡ KeyType.unique_key) × AreUsable table.columns key.columns

abbrev pub NoneSuitable : TableSchema → Type 0
NoneSuitable table = All (λ key. ¬ IsSuitable table key) table.keys

abbrev pub CoversRow : TableSchema → Key → Type 0
CoversRow table key = length key.columns ≡ length table.columns

-- The key is the first of the keys for which a condition holds.
abbrev pub FirstWith : (Key → Type 0) → List Key → Key → Type 0
FirstWith P keys key =
    (before after : List Key) × (keys ≡ before ++ (key ∷ after)) × All (λ k. ¬ P k) before × P key

abbrev pub ArePlain : TableSchema → Type 0
ArePlain table = All (λ c. nullable_or_replaced c ≡ false) table.columns
