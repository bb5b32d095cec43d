-- ===== src/Schema/Matcher/Keys.antt =====
-- What the statements for the keys of a table do.
use Prim.Native.String.{String}
use package.text.Mathlib.Text.{◌==◌ as str_eq}
use kitchen_sync.Common.{
  ◌≡◌, refl, Bool, true, false, Option, none, some, List, [], ◌∷◌, ◌++◌, if◌then◌else◌,
}
use kitchen_sync.Schema.{TableSchema, Key, equal_lists, column_eq}
use kitchen_sync.Schema.Merge.{sources-merge}
use kitchen_sync.Schema.Matcher.{drop_key, create_key, Statement, match_keys}

abbrev has_key : String → List Key → Bool
has_key name [] = false
has_key name (key ∷ keys) =
    let rest = has_key name keys in if str_eq key.name name then true else rest

abbrev erase_key : String → List Key → List Key
erase_key name [] = []
erase_key name (key ∷ keys) =
    let rest = erase_key name keys in if str_eq key.name name then rest else key ∷ rest

-- A database refuses to create a key whose name is taken, and to drop one that it does not have.
unfoldable pub execute_keys : List Statement → List Key → Option (List Key)
execute_keys [] keys = some keys
execute_keys (create_key table key ∷ statements) keys =
    let rest = execute_keys statements (keys ++ (key ∷ [])) in
    if has_key key.name keys then none else rest
execute_keys (drop_key table key ∷ statements) keys =
    let rest = execute_keys statements (erase_key key.name keys) in
    if has_key key.name keys then rest else none
execute_keys (statement ∷ statements) keys = execute_keys statements keys

-- When the columns match, the keys of the table are taken to be the source's afterwards, and the
-- columns stay as they are; when they do not, nothing is changed.
pub match_keys-keys :
    (from_table to_table : TableSchema) (statements : List Statement)
    → let matched = match_keys from_table (statements, to_table) in
      (equal_lists column_eq from_table.columns to_table.columns ≡ true
        → (matched.1.keys ≡ from_table.keys) × (matched.1.columns ≡ to_table.columns))
      × (equal_lists column_eq from_table.columns to_table.columns ≡ false
          → matched ≡ (statements, to_table))
unfolding match_keys
match_keys-keys from_table to_table statements = (
  λ e. rw e (sources-merge (λ (k : Key). k.name) to_table.keys from_table.keys, refl),
  λ e. rw e refl,
)
