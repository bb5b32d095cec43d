-- ===== src/Schema/Tests.antt =====
-- Schemas on concrete tables.
use kitchen_sync.Schema.Matcher.Columns.{match_columns}
use kitchen_sync.Schema.Merge.{merge}
use kitchen_sync.Schema.Matcher.Columns.Names.{
  match_columns-names, matched_existing, NoneRequired, GivesUp, column_names,
}
use kitchen_sync.Schema.Matcher.Keys.{execute_keys}
use kitchen_sync.Common.{length, ◌++◌, List, ℕ, ◌≡◌, refl, true, false, none, [], ◌∷◌}
use kitchen_sync.Schema.{
  String, escape_name_for_id, TableSchema, Column, Key, DefaultType, AutoUpdateType, KeyType,
  PrimaryKeyType, id_from_name,
}
use kitchen_sync.Schema.ColumnTypes.{ColumnType}
use kitchen_sync.Schema.PrimaryKey.{nullable_or_replaced, unusable_at, choose_primary_key_for}
use kitchen_sync.Schema.Matcher.{key_statements, Traits}

abbrev number_column : String → Column
number_column name = record {
  name = name;
  nullable = false;
  column_type = ColumnType.sint_32bit;
  size = 0;
  scale = 0;
  default_type = DefaultType.no_default;
  default_value = "";
  auto_update_type = AutoUpdateType.no_auto_update;
  subtype = "";
  reference_system = "";
  enumeration_values = [];
  filter_expression = "";
}

abbrev table_named : String → String → TableSchema
table_named schema_name name = record {
  schema_name = schema_name;
  name = name;
  columns = number_column "a" ∷ number_column "b" ∷ [];
  primary_key_columns = [];
  primary_key_type = PrimaryKeyType.no_available_key;
  keys = [];
  where_conditions = "";
}

abbrev key_on : String → KeyType → ℕ → Key
key_on name key_type column = record { name = name; key_type = key_type; columns = column ∷ [] }

abbrev keyed : TableSchema
keyed = record (table_named "" "t") {
  keys = key_on "a" KeyType.standard_key 0 ∷ key_on "b" KeyType.unique_key 1 ∷ [];
}

-- Two tables with the same id.
ids_collide : id_from_name (table_named "x" "y") ≡ id_from_name (table_named "" "x.y")
unfolding id_from_name escape_name_for_id
ids_collide = refl

-- It is the unique key that is taken.
unique_is_taken : (choose_primary_key_for keyed).primary_key_columns ≡ 1 ∷ []
unfolding choose_primary_key_for unusable_at nullable_or_replaced
unique_is_taken = refl

abbrev plain_traits : Traits
plain_traits = record {
  sequence_columns = false;
  set_nullability = true;
  add_non_nullable_columns = true;
}

match_columns-names_example :
    let (missing, m) = matched_existing plain_traits keyed (table_named "" "t") [] in
    let columns = (match_columns plain_traits keyed ([], table_named "" "t")).1.columns in
    (added left : List Column) × (missing ≡ added ++ left)
    × (columns ≡ m.to_table.columns ++ added)
    × (column_names columns ++ column_names left ≡ column_names keyed.columns)
    × NoneRequired keyed (length m.to_table.columns) added
    × GivesUp keyed (length columns) left
match_columns-names_example = match_columns-names plain_traits keyed (table_named "" "t") []

-- The source has made the key b unique. The keys are sorted by their types first, so that the loop
-- meets b before a: it drops a and creates it again, in that order, but the statement that creates it
-- is put first, where a still exists.
abbrev unique_b : TableSchema
unique_b = record keyed {
  keys = key_on "b" KeyType.unique_key 1 ∷ key_on "a" KeyType.standard_key 0 ∷ [];
}

abbrev standard_b : TableSchema
standard_b = record keyed {
  keys = key_on "a" KeyType.standard_key 0 ∷ key_on "b" KeyType.standard_key 1 ∷ [];
}

create_before_drop :
    execute_keys
      (key_statements unique_b standard_b
        (merge (λ (k : Key). k.name) standard_b.keys unique_b.keys)
        [])
      standard_b.keys
    ≡ none
unfolding execute_keys key_statements merge
create_before_drop = refl
