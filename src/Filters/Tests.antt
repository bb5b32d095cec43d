-- ===== src/Filters/Tests.antt =====
-- Filters of a concrete table.
use kitchen_sync.Common.{All, ◌⊎◌, true, false, false, ◌≡◌, refl, none, some, [], ◌∷◌}
use kitchen_sync.Schema.{
  TableSchema, Column, DefaultType, AutoUpdateType, PrimaryKeyType, id_from_name,
  escape_name_for_id,
}
use kitchen_sync.Schema.ColumnTypes.{ColumnType}
use kitchen_sync.Filters.{String, TableFilter, apply_filter, apply_filters}
use kitchen_sync.Filters.Expressions.{all_found}
use kitchen_sync.Filters.Apply.{apply_filter_lem, with_expressions, IsKept}

abbrev text_column : String → Column
text_column name = record {
  name = name;
  nullable = false;
  column_type = ColumnType.text;
  size = 0;
  scale = 0;
  default_type = DefaultType.no_default;
  default_value = "";
  auto_update_type = AutoUpdateType.no_auto_update;
  subtype = "";
  reference_system = "";
  enumeration_values = [];
  filter_expression = "";
}

abbrev people : TableSchema
people = record {
  schema_name = "";
  name = "people";
  columns = text_column "id" ∷ text_column "name" ∷ [];
  primary_key_columns = 0 ∷ [];
  primary_key_type = PrimaryKeyType.explicit_primary_key;
  keys = [];
  where_conditions = "";
}

abbrev hide_names : TableFilter
hide_names = record { where_conditions = ""; filter_expressions = ("name", "'anonymous'") ∷ [] }

abbrev hide_ids : TableFilter
hide_ids = record { where_conditions = ""; filter_expressions = ("id", "1") ∷ [] }

apply_filter_lem_example :
    let columns = with_expressions hide_names.filter_expressions people.columns in
    ((all_found hide_names.filter_expressions people.columns ≡ true)
      × All (IsKept columns) people.primary_key_columns
      × (apply_filter hide_names people
          ≡ some (record people {
            where_conditions = hide_names.where_conditions;
            columns = columns;
          })))
    ⊎ (((all_found hide_names.filter_expressions people.columns ≡ false)
          ⊎ (¬ All (IsKept columns) people.primary_key_columns))
        × (apply_filter hide_names people ≡ none))
apply_filter_lem_example = apply_filter_lem hide_names people refl

ids_are_kept : apply_filter hide_ids people ≡ none
unfolding apply_filter
ids_are_kept = refl

unknown_table : apply_filters (("animals", hide_ids) ∷ []) (people ∷ []) ≡ none
unfolding apply_filters id_from_name escape_name_for_id
unknown_table = refl
