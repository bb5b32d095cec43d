-- ===== src/Session/Tests.antt =====
-- Sessions between concrete ends.
use kitchen_sync.Common.{ℕ, ◌≡◌, ◌≤◌, ◌⊎◌, refl, true, false, none, some, List, [], ◌∷◌, arith}
use kitchen_sync.Schema.{
  TableSchema, Column, id_from_name, escape_name_for_id, DefaultType, AutoUpdateType,
  PrimaryKeyType,
}
use kitchen_sync.Schema.ColumnTypes.{ColumnType}
use kitchen_sync.Filters.{apply_filters}
use kitchen_sync.Session.{
  Versions, negotiate_protocol_version, HashAlgorithm, negotiate_hash_algorithm,
  handle_hash_algorithm_command, FromState, ToWorker, new_session, prepare_commands,
  handle_commands, choose_primary_keys, earliest_protocol_version_supported,
  latest_protocol_version_supported,
}
use kitchen_sync.Schema.PrimaryKey.{choose_primary_key_for, nullable_or_replaced}
use kitchen_sync.Session.Negotiated.{negotiate_protocol_version_lem, Supports}
use kitchen_sync.Session.Prepared.{prepare_commands_lem, prepare_commands-legacy}

abbrev this_build : Versions
this_build = record {
  earliest = earliest_protocol_version_supported;
  latest = latest_protocol_version_supported;
}

abbrev older_build : Versions
older_build = record { earliest = 7; latest = 8 }

abbrev ancient_build : Versions
ancient_build = record { earliest = 1; latest = 6 }

negotiate_protocol_version_lem_example :
    ((version : ℕ) × (negotiate_protocol_version this_build older_build ≡ some version)
      × Supports this_build version
      × Supports older_build version
      × ((other : ℕ) → Supports this_build other → Supports older_build other → other ≤ version))
    ⊎ ((negotiate_protocol_version this_build older_build ≡ none)
        × ((other : ℕ) → Supports this_build other → ¬ Supports older_build other))
negotiate_protocol_version_lem_example =
    negotiate_protocol_version_lem this_build older_build (omega arith) (omega arith)

versions_agree : negotiate_protocol_version this_build older_build ≡ some 8
unfolding negotiate_protocol_version
versions_agree = refl

versions_disagree : negotiate_protocol_version this_build ancient_build ≡ none
unfolding negotiate_protocol_version
versions_disagree = refl

default_algorithm :
    negotiate_hash_algorithm 9 HashAlgorithm.auto_select HashAlgorithm.blake3
    ≡ (HashAlgorithm.blake3, some HashAlgorithm.blake3)
unfolding negotiate_hash_algorithm handle_hash_algorithm_command
default_algorithm = refl

-- An algorithm that the 'from' end does not know replaces the one that it has.
unknown_is_taken :
    handle_hash_algorithm_command HashAlgorithm.blake3 (HashAlgorithm.unknown_algorithm 3)
    ≡ HashAlgorithm.unknown_algorithm 3
unfolding handle_hash_algorithm_command
unknown_is_taken = refl

abbrev number_column : Column
number_column = record {
  name = "a";
  nullable = false;
  column_type = ColumnType.sint_32bit;
  size = 0;
  scale = 0;
  default_type = DefaultType.no_default;
  default_value = "";
  auto_update_type = AutoUpdateType.no_auto_update;
  subtype = "";
  reference_system = "";
  enumeration_values = [];
  filter_expression = "";
}

abbrev keyless : TableSchema
keyless = record {
  schema_name = "";
  name = "t";
  columns = number_column ∷ [];
  primary_key_columns = [];
  primary_key_type = PrimaryKeyType.no_available_key;
  keys = [];
  where_conditions = "";
}

abbrev with_rows : TableSchema
with_rows = record keyless { where_conditions = "a > 1" }

abbrev leader_worker : ToWorker
leader_worker = record {
  leader = true;
  shares_snapshot = true;
  snapshot = "";
  filters = ("t", record { where_conditions = "a > 1"; filter_expressions = [] }) ∷ [];
  supported_types = ColumnType.sint_32bit ∷ [];
}

abbrev one_table : List ColumnType → List TableSchema
one_table accepted = keyless ∷ []

prepare_commands_lem_example :
    (s : FromState) × (handle_commands one_table (prepare_commands 9 leader_worker) (new_session 9)
      ≡ some s)
    × (s.tables ≡ choose_primary_keys (with_rows ∷ []))
    × (s.has_errors ≡ false)
unfolding apply_filters id_from_name escape_name_for_id
prepare_commands_lem_example =
    prepare_commands_lem one_table 9 leader_worker (with_rows ∷ []) (omega arith) refl

prepare_commands-legacy_example :
    (s : FromState) × (handle_commands one_table (prepare_commands 7 leader_worker) (new_session 7)
      ≡ some s)
    × (s.tables ≡ with_rows ∷ [])
    × (s.has_errors ≡ false)
unfolding apply_filters id_from_name escape_name_for_id choose_primary_key_for nullable_or_replaced
prepare_commands-legacy_example =
    prepare_commands-legacy one_table 7 leader_worker (with_rows ∷ []) (omega arith) refl
