-- ===== src/Session.antt =====
-- How a session between the two ends begins (src/sync_to.h, src/sync_from.h, src/protocol_versions.h,
-- src/hash_algorithm.h). The commands are those of src/command.h, as data; a handler's reply is what it
-- sends back, and none an error that it throws.
pub mod Negotiated
pub mod Prepared
mod Tests
use Prim.Native.String.{String}
use kitchen_sync.Common.{
  ℕ, zero, suc, ◌≤◌, max, min, ◌≡◌, Bool, true, false, not, ◌&&◌, ◌||◌, Option, none, some, List,
  [], ◌∷◌, ◌++◌, ◌==◌, leb, ltb, if◌then◌else◌, ◌>>=◌,
}
use kitchen_sync.Schema.{TableSchema}
use kitchen_sync.Filters.{TableFilter, apply_filters, apply_filters_partly}
use kitchen_sync.Schema.ColumnTypes.{ColumnType, column_type_name, column_type_by_name}
use kitchen_sync.Schema.PrimaryKey.{choose_primary_key_for}

abbrev pub earliest_protocol_version_supported : ℕ
earliest_protocol_version_supported = 7

abbrev pub latest_protocol_version_supported : ℕ
latest_protocol_version_supported = 9

abbrev pub last_filters_after_snapshot_protocol_version : ℕ
last_filters_after_snapshot_protocol_version = 7

abbrev pub last_legacy_schema_format_version : ℕ
last_legacy_schema_format_version = 7

abbrev pub first_blake3_version : ℕ
first_blake3_version = 9

-- The versions that a build supports.
pub record Versions : Type 0 where
  pub earliest : ℕ
  pub latest : ℕ

-- The 'from' end selects a version, and the 'to' end checks it.
abbrev select_version : Versions → ℕ → ℕ
select_version from their_protocol_version =
    max from.earliest (min from.latest their_protocol_version)

pub negotiate_protocol_version : Versions → Versions → Option ℕ
negotiate_protocol_version to from =
    let selected = select_version from to.latest in
    if ltb selected to.earliest || ltb to.latest selected then none else some selected

pub data HashAlgorithm : Type 0 where
  auto_select md5 xxh64 blake3 : HashAlgorithm
  unknown_algorithm : ℕ → HashAlgorithm

abbrev pub is_known : HashAlgorithm → Bool
is_known HashAlgorithm.md5 = true
is_known HashAlgorithm.xxh64 = true
is_known HashAlgorithm.blake3 = true
is_known _ = false

abbrev pub selected_algorithm : ℕ → HashAlgorithm → HashAlgorithm
selected_algorithm version HashAlgorithm.auto_select =
    if ltb version first_blake3_version then HashAlgorithm.md5 else HashAlgorithm.blake3
selected_algorithm version algorithm = algorithm

-- The condition is on the algorithm that is replaced.
pub handle_hash_algorithm_command : HashAlgorithm → HashAlgorithm → HashAlgorithm
handle_hash_algorithm_command current requested = if is_known current then requested else current

-- The 'from' end's algorithm afterwards, and the 'to' end's, or none where it gives up.
pub negotiate_hash_algorithm :
    ℕ → HashAlgorithm → HashAlgorithm → HashAlgorithm × Option HashAlgorithm
unfolding handle_hash_algorithm_command
negotiate_hash_algorithm version wanted current =
    let reply = handle_hash_algorithm_command current (selected_algorithm version wanted) in
    (reply, if is_known reply then some reply else none)

abbrev pub Filters : Type 0
Filters = List (String × TableFilter)

abbrev pub is_empty_filters : Filters → Bool
is_empty_filters [] = true
is_empty_filters (filter ∷ filters) = false

pub data Command : Type 0 where
  types : List String → Command
  filters : Filters → Command
  export_snapshot unhold_snapshot without_snapshot schema : Command
  import_snapshot : String → Command

-- The types that could be sent before version 8 (src/legacy_schema_serialization.h).
abbrev pub legacy_supported_column_types : List ColumnType
legacy_supported_column_types =
    ColumnType.binary ∷ ColumnType.text ∷ ColumnType.text_varchar ∷ ColumnType.text_fixed
    ∷ ColumnType.uuid ∷ ColumnType.boolean ∷ ColumnType.sint_8bit ∷ ColumnType.sint_16bit
    ∷ ColumnType.sint_24bit ∷ ColumnType.sint_32bit ∷ ColumnType.sint_64bit ∷ ColumnType.uint_8bit
    ∷ ColumnType.uint_16bit ∷ ColumnType.uint_24bit ∷ ColumnType.uint_32bit ∷ ColumnType.uint_64bit
    ∷ ColumnType.float_64bit ∷ ColumnType.float_32bit ∷ ColumnType.decimal ∷ ColumnType.date
    ∷ ColumnType.time ∷ ColumnType.time_tz ∷ ColumnType.datetime ∷ ColumnType.datetime_tz
    ∷ ColumnType.datetime_mysqltimestamp ∷ []

abbrev pub choose_primary_keys : List TableSchema → List TableSchema
choose_primary_keys [] = []
choose_primary_keys (table ∷ tables) = choose_primary_key_for table ∷ choose_primary_keys tables

-- The tables that were read, and whether a filter's definition was wrong.
pub record FromState : Type 0 where
  pub protocol_version : ℕ
  pub table_filters : Filters
  pub accepted_types : List ColumnType
  pub tables : List TableSchema
  pub has_errors : Bool

abbrev pub new_session : ℕ → FromState
new_session version = record {
  protocol_version = version;
  table_filters = [];
  accepted_types = [];
  tables = [];
  has_errors = false;
}

-- The accepted types are a set: only whether a type is among them matters.
abbrev accept_type : Option ColumnType → List ColumnType → List ColumnType
accept_type none accepted = accepted
accept_type (some t) accepted = t ∷ accepted

abbrev accept_names : List String → List ColumnType → List ColumnType
accept_names [] accepted = accepted
accept_names (name ∷ names) accepted =
    accept_type (column_type_by_name name) (accept_names names accepted)

pub handle_types_command : List String → FromState → FromState
handle_types_command names s = record s { accepted_types = accept_names names s.accepted_types }

-- Up to version 7 the filters come after the tables were read and are applied at once.
pub handle_filters_command : Filters → FromState → Option FromState
handle_filters_command f s =
    if leb s.protocol_version last_filters_after_snapshot_protocol_version
    then (apply_filters f s.tables >>= λ tables.
        some (record s { table_filters = f; tables = tables }))
    else some (record s { table_filters = f })

abbrev loaded : List TableSchema → Option (List TableSchema) → FromState → FromState
loaded tables none s = record s {
  tables = apply_filters_partly s.table_filters tables;
  has_errors = true;
}
loaded tables (some filtered) s = record s { tables = choose_primary_keys filtered }

-- What the database of the 'from' end has, of the types that are accepted.
module _ (populate_database_schema : List ColumnType → List TableSchema) where
  pub populate_schema : FromState → FromState
  populate_schema s =
      let accepted =
        if leb s.protocol_version last_legacy_schema_format_version
        then legacy_supported_column_types
        else s.accepted_types in
      let tables = populate_database_schema accepted in
      loaded tables
        (if is_empty_filters s.table_filters
          then some tables
          else apply_filters s.table_filters tables)
        (record s { accepted_types = accepted })

  -- Which reads the tables, and which only reply.
  pub handle_command : Command → FromState → Option FromState
  unfolding handle_types_command handle_filters_command populate_schema
  handle_command (types names) s = some (handle_types_command names s)
  handle_command (filters f) s = handle_filters_command f s
  handle_command export_snapshot s = some (populate_schema s)
  handle_command (import_snapshot snapshot) s = some (populate_schema s)
  handle_command without_snapshot s = some (populate_schema s)
  handle_command unhold_snapshot s = some s
  handle_command schema s = some s

  pub handle_commands : List Command → FromState → Option FromState
  unfolding handle_command
  handle_commands [] s = some s
  handle_commands (command ∷ commands) s = handle_command command s >>= handle_commands commands

abbrev names_of : List ColumnType → List String
names_of [] = []
names_of (t ∷ supported) = column_type_name t ∷ names_of supported

-- A worker of the 'to' end: whether it is the leader, whether the workers share a snapshot, and its
-- filters, already restricted to the tables to synchronise.
pub record ToWorker : Type 0 where
  pub leader : Bool
  pub shares_snapshot : Bool
  pub snapshot : String
  pub filters : Filters
  pub supported_types : List ColumnType

abbrev send_filters : ToWorker → List Command
send_filters w = if is_empty_filters w.filters then [] else Command.filters w.filters ∷ []

abbrev send_types : ℕ → ToWorker → List Command
send_types version w =
    if ltb last_legacy_schema_format_version version
    then types (names_of w.supported_types) ∷ []
    else []

abbrev share_snapshot : ToWorker → List Command
share_snapshot w =
    if w.shares_snapshot
    then (if w.leader
        then export_snapshot ∷ unhold_snapshot ∷ []
        else import_snapshot w.snapshot ∷ [])
    else without_snapshot ∷ []

-- The commands of `prepare` after the negotiations, at a version.
pub prepare_commands : ℕ → ToWorker → List Command
prepare_commands version w =
    (if ltb last_filters_after_snapshot_protocol_version version then send_filters w else [])
    ++ (send_types version w
        ++ (share_snapshot w
            ++ ((if w.leader then schema ∷ [] else [])
                ++ (if leb version last_filters_after_snapshot_protocol_version
                    then send_filters w
                    else []))))
