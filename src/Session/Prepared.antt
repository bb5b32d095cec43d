-- ===== src/Session/Prepared.antt =====
-- What the 'from' end has read when a session is prepared.
use kitchen_sync.Common.{
  ℕ, ◌≤◌, ◌≡◌, refl, sym, ap, ◌∙◌, inl, inr, true, false, Option, some, List, [], ◌∷◌, ◌++◌, arith,
  Bool-cases, leb, ltb, if◌then◌else◌,
}
use kitchen_sync.Schema.{TableSchema}
use kitchen_sync.Filters.{apply_filters}
use kitchen_sync.Schema.ColumnTypes.{ColumnType, column_type_by_name-column_type_name}
use kitchen_sync.Session.{
  Filters, is_empty_filters, populate_schema, handle_filters_command, handle_types_command,
  names_of, Command, schema, share_snapshot, loaded, handle_command, accept_names, accept_type,
  legacy_supported_column_types, FromState, ToWorker, handle_commands, prepare_commands,
  new_session, choose_primary_keys,
}

module _ (populate_database_schema : List ColumnType → List TableSchema) where
  -- The types that are named are those that are accepted.
  accept_names-names_of :
      (supported accepted : List ColumnType)
      → accept_names (names_of supported) accepted ≡ supported ++ accepted
  accept_names-names_of [] accepted = refl
  accept_names-names_of (t ∷ supported) accepted =
      ap (λ found. accept_type found (accept_names (names_of supported) accepted))
        (column_type_by_name-column_type_name t)
      ∙ ap (λ ts. t ∷ ts) (accept_names-names_of supported accepted)

  -- With or without a shared snapshot, a leader or not, the tables are read once.
  share_snapshot-populate_schema :
      (w : ToWorker) (rest : List Command) (s : FromState)
      → handle_commands populate_database_schema
          (share_snapshot w ++ ((if w.leader then schema ∷ [] else []) ++ rest))
          s
        ≡ handle_commands populate_database_schema rest (populate_schema populate_database_schema s)
  unfolding handle_commands handle_command
  share_snapshot-populate_schema w rest s = elim (Bool-cases w.shares_snapshot) [
    | inl shares ↦ elim (Bool-cases w.leader) [
      | inl leader ↦ rw (shares, leader) refl
      | inr leader ↦ rw (shares, leader) refl
    ]
    | inr shares ↦ elim (Bool-cases w.leader) [
      | inl leader ↦ rw (shares, leader) refl
      | inr leader ↦ rw (shares, leader) refl
    ]
  ]

  -- The types that a session reads the tables with.
  abbrev types_read : FromState → List ColumnType
  types_read s =
      if leb s.protocol_version 7 then legacy_supported_column_types else s.accepted_types

  -- The filters as they apply: not at all if there are none.
  abbrev pub filtered : Filters → List TableSchema → Option (List TableSchema)
  filtered f tables = if is_empty_filters f then some tables else apply_filters f tables

  filtered-none :
      (f : Filters) (tables : List TableSchema)
      → is_empty_filters f ≡ true
      → filtered f tables ≡ some tables
  filtered-none f tables empty = rw empty refl

  filtered-some :
      (f : Filters) (tables : List TableSchema)
      → is_empty_filters f ≡ false
      → filtered f tables ≡ apply_filters f tables
  filtered-some f tables filled = rw filled refl

  handle_filters_command_lem :
      (f : Filters) (s : FromState) (tables : List TableSchema)
      → leb s.protocol_version 7 ≡ true
      → apply_filters f s.tables ≡ some tables
      → handle_filters_command f s ≡ some (record s { table_filters = f; tables = tables })
  unfolding handle_filters_command
  handle_filters_command_lem f s tables low e = rw (low, e) refl

  populate_schema_lem :
      (s : FromState) (tables : List TableSchema)
      → filtered s.table_filters (populate_database_schema (types_read s)) ≡ some tables
      → populate_schema populate_database_schema s
        ≡ record s { accepted_types = types_read s; tables = choose_primary_keys tables }
  unfolding populate_schema
  populate_schema_lem s tables e =
      ap
        (λ found.
          loaded (populate_database_schema (types_read s)) found
            (record s { accepted_types = types_read s }))
        e

  share_snapshot_lem :
      (w : ToWorker) (rest : List Command) (s : FromState) (tables : List TableSchema)
      → filtered s.table_filters (populate_database_schema (types_read s)) ≡ some tables
      → handle_commands populate_database_schema
          (share_snapshot w ++ ((if w.leader then schema ∷ [] else []) ++ rest))
          s
        ≡ handle_commands populate_database_schema rest
            (record s { accepted_types = types_read s; tables = choose_primary_keys tables })
  share_snapshot_lem w rest s tables e =
      share_snapshot-populate_schema w rest s
      ∙ ap (handle_commands populate_database_schema rest) (populate_schema_lem s tables e)

  abbrev state_of : ℕ → Filters → List ColumnType → List TableSchema → FromState
  state_of version f accepted tables = record {
    protocol_version = version;
    table_filters = f;
    accepted_types = accepted;
    tables = tables;
    has_errors = false;
  }

  share_snapshot-new :
      (version : ℕ) (w : ToWorker) (f : Filters) (tables : List TableSchema)
      → leb version 7 ≡ false
      → filtered f (populate_database_schema (w.supported_types ++ [])) ≡ some tables
      → handle_commands populate_database_schema
          (share_snapshot w ++ ((if w.leader then schema ∷ [] else []) ++ []))
          (state_of version f (accept_names (names_of w.supported_types) []) [])
        ≡ some (state_of version f (w.supported_types ++ []) (choose_primary_keys tables))
  unfolding handle_commands
  share_snapshot-new version w f tables low e = rw (accept_names-names_of w.supported_types []) (
      share_snapshot_lem w [] (state_of version f (w.supported_types ++ []) []) tables (rw low e)
      ∙ rw low refl)

  share_snapshot-old :
      (version : ℕ) (w : ToWorker) (rest : List Command)
      → leb version 7 ≡ true
      → handle_commands populate_database_schema
          (share_snapshot w ++ ((if w.leader then schema ∷ [] else []) ++ rest))
          (new_session version)
        ≡ handle_commands populate_database_schema rest (
            state_of version [] legacy_supported_column_types
              (choose_primary_keys (populate_database_schema legacy_supported_column_types)))
  unfolding handle_commands
  share_snapshot-old version w rest low =
      share_snapshot_lem w rest (new_session version)
        (populate_database_schema legacy_supported_column_types) (rw low refl)
      ∙ rw low refl

  -- From version 8 on, a worker's peer reads the tables with the types that the 'to' end supports, applies
  -- the filters to them once, and chooses the primary keys only after that, whether the worker is the
  -- leader and whether the workers share a snapshot or not, if the filters are right.
  pub prepare_commands_lem :
      (version : ℕ) (w : ToWorker) (tables : List TableSchema)
      → 8 ≤ version
      → filtered w.filters (populate_database_schema (w.supported_types ++ [])) ≡ some tables
      → (s : FromState) × (handle_commands populate_database_schema
            (prepare_commands version w)
            (new_session version)
          ≡ some s)
        × (s.tables ≡ choose_primary_keys tables)
        × (s.has_errors ≡ false)
  unfolding handle_commands handle_command handle_types_command handle_filters_command
      prepare_commands
  prepare_commands_lem version w tables new e =
      let high : ltb 7 version ≡ true = ground arith in
      let low : leb version 7 ≡ false = ground arith in
      elim (Bool-cases (is_empty_filters w.filters)) [
        | inl empty ↦ (
          state_of version [] (w.supported_types ++ []) (choose_primary_keys tables),
          rw (high, low, empty)
              (share_snapshot-new version w [] tables low
                (sym (filtered-none w.filters _ empty) ∙ e)),
          refl,
          refl,
        )
        | inr filled ↦ (
          state_of version w.filters (w.supported_types ++ []) (choose_primary_keys tables),
          rw (high, low, filled) (rw low (share_snapshot-new version w w.filters tables low e)),
          refl,
          refl,
        )
      ]

  -- In version 7 it reads the tables with the types of the legacy format, chooses the primary keys, and
  -- applies the filters after that, if they are right.
  pub prepare_commands-legacy :
      (version : ℕ) (w : ToWorker) (tables : List TableSchema)
      → version ≤ 7
      → filtered w.filters
          (choose_primary_keys (populate_database_schema legacy_supported_column_types))
        ≡ some tables
      → (s : FromState) × (handle_commands populate_database_schema
            (prepare_commands version w)
            (new_session version)
          ≡ some s)
        × (s.tables ≡ tables)
        × (s.has_errors ≡ false)
  unfolding handle_commands handle_command handle_types_command handle_filters_command
      prepare_commands
  prepare_commands-legacy version w tables old e =
      let high : ltb 7 version ≡ false = ground arith in
      let low : leb version 7 ≡ true = ground arith in
      elim (Bool-cases (is_empty_filters w.filters)) [
        | inl empty ↦ (
          state_of version [] legacy_supported_column_types
              (choose_primary_keys (populate_database_schema legacy_supported_column_types)),
          rw (high, low, empty) (share_snapshot-old version w [] low),
          let plain = sym (filtered-none w.filters _ empty) ∙ e in cc,
          refl,
        )
        | inr filled ↦ (
          state_of version w.filters legacy_supported_column_types tables,
          rw (high, low, filled)
              (share_snapshot-old version w _ low
                ∙ rw
                    (handle_filters_command_lem w.filters
                      (state_of version [] legacy_supported_column_types _) tables low
                      (sym (filtered-some w.filters _ filled) ∙ e))
                    refl),
          refl,
          refl,
        )
      ]
