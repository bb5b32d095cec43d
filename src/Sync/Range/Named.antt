-- ===== src/Sync/Range/Named.antt =====
-- The table's names are the same when the writer enters its loop.
use kitchen_sync.Common.{refl, [], ℕ, ◌≡◌, ◌==◌, Bool-cases, inl, inr}
use kitchen_sync.Table.{RowFormat, Table, first_key, last_key}
use kitchen_sync.Sync.{TableJob}
use kitchen_sync.Sync.Range.{
  start_sync_table, handle_range_response, handle_range_command, queue_initial_ranges,
  delete_outside, request_rows_without_pipelining,
}
use kitchen_sync.Sync.Progress.{IsNamed}

module _ (F : RowFormat) (subdivide : ℕ → ℕ → ℕ) (source target : Table F) (job : TableJob) where
  abbrev our_last : ℕ
  our_last = last_key F (delete_outside F (first_key F source) (last_key F source) target)

  pub start_sync_table-IsNamed :
      job.table_id ≡ job.table_name → IsNamed (start_sync_table F subdivide source job target)
  unfolding start_sync_table handle_range_response handle_range_command
      request_rows_without_pipelining queue_initial_ranges
  start_sync_table-IsNamed named = elim (Bool-cases (first_key F source == 0)) [
    | inl z ↦ rw z (named, tt)
    | inr nz ↦ elim (Bool-cases (our_last == last_key F source)) [
      | inl same ↦ elim (Bool-cases (our_last == 0)) [
        | inl e ↦ rw (nz, same, e) (named, tt)
        | inr e ↦ rw (nz, same, e) (named, tt)
      ]
      | inr other ↦ elim (Bool-cases (our_last == 0)) [
        | inl e ↦ rw (nz, other, e) (named, tt)
        | inr e ↦ rw (nz, other, e) (named, tt)
      ]
    ]
  ]

  -- Nothing is in flight, and no hash command has been sent.
  pub start_sync_table-flight :
      ((start_sync_table F subdivide source job target).flight ≡ [])
      × ((start_sync_table F subdivide source job target).job.hash_commands ≡ job.hash_commands)
      × ((start_sync_table F subdivide source job target).job.hash_commands_completed
          ≡ job.hash_commands_completed)
  unfolding start_sync_table handle_range_response handle_range_command
      request_rows_without_pipelining queue_initial_ranges
  start_sync_table-flight = elim (Bool-cases (first_key F source == 0)) [
    | inl z ↦ rw z (refl, refl, refl)
    | inr nz ↦ elim (Bool-cases (our_last == last_key F source)) [
      | inl same ↦ elim (Bool-cases (our_last == 0)) [
        | inl e ↦ rw (nz, same, e) (refl, refl, refl)
        | inr e ↦ rw (nz, same, e) (refl, refl, refl)
      ]
      | inr other ↦ elim (Bool-cases (our_last == 0)) [
        | inl e ↦ rw (nz, other, e) (refl, refl, refl)
        | inr e ↦ rw (nz, other, e) (refl, refl, refl)
      ]
    ]
  ]
