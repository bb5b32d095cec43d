-- ===== src/Replacer/Tests.antt =====
-- The statements on concrete rows.
use kitchen_sync.Replacer.Inserter.{insert_stream_lem}
use kitchen_sync.Replacer.Steps.{settled-fresh, Settles}
use kitchen_sync.Common.{◌⊎◌, ◌+◌, ◌≤◌, ◌<◌, ℕ, ◌≡◌, refl, none, some}
use kitchen_sync.Table.{scan, Table}
use kitchen_sync.Table.Examples.{pair_format, rows_with, rows_with-IsTable, two_rows}
use kitchen_sync.Replacer.{insert_row, apply, insert_stream, RowReplacer}
use kitchen_sync.Replacer.Examples.{plain_client, fresh_replacer}

abbrev empty_table : Table pair_format
empty_table = record { bound = 0; row_at = λ k. none }

-- An INSERT fails where there is a row, and a REPLACE does not.
duplicate_fails :
    apply pair_format plain_client
      (insert_row pair_format plain_client (2, 9) (fresh_replacer two_rows))
    ≡ none
unfolding apply insert_row
duplicate_fails = refl

insert_stream_lem_example :
    (rep' : RowReplacer pair_format) × (u : Table pair_format) × (insert_stream pair_format
        plain_client
        (scan pair_format (rows_with 5 9).row_at 3 0)
        (fresh_replacer empty_table)
      ≡ some rep')
    × Settles pair_format plain_client rep' u
    × ((k : ℕ) → 0 < k → k ≤ 0 + 3 → u.row_at k ≡ (rows_with 5 9).row_at k)
    × ((k : ℕ) → (k ≤ 0) ⊎ (0 + 3 < k) → u.row_at k ≡ empty_table.row_at k)
insert_stream_lem_example =
    insert_stream_lem pair_format plain_client (rows_with 5 9).row_at (rows_with-IsTable 5 9).placed
      3 0 (fresh_replacer empty_table) empty_table
      (settled-fresh pair_format plain_client empty_table 0) (λ k lo hi. refl)
