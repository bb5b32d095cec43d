-- ===== src/Applier/Tests.antt =====
-- Responses applied to concrete tables.
use kitchen_sync.Applier.Invariant.{IsApplied}
use kitchen_sync.Replacer.Steps.{settled-fresh}
use kitchen_sync.Applier.Stream.{
  stream_from_input-replace_range, stream_from_input-IsApplied, range_task, IsReady,
}
use kitchen_sync.Common.{arith, length, ◌+◌, ◌≤◌, ℕ, ◌≡◌, refl, some, []}
use kitchen_sync.Table.{replace_range, rows_in_range}
use kitchen_sync.Table.Examples.{
  pair_format, rows_with, rows_with-IsTable, two_rows, two_rows-IsTable,
}
use kitchen_sync.Replacer.{apply, RowReplacer}
use kitchen_sync.Replacer.Examples.{plain_client, replacing_client, fresh_replacer}
use kitchen_sync.Applier.{length, RowRangeApplier, stream_from_input, new_applier}

two_rows-IsReady :
    IsReady pair_format plain_client
      (rows_with 6 9)
      (rows_with-IsTable 6 9)
      1
      3
      (fresh_replacer two_rows)
      two_rows
two_rows-IsReady = record {
  settles = settled-fresh pair_format plain_client two_rows 0;
  table_placed = two_rows-IsTable.placed;
  settled_placed = two_rows-IsTable.placed;
  untouched = λ k lo end. record { not_deleted = tt; not_inserted = tt };
}

some_rows : 1 ≤ 1 + length (rows_in_range pair_format (rows_with 6 9) 1 3)
some_rows = omega arith

stream_from_input-IsApplied_example :
    (b : RowRangeApplier pair_format plain_client) × (stream_from_input pair_format plain_client 3
        (rows_in_range pair_format (rows_with 6 9) 1 3)
        (new_applier pair_format plain_client (fresh_replacer two_rows) 1)
      ≡ some b)
    × IsApplied pair_format plain_client
        (range_task pair_format plain_client
          (rows_with 6 9)
          (rows_with-IsTable 6 9)
          1
          3
          (fresh_replacer two_rows)
          two_rows)
        b.replacer
    × (b.source_rows ≡ [])
stream_from_input-IsApplied_example =
    stream_from_input-IsApplied pair_format plain_client (rows_with 6 9) (rows_with-IsTable 6 9) 1 3
      (fresh_replacer two_rows) two_rows two_rows-IsReady refl some_rows

stream_from_input-replace_range_example :
    (b : RowRangeApplier pair_format replacing_client) × (rep : RowReplacer pair_format)
    × (stream_from_input pair_format replacing_client 3
          (rows_in_range pair_format (rows_with 6 9) 1 3)
          (new_applier pair_format replacing_client (fresh_replacer two_rows) 1)
        ≡ some b)
    × (apply pair_format replacing_client b.replacer ≡ some rep)
    × ((k : ℕ)
        → rep.table.row_at k ≡ (replace_range pair_format (rows_with 6 9) two_rows 1 3).row_at k)
stream_from_input-replace_range_example =
    stream_from_input-replace_range pair_format replacing_client (rows_with 6 9)
      (rows_with-IsTable 6 9) 1 3 two_rows 0 two_rows-IsTable refl some_rows
