-- ===== src/Rows/Tests.antt =====
-- Sending the rows of a small table.
use kitchen_sync.Common.{◌≡◌}
use kitchen_sync.Table.{rows_in_range}
use kitchen_sync.Table.Examples.{pair_format, rows_with, rows_with-IsTable}
use kitchen_sync.Rows.{send_rows}
use kitchen_sync.Rows.Batches.{send_rows-rows_in_range}

send_rows-rows_in_range_example :
    send_rows pair_format (rows_with 9 1) 1 0 ≡ rows_in_range pair_format (rows_with 9 1) 1 0
send_rows-rows_in_range_example =
    send_rows-rows_in_range pair_format (rows_with 9 1) (rows_with-IsTable 9 1) 1 0
