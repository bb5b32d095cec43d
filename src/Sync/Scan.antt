-- ===== src/Sync/Scan.antt =====
-- How many rows are hashed at a time.
use kitchen_sync.Common.{ℕ, ◌≤◌, Bool, true, false, arith}
use kitchen_sync.Sync.{BlockSizes, rows_to_scan_forward_next}

-- The next hash command always asks for a row at least.
pub rows_to_scan_forward_next-pos :
    (sizes : BlockSizes) (matched : Bool) (row_count size : ℕ)
    → 1 ≤ rows_to_scan_forward_next sizes matched row_count size
unfolding rows_to_scan_forward_next
rows_to_scan_forward_next-pos sizes true row_count size = ground arith
rows_to_scan_forward_next-pos sizes false row_count size = ground arith
