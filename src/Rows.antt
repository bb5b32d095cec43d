-- ===== src/Rows.antt =====
-- Sending the rows of a range (`send_rows` of src/sync_from.h).
pub mod Batches
mod Tests
use kitchen_sync.Common.{ℕ, zero, suc, ◌-◌, List, [], ◌++◌, length, ltb, if◌then◌else◌}
use kitchen_sync.Table.{RowFormat, Table, retrieve_rows, last_key_of, upper}

-- In batches of `batch` rows. Nothing is sent when the fuel runs out; `Batches` shows that it does not.
pub send_batches : (F : RowFormat) → ℕ → ℕ → Table F → ℕ → ℕ → List F.Row
send_batches F batch zero t prev_key last_key = []
send_batches F batch (suc fuel) t prev_key last_key =
    let rows = retrieve_rows F t prev_key last_key batch in
    let rest = send_batches F batch fuel t (last_key_of F rows) last_key in
    if ltb (length rows) batch then rows else rows ++ rest

-- The batches are of BATCH_SIZE rows, and each but the last leaves a position behind.
pub send_rows : (F : RowFormat) → Table F → ℕ → ℕ → List F.Row
unfolding send_batches
send_rows F t prev_key last_key =
    send_batches F 10000 (suc (upper F t last_key - prev_key)) t prev_key last_key
