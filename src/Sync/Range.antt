-- ===== src/Sync/Range.antt =====
-- How the writer starts on a table: the RANGE command (`handle_range_command` of src/sync_from.h) and its
-- response (`handle_range_response` and `queue_initial_ranges` of src/sync_to_algorithm.h).
pub mod Initial
pub mod Start
pub mod Named
pub mod Views
use kitchen_sync.Common.{
  ℕ, ◌+◌, Bool, not, ◌||◌, Option, none, List, [], ◌∷◌, ltb, ◌==◌, if◌then◌else◌,
}
use kitchen_sync.Table.{
  RowFormat, Table, first_key, last_key, first_key_not_earlier_than, replace_range,
}
use kitchen_sync.Sync.{KeyRange, KeyRangeToCheck, TableJob, unknown_row_count}
use kitchen_sync.Sync.Run.{State}

module _ (F : RowFormat) where
  -- The keys of the response.
  pub handle_range_command : Table F → ℕ × ℕ
  handle_range_command source = (first_key F source, last_key F source)

  -- DELETE FROM table
  pub delete_all : Table F → Table F
  delete_all t = record t { row_at = λ key. none }

  -- DELETE FROM table WHERE key < first, and WHERE key > last
  pub delete_outside : ℕ → ℕ → Table F → Table F
  delete_outside first last t = record t {
    row_at = λ key. if ltb key first || ltb last key then none else t.row_at key;
  }

  abbrev initial_range : ℕ → ℕ → KeyRangeToCheck
  initial_range prev last = record {
    key_range = record { prev_key = prev; last_key = last };
    estimated_rows_in_range = unknown_row_count;
    rows_to_hash = 1;
    priority = 0;
  }

  pub initial_midpoint : (ℕ → ℕ → ℕ) → Table F → TableJob → ℕ → ℕ → ℕ → ℕ
  initial_midpoint subdivide target job our_last_key their_first_key their_last_key =
      if job.subdividable
      then first_key_not_earlier_than F target (subdivide their_first_key their_last_key) 0
          our_last_key
      else 0

  pub initial_ranges : ℕ → ℕ → List KeyRangeToCheck → List KeyRangeToCheck
  initial_ranges midpoint our_last_key queue =
      let first_half = if not (midpoint == 0) then initial_range 0 midpoint ∷ queue else queue in
      if not (midpoint == our_last_key)
      then initial_range midpoint our_last_key ∷ first_half
      else first_half

  pub queue_initial_ranges : (ℕ → ℕ → ℕ) → Table F → TableJob → ℕ → ℕ → ℕ → TableJob
  queue_initial_ranges subdivide target job our_last_key their_first_key their_last_key =
      record job {
        ranges_to_check =
            initial_ranges
              (initial_midpoint subdivide target job our_last_key their_first_key their_last_key)
              our_last_key job.ranges_to_check;
      }

  -- The rows after our last key are requested and inserted before the writer sends anything else; there
  -- are none of ours in their place. Other workers may take ranges before they have come, and the
  -- statements may wait, which makes no difference to what is seen of the ranges: they end at our last
  -- key.
  pub request_rows_without_pipelining : Table F → State F → ℕ → ℕ → State F
  request_rows_without_pipelining source s prev last = record s {
    job = record s.job { rows_commands = s.job.rows_commands + 1 };
    target = replace_range F source s.target prev last;
  }

  pub handle_range_response : (ℕ → ℕ → ℕ) → Table F → TableJob → Table F → ℕ × ℕ → State F
  handle_range_response subdivide source job target (their_first_key, their_last_key) =
      if their_first_key == 0
      then record { job = job; flight = []; target = delete_all target }
      else (let cleared = delete_outside their_first_key their_last_key target in
          let our_last_key = last_key F cleared in
          let queued =
            if not (our_last_key == 0)
            then queue_initial_ranges subdivide cleared job our_last_key their_first_key
                their_last_key
            else job in
          let s : State F = record { job = queued; flight = []; target = cleared } in
          if not (our_last_key == their_last_key)
          then request_rows_without_pipelining source s our_last_key their_last_key
          else s)

  -- The writer's `start_sync_table`, for a table with a key.
  pub start_sync_table : (ℕ → ℕ → ℕ) → Table F → TableJob → Table F → State F
  start_sync_table subdivide source job target =
      handle_range_response subdivide source job target (handle_range_command source)
