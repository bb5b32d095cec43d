-- ===== src/Sync.antt =====
-- One table's synchronisation: the job that the workers share (TableJob of src/sync_queue.h), what the
-- 'to' end does when it sends and receives a hash (src/sync_to_algorithm.h), and the answers of the
-- 'from' end (src/sync_from.h).
--
-- Counters of commands and priorities do not wrap; row and byte counts that the code multiplies do.
pub mod Scan
pub mod Coverage
pub mod Hashed
pub mod Response
pub mod Answer
pub mod Run
pub mod Range
pub mod Invariant
pub mod Converge
pub mod Measure
pub mod Progress
pub mod Finish
pub mod Accept
pub mod Loop
mod Tests
pub mod Committed
pub mod Correct
use text.Mathlib.Text.{◌==◌ as str_eq}
use Prim.Native.String.{String}
use kitchen_sync.Common.{
  ℕ, zero, suc, ◌+◌, ◌-◌, ◌*◌, ◌/◌, ◌%◌, ◌^◌, ◌≤◌, max, Bool, true, false, not, ◌&&◌, ◌||◌, ◌≡◌,
  List, [], ◌∷◌, ◌++◌, length, ◌==◌, ltb, leb, if◌then◌else◌,
}
use kitchen_sync.Table.{
  RowFormat, Table, retrieve_rows, rows_in_range, packed_rows, last_key_of, first_key,
  first_key_not_earlier_than,
}

pub record KeyRange : Type 0 where
  pub prev_key : ℕ
  pub last_key : ℕ

pub record KeyRangeToCheck : Type 0 where
  pub key_range : KeyRange
  pub open key_range use *
  pub estimated_rows_in_range : ℕ
  pub rows_to_hash : ℕ
  pub priority : ℕ

abbrev pub size_mod : ℕ
size_mod = 2 ^ 64

-- numeric_limits<size_t>::max()
abbrev pub unknown_row_count : ℕ
unknown_row_count = size_mod - 1

pub record TableJob : Type 0 where
  pub table_name : String
  pub table_id : String
  pub subdividable : Bool
  pub ranges_to_retrieve : List KeyRange
  -- The priority queue, in no order: what is taken is an entry of the greatest priority.
  pub ranges_to_check : List KeyRangeToCheck
  pub notify_when_work_could_be_shared : Bool
  pub hash_commands : ℕ
  pub hash_commands_completed : ℕ
  pub rows_commands : ℕ

pub record HashResult : Type 0 where
  pub prev_key : ℕ
  pub last_key : ℕ
  pub estimated_rows_in_range : ℕ
  pub priority : ℕ
  pub our_row_count : ℕ
  pub our_size : ℕ
  pub our_hash : List ℕ
  pub our_last_key : ℕ
  pub next_midpoint : ℕ

-- The arguments of the HASH command and of its response.
pub record HashCommand : Type 0 where
  pub table_id : String
  pub prev_key : ℕ
  pub last_key : ℕ
  pub rows_to_hash : ℕ

pub record HashResponse : Type 0 where
  pub table_name : String
  pub prev_key : ℕ
  pub last_key : ℕ
  pub rows_to_hash : ℕ
  pub their_row_count : ℕ
  pub their_hash : List ℕ

pub record BlockSizes : Type 0 where
  pub target_minimum_block_size : ℕ
  pub target_maximum_block_size : ℕ

pub data Error : Type 0 where
  logic_error command_error : Error

pub data Result {ℓ} (A : Type ℓ) : Type ℓ where
  ok : A → Result A
  err : Error → Result A

pub bytes_eq : List ℕ → List ℕ → Bool
bytes_eq [] [] = true
bytes_eq [] (y ∷ ys) = false
bytes_eq (x ∷ xs) [] = false
bytes_eq (x ∷ xs) (y ∷ ys) = x == y && bytes_eq xs ys

-- How many rows to hash next when scanning forward. Division by zero, which the source leaves
-- undefined, gives 0 here; see `Hashed` for why it does not occur.
pub rows_to_scan_forward_next : BlockSizes → Bool → ℕ → ℕ → ℕ
rows_to_scan_forward_next sizes matched our_row_count our_size =
    if matched
    then (if leb our_size (sizes.target_maximum_block_size / 2)
        then max (our_row_count * 2 % size_mod) 1
        else max (our_row_count * sizes.target_maximum_block_size % size_mod / our_size) 1)
    else (if leb (sizes.target_minimum_block_size * 2 % size_mod) our_size
        then max (our_row_count / 2) 1
        else max (our_row_count * sizes.target_minimum_block_size % size_mod / our_size) 1)

abbrev range_to_check : ℕ → ℕ → ℕ → ℕ → ℕ → KeyRangeToCheck
range_to_check prev last estimated rows priority = record {
  key_range = record { prev_key = prev; last_key = last };
  estimated_rows_in_range = estimated;
  rows_to_hash = rows;
  priority = priority;
}

-- Scanning forward: the rest of the range, in two parts where a midpoint was found.
pub scan_forward : BlockSizes → HashResult → Bool → List KeyRangeToCheck → List KeyRangeToCheck
scan_forward sizes h matched queue =
    let rows = rows_to_scan_forward_next sizes matched h.our_row_count h.our_size in
    if not (h.next_midpoint == 0)
    then (let first_half =
          if not (h.next_midpoint == h.our_last_key)
          then range_to_check h.our_last_key h.next_midpoint unknown_row_count rows (h.priority + 1)
            ∷ queue
          else queue in
        if not (h.last_key == h.next_midpoint)
        then range_to_check h.next_midpoint h.last_key unknown_row_count rows (h.priority + 1)
          ∷ first_half
        else first_half)
    else range_to_check h.our_last_key h.last_key unknown_row_count rows h.priority ∷ queue

-- Hunting an error: the rows that remain of a range that is known to differ.
pub hunt_error : BlockSizes → HashResult → Bool → List KeyRangeToCheck → List KeyRangeToCheck
hunt_error sizes h matched queue =
    let rows_remaining =
      if ltb h.our_row_count h.estimated_rows_in_range
      then h.estimated_rows_in_range - h.our_row_count
      else 1 in
    let rows_to_hash_next =
      if matched && ltb 1 rows_remaining && ltb sizes.target_minimum_block_size h.our_size
      then rows_remaining / 2
      else rows_remaining in
    range_to_check h.our_last_key h.last_key rows_remaining rows_to_hash_next (h.priority + 1)
    ∷ queue

-- What is queued for the part of the range behind the rows that were hashed.
pub queue_remainder :
    BlockSizes → HashResult → ℕ → Bool → List KeyRangeToCheck → List KeyRangeToCheck
queue_remainder sizes h rows_to_hash matched queue =
    if h.our_row_count == rows_to_hash && not (h.our_last_key == h.last_key)
    then (if h.estimated_rows_in_range == unknown_row_count
        then scan_forward sizes h matched queue
        else hunt_error sizes h matched queue)
    else queue

-- What is queued for the part that was hashed.
pub queue_mismatch : BlockSizes → HashResult → Bool → TableJob → TableJob
queue_mismatch sizes h matched job =
    if matched
    then job
    else (if ltb 1 h.our_row_count && ltb sizes.target_minimum_block_size h.our_size
        then record job {
          ranges_to_check =
              range_to_check h.prev_key h.our_last_key h.our_row_count (h.our_row_count / 2)
                (h.priority + 1)
              ∷ job.ranges_to_check;
        }
        else record job {
          ranges_to_retrieve =
              job.ranges_to_retrieve
              ++ (record { prev_key = h.prev_key; last_key = h.our_last_key } ∷ []);
        })

pub hash_matches : HashResult → HashResponse → Bool
unfolding bytes_eq
hash_matches h response =
    bytes_eq h.our_hash response.their_hash && h.our_row_count == response.their_row_count

-- The job and the hashes still outstanding after a response, and whether the queue is told that
-- there is work to share.
pub handle_hash_response :
    BlockSizes
    → TableJob
    → List HashResult
    → HashResponse
    → Result (TableJob × List HashResult × Bool)
handle_hash_response sizes job [] response = err command_error
handle_hash_response sizes job (h ∷ ranges_hashed) response =
    if not (str_eq response.table_name job.table_name)
      || (not (response.prev_key == h.prev_key) || not (response.last_key == h.last_key))
    then err command_error
    else (let matched = hash_matches h response in
        let queued = record job {
          ranges_to_check =
              queue_remainder sizes h response.rows_to_hash matched job.ranges_to_check;
        } in
        let searched = queue_mismatch sizes h matched queued in
        ok (
          record searched { hash_commands_completed = searched.hash_commands_completed + 1 },
          ranges_hashed,
          job.notify_when_work_could_be_shared,
        ))

module _ (F : RowFormat) (digest : List ℕ → List ℕ) where
  -- `subdivide` is subdivide_primary_key_range, on positions.
  pub next_midpoint_of : (ℕ → ℕ → ℕ) → Table F → TableJob → KeyRangeToCheck → ℕ → ℕ → ℕ
  next_midpoint_of subdivide view job r row_count our_last_key =
      if job.subdividable
        && (r.estimated_rows_in_range == unknown_row_count
            && (row_count == r.rows_to_hash && not (our_last_key == r.last_key)))
      then first_key_not_earlier_than F view (subdivide our_last_key r.last_key) our_last_key
          r.last_key
      else 0

  pub hash_command_of : TableJob → KeyRangeToCheck → HashCommand
  hash_command_of job r = record {
    table_id = job.table_id;
    prev_key = r.prev_key;
    last_key = r.last_key;
    rows_to_hash = r.rows_to_hash;
  }

  pub hash_result_of : (ℕ → ℕ → ℕ) → Table F → TableJob → KeyRangeToCheck → HashResult
  unfolding next_midpoint_of
  hash_result_of subdivide view job r =
      let rows = retrieve_rows F view r.prev_key r.last_key r.rows_to_hash in
      record {
        prev_key = r.prev_key;
        last_key = r.last_key;
        estimated_rows_in_range = r.estimated_rows_in_range;
        priority = r.priority;
        our_row_count = length rows;
        our_size = length (packed_rows F rows);
        our_hash = digest (packed_rows F rows);
        our_last_key = last_key_of F rows;
        next_midpoint = next_midpoint_of subdivide view job r (length rows) (last_key_of F rows);
      }

  -- `view` is the table as this worker's connection sees it.
  pub send_hash_command :
      (ℕ → ℕ → ℕ) → Table F → TableJob → KeyRangeToCheck → Result (HashCommand × HashResult)
  unfolding hash_command_of hash_result_of
  send_hash_command subdivide view job r =
      if r.rows_to_hash == 0
      then err logic_error
      else ok (hash_command_of job r, hash_result_of subdivide view job r)

  -- The 'from' end's answer.
  pub handle_hash_command : Table F → HashCommand → HashResponse
  handle_hash_command source c =
      let rows = retrieve_rows F source c.prev_key c.last_key c.rows_to_hash in
      record {
        table_name = c.table_id;
        prev_key = c.prev_key;
        last_key = c.last_key;
        rows_to_hash = c.rows_to_hash;
        their_row_count = length rows;
        their_hash = digest (packed_rows F rows);
      }
