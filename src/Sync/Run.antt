-- ===== src/Sync/Run.antt =====
-- The steps by which the workers bring one table into line (the loop of `sync_table` in
-- src/sync_to_algorithm.h), for any number of workers and in any order that their connections allow.
use kitchen_sync.Common.{
  ℕ, ◌+◌, ◌≤◌, ◌≡◌, ◌⊎◌, ◌<◌, Bool, none, ◌&&◌, ◌==◌, length, if◌then◌else◌, List, [], ◌∷◌, ◌++◌,
  All,
}
use kitchen_sync.Table.{RowFormat, Table, IsTable, replace_range, rows_in_range}
use kitchen_sync.Sync.{
  KeyRange, KeyRangeToCheck, TableJob, HashResult, HashCommand, BlockSizes, ok, send_hash_command,
  handle_hash_response, handle_hash_command,
}
use kitchen_sync.Sync.Coverage.{weight, count_job}

-- A command that was sent and not answered yet.
pub data InFlight : Type 0 where
  hashing : HashCommand → HashResult → InFlight
  retrieving : KeyRange → InFlight

pub record State (F : RowFormat) : Type 0 where
  pub job : TableJob
  pub flight : List InFlight
  -- With the statements that the writer has not executed yet.
  pub target : Table F

module _ (key : ℕ) where
  abbrev pub flight_weight : InFlight → ℕ
  flight_weight (hashing c h) = weight h.prev_key h.last_key key
  flight_weight (retrieving r) = weight r.prev_key r.last_key key

  abbrev pub count_flight : List InFlight → ℕ
  count_flight [] = 0
  count_flight (o ∷ os) = flight_weight o + count_flight os

  -- How many of the ranges that are left to do, waiting or sent, cover the key.
  abbrev pub pending : {F : RowFormat} → State F → ℕ
  pending s = count_job key s.job + count_flight s.flight

module _ (F : RowFormat) (digest : List ℕ → List ℕ) (subdivide : ℕ → ℕ → ℕ) (sizes : BlockSizes)
    (source committed : Table F) where
  -- What a worker's connection sees of a range: each row as it is committed, as for a worker that does
  -- not write, or as it is for the writer.
  abbrev pub Sees : State F → KeyRangeToCheck → Table F → Type 0
  Sees s r view =
      (k : ℕ)
      → r.prev_key < k
      → k ≤ r.last_key
      → (view.row_at k ≡ committed.row_at k) ⊎ (view.row_at k ≡ s.target.row_at k)

  -- What the rows of a range do to the target. If none come for a range without a start, the whole
  -- table is compared with them and removed.
  unfoldable pub apply_rows : Table F → KeyRange → Table F
  apply_rows target r =
      if r.prev_key == 0 && length (rows_in_range F source r.prev_key r.last_key) == 0
      then record target { row_at = λ key. none }
      else replace_range F source target r.prev_key r.last_key

  abbrev pub after_send : State F → List KeyRangeToCheck → HashCommand → HashResult → State F
  after_send s rest c h = record s {
    job = record s.job { ranges_to_check = rest; hash_commands = s.job.hash_commands + 1 };
    flight = s.flight ++ (hashing c h ∷ []);
  }

  pub data Step (s t : State F) : Type 0 where
    -- The range is one of those of the greatest priority.
    hash_sent :
        (before after : List KeyRangeToCheck) (r : KeyRangeToCheck) (view : Table F)
        (c : HashCommand) (h : HashResult)
        → s.job.ranges_to_check ≡ before ++ (r ∷ after)
        → All (λ x. x.priority ≤ r.priority) s.job.ranges_to_check
        → IsTable F view
        → Sees s r view
        → send_hash_command F digest subdivide view s.job r ≡ ok (c, h)
        → t ≡ after_send s (before ++ after) c h
        → Step s t
    hash_answered :
        (before after : List InFlight) (c : HashCommand) (h : HashResult)
        (outstanding left : List HashResult) (job : TableJob) (share : Bool)
        → s.flight ≡ before ++ (hashing c h ∷ after)
        → handle_hash_response sizes s.job (h ∷ outstanding) (handle_hash_command F digest source c)
          ≡ ok (job, left, share)
        → t ≡ record s { job = job; flight = before ++ after }
        → Step s t
    rows_requested :
        (r : KeyRange) (rest : List KeyRange)
        → s.job.ranges_to_retrieve ≡ r ∷ rest
        → t ≡ record s {
          job = record s.job { ranges_to_retrieve = rest; rows_commands = s.job.rows_commands + 1 };
          flight = s.flight ++ (retrieving r ∷ []);
        }
        → Step s t
    rows_applied :
        (before after : List InFlight) (r : KeyRange)
        → s.flight ≡ before ++ (retrieving r ∷ after)
        → t ≡ record s { target = apply_rows s.target r; flight = before ++ after }
        → Step s t

  pub data Reach (s : State F) : State F → Type 0 where
    here : Reach s s
    next : {t u : State F} → Reach s t → Step t u → Reach s u
