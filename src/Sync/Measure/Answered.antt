-- ===== src/Sync/Measure/Answered.antt =====
-- A hash response leaves less to do than there was before it.
use kitchen_sync.Common.{
  ℕ, ◌+◌, ◌-◌, ◌*◌, ◌<◌, ◌≤◌, ◌≡◌, ◌≢◌, sym, inl, inr, Bool, true, false, not, ◌&&◌, List, [], ◌∷◌,
  ◌++◌, arith, ltb, ◌==◌, if◌then◌else◌, Bool-cases, ℕ_discrete,
}
use kitchen_sync.Table.{RowFormat, Table, IsTable}
use kitchen_sync.Table.Count.{
  rows_between, rows_between_pos, rows_between_split, rows_between_empty, length-retrieve_rows,
}
use kitchen_sync.Sync.{
  KeyRange, KeyRangeToCheck, TableJob, HashResult, HashCommand, HashResponse, BlockSizes,
  scan_forward, hunt_error, queue_remainder, queue_mismatch, hash_matches,
}
use kitchen_sync.Sync.Hashed.{IsHashed, hashed_rows}
use kitchen_sync.Sync.Answer.{answered_job}

-- The steps that a range of `rows` rows can still cost; a check that is asked for the whole range may
-- have to be repeated for all of it, with half the rows.
abbrev pub work_of : ℕ → ℕ → ℕ
work_of rows rows_to_hash = if ltb rows_to_hash rows then 8 * rows - 6 else 8 * rows - 4

module _ (F : RowFormat) (original : Table F) (wf : IsTable F original) where
  abbrev pub checks_work : List KeyRangeToCheck → ℕ
  checks_work [] = 0
  checks_work (r ∷ rs) =
      work_of (rows_between F original wf r.prev_key r.last_key) r.rows_to_hash + checks_work rs

  abbrev pub retrieve_work : List KeyRange → ℕ
  retrieve_work [] = 0
  retrieve_work (r ∷ rs) = 2 + retrieve_work rs

  abbrev pub job_work : TableJob → ℕ
  job_work job = checks_work job.ranges_to_check + retrieve_work job.ranges_to_retrieve

  pub checks_work-append :
      (xs ys : List KeyRangeToCheck) → checks_work (xs ++ ys) ≡ checks_work xs + checks_work ys
  checks_work-append [] ys = omega arith
  checks_work-append (x ∷ xs) ys = omega (arith, checks_work-append xs ys)

  pub retrieve_work-append :
      (xs ys : List KeyRange) → retrieve_work (xs ++ ys) ≡ retrieve_work xs + retrieve_work ys
  retrieve_work-append [] ys = omega arith
  retrieve_work-append (x ∷ xs) ys = omega (arith, retrieve_work-append xs ys)

  abbrev rows : ℕ → ℕ → ℕ
  rows prev last = rows_between F original wf prev last

  module _ (digest : List ℕ → List ℕ) (sizes : BlockSizes) {c : HashCommand} {h : HashResult}
      (v : IsHashed F digest original c h) where
    -- The rows that were hashed and the rows behind them make up the range.
    hashed_rows_split :
        (h.our_row_count ≡ rows h.prev_key h.our_last_key)
        × (1 ≤ h.our_row_count)
        × (rows h.prev_key h.last_key ≡ h.our_row_count + rows h.our_last_key h.last_key)
        × (h.our_last_key ≢ h.last_key → 1 ≤ rows h.our_last_key h.last_key)
        × (h.our_last_key ≡ h.last_key → rows h.our_last_key h.last_key ≡ 0)
    hashed_rows_split =
        let (pos, _, lo, hi, present, _) = hashed_rows F digest original wf v in
        let counted : h.our_row_count ≡ rows h.prev_key h.our_last_key =
          rw (v.row_count, v.last_row)
            (length-retrieve_rows F original wf h.prev_key h.last_key c.rows_to_hash v.ordered
              v.ends v.some_rows) in
        let split =
          rows_between_split F original wf h.prev_key h.our_last_key h.last_key (omega arith) hi
            (omega arith) in
        (
          counted,
          pos,
          omega arith,
          λ ne. rows_between_pos F original wf h.our_last_key h.last_key (omega arith) v.ends,
          λ e. rw e (rows_between_empty F original wf h.last_key (omega arith)),
        )

    -- Scanning forward, a remainder of R rows costs 8 * R - 4 steps at most.
    scan_forward-work :
        (matched : Bool) (queue : List KeyRangeToCheck)
        → h.our_last_key ≢ h.last_key
        → checks_work (scan_forward sizes h matched queue)
          ≤ 8 * rows h.our_last_key h.last_key - 4 + checks_work queue
    unfolding scan_forward
    scan_forward-work matched queue ne =
        let (_, _, lo, hi, _, _) = hashed_rows F digest original wf v in
        elim v.midpoint [
          | inl none_found ↦ ground arith
          | inr (above, below, present) ↦ elim (ℕ_discrete h.next_midpoint h.our_last_key) [
            | yes a ↦ ground arith
            | no a ↦ elim (ℕ_discrete h.next_midpoint h.last_key) [
              | yes b ↦ ground arith
              | no b ↦
                  let split =
                    rows_between_split F original wf h.our_last_key h.next_midpoint h.last_key above
                      below (omega arith) in
                  let first_half =
                    rows_between_pos F original wf h.our_last_key h.next_midpoint (omega arith)
                      present in
                  let second_half =
                    rows_between_pos F original wf h.next_midpoint h.last_key (omega arith)
                      v.ends in
                  ground arith
            ]
          ]
        ]

    hunt_error-work :
        (matched : Bool) (queue : List KeyRangeToCheck)
        → checks_work (hunt_error sizes h matched queue)
          ≤ 8 * rows h.our_last_key h.last_key - 4 + checks_work queue
    unfolding hunt_error
    hunt_error-work matched queue = ground arith

    queue_remainder-work :
        (matched : Bool) (queue : List KeyRangeToCheck)
        → checks_work (queue_remainder sizes h c.rows_to_hash matched queue)
            + (8 * h.our_row_count - 6)
          < work_of (rows h.prev_key h.last_key) c.rows_to_hash - 1 + checks_work queue
    unfolding queue_remainder
    queue_remainder-work matched queue =
        let (_, le, _, _, _, whole) = hashed_rows F digest original wf v in
        let (_, pos, total, behind, nothing) = hashed_rows_split in
        elim (Bool-cases
          (h.our_row_count == c.rows_to_hash && not (h.our_last_key == h.last_key))) [
            | inr f ↦
                let ended : h.our_last_key ≡ h.last_key = ground arith in
                let none_left = nothing ended in rw f (ground arith)
            | inl t ↦
                let ne : h.our_last_key ≢ h.last_key = ground arith in
                let asked : h.our_row_count ≡ c.rows_to_hash = ground arith in
                let some_left = behind ne in
                let forward = scan_forward-work matched queue ne in
                let hunting = hunt_error-work matched queue in rw t (ground arith)
          ]

    queue_mismatch-work :
        (matched : Bool) (job : TableJob)
        → job_work (queue_mismatch sizes h matched job) ≤ 8 * h.our_row_count - 6 + job_work job
    unfolding queue_mismatch
    queue_mismatch-work true job = omega arith
    queue_mismatch-work false job =
        let (counted, pos, _, _, _) = hashed_rows_split in
        elim (Bool-cases
          (ltb 1 h.our_row_count && ltb sizes.target_minimum_block_size h.our_size)) [
            | inl t ↦ rw t (rw (sym counted) (ground arith))
            | inr f ↦ rw f (omega (arith, retrieve_work-append job.ranges_to_retrieve))
          ]

    -- A response leaves less than its command had left.
    pub answered_job-work :
        (job : TableJob) (response : HashResponse)
        → response.rows_to_hash ≡ c.rows_to_hash
        → job_work (answered_job sizes job h response)
          < work_of (rows h.prev_key h.last_key) c.rows_to_hash - 1 + job_work job
    unfolding answered_job
    answered_job-work job response same =
        let matched = hash_matches h response in
        let rest = queue_remainder sizes h c.rows_to_hash matched job.ranges_to_check in
        simp same (
          omega (
            arith,
            queue_mismatch-work matched (record job { ranges_to_check = rest }),
            queue_remainder-work matched job.ranges_to_check,
          ))
