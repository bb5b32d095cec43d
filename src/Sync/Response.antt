-- ===== src/Sync/Response.antt =====
-- What handling a hash response does to the ranges that are left to do.
use kitchen_sync.Common.{
  ℕ, ◌+◌, ◌≤◌, ◌<◌, ◌≡◌, ◌≢◌, refl, inl, inr, Bool, true, false, not, ◌&&◌, List, All, arith, ◌==◌,
  ltb, Bool-cases,
}
use kitchen_sync.Table.{RowFormat, Table, IsTable, IsPresent}
use kitchen_sync.Sync.{
  KeyRangeToCheck, TableJob, HashResult, HashCommand, BlockSizes, unknown_row_count, scan_forward,
  hunt_error, queue_remainder, queue_mismatch,
}
use kitchen_sync.Sync.Scan.{rows_to_scan_forward_next-pos}
use kitchen_sync.Sync.Coverage.{weight, weight_split, count_checks, count_job, count_ranges-append}
use kitchen_sync.Sync.Hashed.{IsCheck, IsHashed, hashed_rows}

module _ (F : RowFormat) (digest : List ℕ → List ℕ) (original : Table F) (wf : IsTable F original)
    (sizes : BlockSizes) {c : HashCommand} {h : HashResult}
    (v : IsHashed F digest original c h) where
  -- The remainder is covered once more, and by nothing else.
  scan_forward-covers :
      (matched : Bool) (queue : List KeyRangeToCheck) (key : ℕ)
      → count_checks key (scan_forward sizes h matched queue)
        ≡ weight h.our_last_key h.last_key key + count_checks key queue
  unfolding scan_forward
  scan_forward-covers matched queue key = elim v.midpoint [
    | inl none_found ↦ ground arith
    | inr (lo, hi, _) ↦ ground (arith, weight_split h.our_last_key h.next_midpoint h.last_key key)
  ]

  IsCheck-range :
      (prev last estimated rows priority : ℕ)
      → prev < last
      → IsPresent F original last
      → 1 ≤ rows
      → IsCheck F original (record {
        key_range = record { prev_key = prev; last_key = last };
        estimated_rows_in_range = estimated;
        rows_to_hash = rows;
        priority = priority;
      })
  IsCheck-range prev last estimated rows priority o e s = record {
    ordered = o;
    ends = e;
    some_rows = s;
  }

  scan_forward-IsCheck :
      (matched : Bool) (queue : List KeyRangeToCheck)
      → h.our_last_key ≢ h.last_key
      → All (IsCheck F original) queue
      → All (IsCheck F original) (scan_forward sizes h matched queue)
  unfolding scan_forward
  scan_forward-IsCheck matched queue ne q =
      let (_, _, lo, hi, _, _) = hashed_rows F digest original wf v in
      let rows = rows_to_scan_forward_next-pos sizes matched h.our_row_count h.our_size in
      elim (Bool-cases (h.next_midpoint == 0)) [
        | inl z ↦ rw z (IsCheck-range _ _ _ _ _ (omega arith) v.ends rows, q)
        | inr nz ↦ elim v.midpoint [
          | inl e ↦ absurd (ground arith)
          | inr (lo', hi', present) ↦ rw nz (elim (Bool-cases (h.next_midpoint == h.our_last_key)) [
            | inl a ↦ elim (Bool-cases (h.last_key == h.next_midpoint)) [
              | inl b ↦ rw (a, b) q
              | inr b ↦ rw (a, b) (IsCheck-range _ _ _ _ _ (ground arith) v.ends rows, q)
            ]
            | inr a ↦ elim (Bool-cases (h.last_key == h.next_midpoint)) [
              | inl b ↦ rw (a, b) (IsCheck-range _ _ _ _ _ (ground arith) present rows, q)
              | inr b ↦
                  rw (a, b)
                    (
                      IsCheck-range _ _ _ _ _ (ground arith) v.ends rows,
                      (IsCheck-range _ _ _ _ _ (ground arith) present rows, q),
                    )
            ]
          ])
        ]
      ]

  hunt_error-IsCheck :
      (matched : Bool) (queue : List KeyRangeToCheck)
      → h.our_last_key ≢ h.last_key
      → All (IsCheck F original) queue
      → All (IsCheck F original) (hunt_error sizes h matched queue)
  unfolding hunt_error
  hunt_error-IsCheck matched queue ne q =
      let (_, _, lo, hi, _, _) = hashed_rows F digest original wf v in
      (IsCheck-range _ _ _ _ _ (omega arith) v.ends (ground arith), q)

  -- After a response the remainder of the range waits for its own check, whatever the response said.
  pub queue_remainder-covers :
      (matched : Bool) (queue : List KeyRangeToCheck) (key : ℕ)
      → count_checks key (queue_remainder sizes h c.rows_to_hash matched queue)
        ≡ weight h.our_last_key h.last_key key + count_checks key queue
  unfolding queue_remainder hunt_error
  queue_remainder-covers matched queue key =
      let (_, le, _, _, _, whole) = hashed_rows F digest original wf v in
      ground (arith, scan_forward-covers matched queue key)

  pub queue_remainder-IsCheck :
      (matched : Bool) (queue : List KeyRangeToCheck)
      → All (IsCheck F original) queue
      → All (IsCheck F original) (queue_remainder sizes h c.rows_to_hash matched queue)
  unfolding queue_remainder
  queue_remainder-IsCheck matched queue q =
      elim (Bool-cases (h.our_row_count == c.rows_to_hash && not (h.our_last_key == h.last_key))) [
        | inr f ↦ rw f q
        | inl t ↦
            let ne : h.our_last_key ≢ h.last_key = ground arith in
            rw t (elim (Bool-cases (h.estimated_rows_in_range == unknown_row_count)) [
              | inl u ↦ rw u (scan_forward-IsCheck matched queue ne q)
              | inr u ↦ rw u (hunt_error-IsCheck matched queue ne q)
            ])
      ]

  -- The part that was hashed is dropped if it matched; else it waits to be checked again or to be
  -- retrieved.
  pub queue_mismatch-covers :
      (job : TableJob) (key : ℕ)
      → (count_job key (queue_mismatch sizes h true job) ≡ count_job key job)
        × (count_job key (queue_mismatch sizes h false job)
            ≡ weight h.prev_key h.our_last_key key + count_job key job)
  unfolding queue_mismatch
  queue_mismatch-covers job key = (
    refl,
    elim (Bool-cases (ltb 1 h.our_row_count && ltb sizes.target_minimum_block_size h.our_size)) [
      | inl t ↦ rw t (omega arith)
      | inr f ↦ rw f (omega (arith, count_ranges-append key job.ranges_to_retrieve _))
    ],
  )

  pub queue_mismatch-IsCheck :
      (matched : Bool) (job : TableJob)
      → All (IsCheck F original) job.ranges_to_check
      → All (IsCheck F original) (queue_mismatch sizes h matched job).ranges_to_check
  unfolding queue_mismatch
  queue_mismatch-IsCheck true job q = q
  queue_mismatch-IsCheck false job q =
      let (_, _, lo, _, present, _) = hashed_rows F digest original wf v in
      elim (Bool-cases (ltb 1 h.our_row_count && ltb sizes.target_minimum_block_size h.our_size)) [
        | inl t ↦ rw t (IsCheck-range _ _ _ _ _ lo present (ground arith), q)
        | inr f ↦ rw f q
      ]
