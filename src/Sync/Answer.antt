-- ===== src/Sync/Answer.antt =====
-- A hash response as a whole: the job that it leaves.
use kitchen_sync.Common.{
  ℕ, ◌+◌, ◌≡◌, ◌⊎◌, inl, inr, Bool, true, false, not, ◌&&◌, ◌||◌, List, ◌∷◌, All, All-append, arith,
  ◌==◌, ltb, Bool-cases,
}
use text.Mathlib.Text.{◌==◌ as str_eq}
use kitchen_sync.Table.{RowFormat, Table, IsTable}
use kitchen_sync.Sync.{
  TableJob, HashResult, HashCommand, HashResponse, BlockSizes, queue_remainder, queue_mismatch,
  hash_matches, handle_hash_response, ok,
}
use kitchen_sync.Sync.Coverage.{weight, weight_split, count_job}
use kitchen_sync.Sync.Hashed.{IsRetrieve, IsCheck, IsHashed, hashed_rows}
use kitchen_sync.Sync.Response.{
  queue_remainder-covers, queue_remainder-IsCheck, queue_mismatch-covers, queue_mismatch-IsCheck,
}

-- The job after a response that was accepted.
unfoldable pub answered_job : BlockSizes → TableJob → HashResult → HashResponse → TableJob
answered_job sizes job h response =
    let matched = hash_matches h response in
    let searched = queue_mismatch sizes h matched (record job {
      ranges_to_check = queue_remainder sizes h response.rows_to_hash matched job.ranges_to_check;
    }) in
    record searched { hash_commands_completed = searched.hash_commands_completed + 1 }

pub handle_hash_response-answered :
    (sizes : BlockSizes) (job job' : TableJob) (h : HashResult) (outstanding left : List HashResult)
    (response : HashResponse) (share : Bool)
    → handle_hash_response sizes job (h ∷ outstanding) response ≡ ok (job', left, share)
    → job' ≡ answered_job sizes job h response
unfolding handle_hash_response answered_job
handle_hash_response-answered sizes job job' h outstanding left response share e =
    elim (Bool-cases (
      not (str_eq response.table_name job.table_name)
      || (not (response.prev_key == h.prev_key) || not (response.last_key == h.last_key)))) [
        | inl t ↦ let e' = rw t at e in cc
        | inr f ↦ let e' = rw f at e in cc
      ]

module _ (F : RowFormat) (digest : List ℕ → List ℕ) (original : Table F) (wf : IsTable F original)
    (sizes : BlockSizes) {c : HashCommand} {h : HashResult}
    (v : IsHashed F digest original c h) where
  -- For a hash that was taken of our rows and a response with the same number of rows to hash: if
  -- it does not match, each key is left to do as often as before, with the range that was sent;
  -- if it matches, as often as that less the part of the range up to our last key.
  pub answered_job-covers :
      (job : TableJob) (response : HashResponse) (key : ℕ)
      → response.rows_to_hash ≡ c.rows_to_hash
      → ((hash_matches h response ≡ false)
          × (count_job key (answered_job sizes job h response)
              ≡ weight h.prev_key h.last_key key + count_job key job))
        ⊎ ((hash_matches h response ≡ true)
            × (count_job key (answered_job sizes job h response)
                  + weight h.prev_key h.our_last_key key
                ≡ weight h.prev_key h.last_key key + count_job key job))
  unfolding answered_job
  answered_job-covers job response key same =
      let (_, _, lo, hi, _, _) = hashed_rows F digest original wf v in
      let split = weight_split h.prev_key h.our_last_key h.last_key key (omega arith) hi in
      elim (Bool-cases (hash_matches h response)) [
        | inl m ↦ inr (
          m,
          rw (m, same)
              (omega (
                arith,
                queue_remainder-covers F digest original wf sizes v true job.ranges_to_check key,
                (queue_mismatch-covers F digest original wf sizes v (remaining true) key).0,
              )),
        )
        | inr n ↦ inl (
          n,
          rw (n, same)
              (omega (
                arith,
                queue_remainder-covers F digest original wf sizes v false job.ranges_to_check key,
                (queue_mismatch-covers F digest original wf sizes v (remaining false) key).1,
              )),
        )
      ]
    where
      remaining : Bool → TableJob
      remaining matched = record job {
        ranges_to_check = queue_remainder sizes h c.rows_to_hash matched job.ranges_to_check;
      }

  pub answered_job-IsCheck :
      (job : TableJob) (response : HashResponse)
      → response.rows_to_hash ≡ c.rows_to_hash
      → All (IsCheck F original) job.ranges_to_check
      → All (IsCheck F original) (answered_job sizes job h response).ranges_to_check
  unfolding answered_job
  answered_job-IsCheck job response same q = simp same (
      queue_mismatch-IsCheck F digest original wf sizes v (hash_matches h response) _ (
        queue_remainder-IsCheck F digest original wf sizes v (hash_matches h response)
          job.ranges_to_check q))

  pub answered_job-IsRetrieve :
      (job : TableJob) (response : HashResponse)
      → All (IsRetrieve F original) job.ranges_to_retrieve
      → All (IsRetrieve F original) (answered_job sizes job h response).ranges_to_retrieve
  unfolding answered_job queue_mismatch
  answered_job-IsRetrieve job response q =
      let (_, _, lo, _, present, _) = hashed_rows F digest original wf v in
      elim (Bool-cases (hash_matches h response)) [
        | inl m ↦ rw m q
        | inr n ↦
            rw n
              (elim (Bool-cases
                (ltb 1 h.our_row_count && ltb sizes.target_minimum_block_size h.our_size)) [
                  | inl t ↦ rw t q
                  | inr f ↦ rw f (
                      All-append (IsRetrieve F original) job.ranges_to_retrieve _ q
                        ((lo, present), tt))
                ])
      ]
