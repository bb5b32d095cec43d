-- ===== src/Sync/Loop.antt =====
-- What a worker does next with a table (the loop of `sync_table` in src/sync_to_algorithm.h), and when the
-- writer stops.
use kitchen_sync.Common.{
  ℕ, ◌+◌, ◌≡◌, ap, Bool, true, false, not, ◌&&◌, List, [], ◌∷◌, ◌++◌, arith, ltb, if◌then◌else◌,
}
use kitchen_sync.Table.{RowFormat, Table}
use kitchen_sync.Sync.{
  TableJob, HashResult, HashResponse, handle_hash_command, BlockSizes, queue_mismatch,
}
use kitchen_sync.Sync.Answer.{answered_job, handle_hash_response-answered}
use kitchen_sync.Sync.Run.{
  InFlight, hashing, retrieving, State, Step, hash_sent, hash_answered, rows_requested,
  rows_applied, Reach, here, next,
}
use kitchen_sync.Sync.Progress.{IsFinished}
use kitchen_sync.Sync.Range.{start_sync_table}
use kitchen_sync.Sync.Range.Named.{start_sync_table-flight}

pub data Action : Type 0 where
  send_rows send_hash handle_response wait_for_borrowers finish_table look_elsewhere : Action

abbrev is_empty {ℓ} : {A : Type ℓ} → List A → Bool
is_empty [] = true
is_empty (x ∷ xs) = false

-- `outstanding` counts this worker's own commands.
pub next_action : Bool → ℕ → ℕ → TableJob → Action
next_action writer outstanding max_outstanding job =
    if writer && ltb outstanding max_outstanding && not (is_empty job.ranges_to_retrieve)
    then send_rows
    else (if ltb outstanding max_outstanding && not (is_empty job.ranges_to_check)
        then send_hash
        else (if ltb 0 outstanding
            then handle_response
            else (if writer && ltb job.hash_commands_completed job.hash_commands
                then wait_for_borrowers
                else (if writer then finish_table else look_elsewhere))))

abbrev count_hashing : List InFlight → ℕ
count_hashing [] = 0
count_hashing (hashing c h ∷ os) = 1 + count_hashing os
count_hashing (retrieving r ∷ os) = count_hashing os

abbrev pub count_retrieving : List InFlight → ℕ
count_retrieving [] = 0
count_retrieving (hashing c h ∷ os) = count_retrieving os
count_retrieving (retrieving r ∷ os) = 1 + count_retrieving os

count_hashing-append :
    (xs ys : List InFlight) → count_hashing (xs ++ ys) ≡ count_hashing xs + count_hashing ys
count_hashing-append [] ys = omega arith
count_hashing-append (hashing c h ∷ xs) ys = omega (arith, count_hashing-append xs ys)
count_hashing-append (retrieving r ∷ xs) ys = omega (arith, count_hashing-append xs ys)

abbrev Counted : {F : RowFormat} → State F → Type 0
Counted s = s.job.hash_commands ≡ s.job.hash_commands_completed + count_hashing s.flight

module _ (F : RowFormat) (digest : List ℕ → List ℕ) (subdivide : ℕ → ℕ → ℕ) (sizes : BlockSizes)
    (source original : Table F) where
  answered_job-counters :
      (job : TableJob) (h : HashResult) (response : HashResponse)
      → ((answered_job sizes job h response).hash_commands ≡ job.hash_commands)
        × ((answered_job sizes job h response).hash_commands_completed
            ≡ job.hash_commands_completed + 1)
  unfolding answered_job queue_mismatch
  answered_job-counters job h response = ground arith

  Step-Counted :
      (s t : State F) → Counted s → Step F digest subdivide sizes source original s t → Counted t
  Step-Counted s t n (hash_sent before after r view c h e top wf_view sees sent d) =
      rw d (omega (arith, count_hashing-append s.flight (hashing c h ∷ [])))
  Step-Counted s t n (hash_answered before after c h outstanding left job share e answer d) =
      let (sent, completed) =
        answered_job-counters s.job h (handle_hash_command F digest source c) in
      let flying = ap count_hashing e in
      rw (d, handle_hash_response-answered sizes s.job job h outstanding left _ share answer)
        (omega (
          arith,
          count_hashing-append before (hashing c h ∷ after),
          count_hashing-append before after,
        ))
  Step-Counted s t n (rows_requested r rest e d) =
      rw d (omega (arith, count_hashing-append s.flight (retrieving r ∷ [])))
  Step-Counted s t n (rows_applied before after r e d) =
      let flying = ap count_hashing e in
      rw d (
        omega (
          arith,
          count_hashing-append before (retrieving r ∷ after),
          count_hashing-append before after,
        ))

  Reach-Counted :
      {s t : State F} → Counted s → Reach F digest subdivide sizes source original s t → Counted t
  Reach-Counted n here = n
  Reach-Counted n (next reached step) = Step-Counted _ _ (Reach-Counted n reached) step

-- And when everything is done the writer stops, rather than wait.
pub finished-next_action :
    (F : RowFormat) (digest : List ℕ → List ℕ) (subdivide : ℕ → ℕ → ℕ) (sizes : BlockSizes)
    (source target committed : Table F) (job : TableJob) (s : State F) (max_outstanding : ℕ)
    → job.hash_commands ≡ job.hash_commands_completed
    → Reach F digest subdivide sizes source committed
        (start_sync_table F subdivide source job target)
        s
    → IsFinished s
    → (next_action true 0 max_outstanding s.job ≡ finish_table) × (count_retrieving s.flight ≡ 0)
unfolding next_action
finished-next_action F digest subdivide sizes source target committed job s max_outstanding fresh
      reached (checked, retrieved, landed) =
    let (launched, sent, answered) = start_sync_table-flight F subdivide source target job in
    let start : Counted (start_sync_table F subdivide source job target) =
      rw (launched, sent, answered) (omega arith) in
    let counted = Reach-Counted F digest subdivide sizes source _ start reached in
    let all_answered : s.job.hash_commands ≡ s.job.hash_commands_completed =
      omega (arith, ap count_hashing landed) in
    rw (checked, retrieved, landed) (ground arith)
