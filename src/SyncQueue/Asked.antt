-- ===== src/SyncQueue/Asked.antt =====
-- What a worker is told that asks for a job.
use kitchen_sync.Barrier.Rounds.{abort-aborted}
use kitchen_sync.Common.{
  sym, &&-true, List-cases, Bool-cases, ==_refl, ap, ◌≢◌, arith, Bool, List, ℕ, ◌≡◌, ◌≤◌, ◌∙◌, refl,
  true, false, [], ◌∷◌, inl, inr,
}
use kitchen_sync.SyncQueue.{
  Found, borrows, waits_for_work, jobs_with_work, contains, throws_aborted, find_table_job,
  all_finished, borrow_first, is_empty, borrow_work, abort_queue, finished, SyncQueue,
}
use kitchen_sync.SyncQueue.Run.{
  find_table_job-empty, shared, shared-lists, find_table_job-some, find_table_job-aborted,
  QueueRun-enqueued-Accounted, enqueued, count, QueueState, QueueRun,
}

jobs_with_work_lem :
    (has_work : ℕ → Bool) (jobs : List ℕ)
    → (job : ℕ) → borrow_first (jobs_with_work has_work jobs) ≡ borrows job
    → has_work job ≡ true
jobs_with_work_lem has_work [] job e = absurd (ground arith)
jobs_with_work_lem has_work (j ∷ jobs) job e = elim (Bool-cases (has_work j)) [
  | inl t ↦
      let found : borrows j ≡ borrows job = rw t at e in let same : j ≡ job = cc in rw (← same) t
  | inr f ↦ jobs_with_work_lem has_work jobs job (rw f at e)
]

borrow_first-waits : (jobs : List ℕ) → borrow_first jobs ≢ all_finished
borrow_first-waits [] e = ground arith
borrow_first-waits (j ∷ jobs) e = ground arith

-- What a worker gets that finds no table waiting.
borrow_work_lem :
    (q : SyncQueue)
    → ((borrow_work q).1 ≡ all_finished → finished q ≡ true)
      × ((borrow_work q).1 ≡ waits_for_work → finished q ≡ false)
      × ((job : ℕ) → (borrow_work q).1 ≡ borrows job → q.has_work_to_share job ≡ true)
unfolding borrow_work
borrow_work_lem q = elim (Bool-cases (finished q)) [
  | inl e ↦ rw e (λ r. refl, λ r. absurd (ground arith), λ job r. absurd (ground arith))
  | inr e ↦ rw e (
    λ r.
        absurd
          (borrow_first-waits (jobs_with_work q.has_work_to_share q.tables_with_work_to_share) r),
    λ r. refl,
    jobs_with_work_lem q.has_work_to_share q.tables_with_work_to_share,
  )
]

some_job : (jobs : List ℕ) → is_empty jobs ≡ false → (job : ℕ) × (contains job jobs ≡ true)
some_job [] e = absurd (ground arith)
some_job (j ∷ jobs) e = (j, rw (==_refl j) refl)

no_job : (jobs : List ℕ) → is_empty jobs ≡ true → (job : ℕ) → count job jobs ≡ 0
no_job [] e job = refl
no_job (j ∷ jobs) e job = absurd (ground arith)

-- A worker is told that all is finished only when every table is completed; it waits only while a
-- table is being processed; and what it borrows is a job that has work to share.
pub found_lem :
    (workers : ℕ) (tables : List ℕ) (s : QueueState)
    → ((job : ℕ) → count job tables ≤ 1)
    → QueueRun (enqueued workers tables) s
    → ((find_table_job s.queue).1 ≡ all_finished
        → (job : ℕ) → count job s.completed ≡ count job tables)
      × ((find_table_job s.queue).1 ≡ waits_for_work
          → (job : ℕ) × (contains job s.queue.tables_being_processed ≡ true))
      × ((job : ℕ)
          → (find_table_job s.queue).1 ≡ borrows job
          → s.queue.has_work_to_share job ≡ true)
unfolding finished
found_lem workers tables s once run =
    let q = s.queue in
    let v = QueueRun-enqueued-Accounted workers tables s once run in
    elim (Bool-cases q.barrier.aborted) [
      | inl e ↦
          rw (find_table_job-aborted q e)
            (λ r. absurd (ground arith), λ r. absurd (ground arith), λ job r. absurd (ground arith))
      | inr e ↦ elim (List-cases q.tables_to_process) [
        | inr (job, jobs, some_left) ↦
            rw (find_table_job-some q job jobs e some_left)
              (λ r. absurd (ground arith), λ r. absurd (ground arith), λ j r. absurd (ground arith))
        | inl nothing ↦
            let (same, same', has_work) = shared-lists q in
            let (done, waits, borrowed) = borrow_work_lem (shared q) in
            let empty : is_empty (shared q).tables_to_process ≡ true =
              ap is_empty (same ∙ nothing) in
            rw (find_table_job-empty q e nothing) (
              λ r. λ job.
                  let both =
                    &&-true (is_empty (shared q).tables_to_process)
                      (is_empty (shared q).tables_being_processed) (done r) in
                  let none_waiting : count job q.tables_to_process ≡ 0 = ap (count job) nothing in
                  let none_left = no_job (shared q).tables_being_processed both.1 job in
                  omega (arith, v job, none_waiting, sym (ap (count job) same') ∙ none_left),
              λ r.
                  let some_left : is_empty (shared q).tables_being_processed ≡ false =
                    rw empty at waits r in
                  let (job, given) = some_job (shared q).tables_being_processed some_left in
                  (job, sym (ap (contains job) same') ∙ given),
              λ job r. sym (ap (λ (h : ℕ → Bool). h job) has_work) ∙ borrowed job r,
            )
      ]
    ]

-- After an abort a worker that asks for a job gets aborted_error; one that waits in borrow_work goes on
-- as if there had been no abort, and so waits for a table whose worker may have given up.
pub abort_queue_lem :
    (q : SyncQueue)
    → ((find_table_job (abort_queue q).0).1 ≡ throws_aborted)
      × ((borrow_work (abort_queue q).0).1 ≡ (borrow_work q).1)
unfolding abort_queue borrow_work finished
abort_queue_lem q = (
  ap (λ (r : SyncQueue × Found). r.1)
      (find_table_job-aborted (abort_queue q).0 (abort-aborted q.barrier)),
  elim (Bool-cases (finished q)) [ inl e ↦ simp e refl | inr e ↦ simp e refl ],
)
