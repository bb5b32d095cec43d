-- ===== src/SyncQueue/Run.antt =====
-- The calls of any number of workers, in any order.
use kitchen_sync.Common.{
  ap, ==_refl, List-cases, inr, ℕ_discrete, inl, ◌∙◌, arith, ◌++◌, ◌⊎◌, Bool-cases, ℕ, ◌+◌, ◌≡◌,
  ◌≤◌, refl, Bool, true, false, List, [], ◌∷◌, ◌==◌, if◌then◌else◌,
}
use kitchen_sync.SyncQueue.{
  take_or_borrow, throws_aborted, new_queue, enqueue_tables_to_process, finished,
  start_sharing_work_in, start_sharing_work_in_all, insert_job, start_sharing_work, erase_job,
  SyncQueue, find_table_job, completed_table, have_work_to_share, abort_queue, contains,
  borrow_work,
}

abbrev pub count : ℕ → List ℕ → ℕ
count job [] = 0
count job (j ∷ jobs) = (if job == j then 1 else 0) + count job jobs

-- The queue, and the tables that were completed.
pub record QueueState : Type 0 where
  pub queue : SyncQueue
  pub completed : List ℕ

-- A worker asks for a job or goes on waiting, completes a table that it was given, tells that there is
-- work, or aborts; and the ranges to check of the jobs change in between.
pub data QueueStep : QueueState → QueueState → Type 0 where
  find :
      (q : SyncQueue) (done : List ℕ)
      → QueueStep
          (record { queue = q; completed = done })
          (record { queue = (find_table_job q).0; completed = done })
  wait :
      (q : SyncQueue) (done : List ℕ)
      → QueueStep
          (record { queue = q; completed = done })
          (record { queue = (borrow_work q).0; completed = done })
  complete :
      (q : SyncQueue) (done : List ℕ) (job : ℕ)
      → contains job q.tables_being_processed ≡ true
      → QueueStep
          (record { queue = q; completed = done })
          (record { queue = completed_table job q; completed = job ∷ done })
  share :
      (q : SyncQueue) (done : List ℕ) (job : ℕ)
      → QueueStep
          (record { queue = q; completed = done })
          (record { queue = have_work_to_share job q; completed = done })
  aborts :
      (q : SyncQueue) (done : List ℕ)
      → QueueStep
          (record { queue = q; completed = done })
          (record { queue = (abort_queue q).0; completed = done })
  work :
      (q : SyncQueue) (done : List ℕ) (has_work : ℕ → Bool)
      → QueueStep
          (record { queue = q; completed = done })
          (record { queue = record q { has_work_to_share = has_work }; completed = done })

pub data QueueRun : QueueState → QueueState → Type 0 where
  here : (s : QueueState) → QueueRun s s
  next : (s t u : QueueState) → QueueRun s t → QueueStep t u → QueueRun s u

-- Each of the tables is waiting, being processed or completed, and only one of these.
abbrev pub Accounted : List ℕ → QueueState → Type 0
Accounted tables s =
    (job : ℕ)
    → count job s.queue.tables_to_process
        + count job s.queue.tables_being_processed
        + count job s.completed
      ≡ count job tables

count-append : (job : ℕ) (xs ys : List ℕ) → count job (xs ++ ys) ≡ count job xs + count job ys
count-append job [] ys = omega arith
count-append job (x ∷ xs) ys = omega (arith, count-append job xs ys)

contains-count : (job : ℕ) (jobs : List ℕ) → contains job jobs ≡ true → 1 ≤ count job jobs
contains-count job [] e = absurd (ground arith)
contains-count job (j ∷ jobs) e = elim (Bool-cases (job == j)) [
  | inl t ↦ rw t (omega arith)
  | inr f ↦ rw f (omega (arith, contains-count job jobs (rw f at e)))
]

count-erase_job :
    (k job : ℕ) (jobs : List ℕ)
    → count k (erase_job job jobs) ≡ (if job == k then 0 else count k jobs)
count-erase_job k job [] = ground arith
count-erase_job k job (j ∷ jobs) =
    let ih = count-erase_job k job jobs in
    elim (ℕ_discrete job j) [ yes e ↦ ground (arith, ih, e) | no ne ↦ ground (arith, ih, ne) ]

count-insert_job :
    (k job : ℕ) (jobs : List ℕ)
    → count job jobs ≡ 0
    → count k (insert_job job jobs) ≡ (if k == job then 1 else 0) + count k jobs
count-insert_job k job jobs absent = elim (Bool-cases (contains job jobs)) [
  | inl e ↦ absurd (omega (arith, contains-count job jobs e))
  | inr e ↦ rw e (omega (arith, count-append k jobs (job ∷ [])))
]

-- Sharing changes neither what is to process nor what is being processed.
start_sharing_work_in_all-lists :
    (jobs : List ℕ) (q : SyncQueue)
    → ((start_sharing_work_in_all jobs q).tables_to_process ≡ q.tables_to_process)
      × ((start_sharing_work_in_all jobs q).tables_being_processed ≡ q.tables_being_processed)
      × ((start_sharing_work_in_all jobs q).has_work_to_share ≡ q.has_work_to_share)
unfolding start_sharing_work_in_all start_sharing_work_in
start_sharing_work_in_all-lists [] q = (refl, refl, refl)
start_sharing_work_in_all-lists (job ∷ jobs) q =
    start_sharing_work_in_all-lists jobs (start_sharing_work_in job q)

abbrev pub shared : SyncQueue → SyncQueue
shared q = if q.sharing_work then q else start_sharing_work q

pub shared-lists :
    (q : SyncQueue)
    → ((shared q).tables_to_process ≡ q.tables_to_process)
      × ((shared q).tables_being_processed ≡ q.tables_being_processed)
      × ((shared q).has_work_to_share ≡ q.has_work_to_share)
unfolding start_sharing_work
shared-lists q =
    let sharing = record q { sharing_work = true } in
    let all = start_sharing_work_in_all q.tables_to_process sharing in
    let (a, b, c) = start_sharing_work_in_all-lists q.tables_to_process sharing in
    let (d, e, f) = start_sharing_work_in_all-lists q.tables_being_processed all in
    elim (Bool-cases q.sharing_work) [
      | inl s ↦ rw s (refl, refl, refl)
      | inr s ↦ rw s (d ∙ a, e ∙ b, f ∙ c)
    ]

borrow_work-lists :
    (q : SyncQueue)
    → ((borrow_work q).0.tables_to_process ≡ q.tables_to_process)
      × ((borrow_work q).0.tables_being_processed ≡ q.tables_being_processed)
unfolding borrow_work
borrow_work-lists q = elim (Bool-cases (finished q)) [
  | inl e ↦ rw e (refl, refl)
  | inr e ↦ rw e (refl, refl)
]

pub find_table_job-empty :
    (q : SyncQueue)
    → q.barrier.aborted ≡ false
    → q.tables_to_process ≡ []
    → find_table_job q ≡ borrow_work (shared q)
unfolding find_table_job
find_table_job-empty q e nothing = simp e (ap (λ ts. take_or_borrow ts q) nothing)

pub find_table_job-some :
    (q : SyncQueue) (job : ℕ) (jobs : List ℕ)
    → q.barrier.aborted ≡ false
    → q.tables_to_process ≡ job ∷ jobs
    → find_table_job q ≡ take_or_borrow (job ∷ jobs) q
unfolding find_table_job
find_table_job-some q job jobs e some_left = simp e (ap (λ ts. take_or_borrow ts q) some_left)

pub find_table_job-aborted :
    (q : SyncQueue) → q.barrier.aborted ≡ true → find_table_job q ≡ (q, throws_aborted)
unfolding find_table_job
find_table_job-aborted q e = simp e refl

-- A worker that asks for a job either changes no table's state or starts one that was waiting.
find_table_job-lists :
    (q : SyncQueue)
    → (((find_table_job q).0.tables_to_process ≡ q.tables_to_process)
        × ((find_table_job q).0.tables_being_processed ≡ q.tables_being_processed))
      ⊎ ((job : ℕ) × (jobs : List ℕ) × (q.tables_to_process ≡ job ∷ jobs)
          × ((find_table_job q).0.tables_to_process ≡ jobs)
          × ((find_table_job q).0.tables_being_processed ≡ insert_job job q.tables_being_processed))
find_table_job-lists q = elim (Bool-cases q.barrier.aborted) [
  | inl e ↦ rw (find_table_job-aborted q e) (inl (refl, refl))
  | inr e ↦ elim (List-cases q.tables_to_process) [
    | inl nothing ↦
        let (same, same', _) = shared-lists q in
        let (borrowed, borrowed') = borrow_work-lists (shared q) in
        rw (find_table_job-empty q e nothing) (inl (borrowed ∙ same, borrowed' ∙ same'))
    | inr (job, jobs, some_left) ↦
        rw (find_table_job-some q job jobs e some_left) (inr (job, jobs, some_left, refl, refl))
  ]
]

QueueStep-Accounted :
    (tables : List ℕ) (s t : QueueState)
    → ((job : ℕ) → count job tables ≤ 1)
    → Accounted tables s
    → QueueStep s t
    → Accounted tables t
unfolding completed_table have_work_to_share abort_queue
QueueStep-Accounted tables s t once v (find q done) = λ k. elim (find_table_job-lists q) [
  | inl (same, same') ↦ rw (same, same') (v k)
  | inr (job, jobs, first, rest, taken) ↦
      let here : count job q.tables_to_process ≡ 1 + count job jobs =
        rw (first, ==_refl job) refl in
      let there : count k q.tables_to_process ≡ (if k == job then 1 else 0) + count k jobs =
        rw first refl in
      let absent : count job q.tables_being_processed ≡ 0 = omega (arith, v job, once job) in
      rw (rest, taken) (omega (arith, v k, count-insert_job k job q.tables_being_processed absent))
]
QueueStep-Accounted tables s t once v (wait q done) =
    λ job. let (same, same') = borrow_work-lists q in rw (same, same') (v job)
QueueStep-Accounted tables s t once v (complete q done job given) = λ k.
    let present = contains-count job q.tables_being_processed given in
    let erased = count-erase_job k job q.tables_being_processed in
    elim (ℕ_discrete k job) [
      | yes e ↦
          rw e (ground (arith, v job, once job, count-erase_job job job q.tables_being_processed))
      | no ne ↦ ground (arith, v k, ne, erased)
    ]
QueueStep-Accounted tables s t once v (share q done job) = v
QueueStep-Accounted tables s t once v (aborts q done) = v
QueueStep-Accounted tables s t once v (work q done has_work) = v

QueueRun-Accounted :
    (tables : List ℕ) (s t : QueueState)
    → ((job : ℕ) → count job tables ≤ 1)
    → Accounted tables s
    → QueueRun s t
    → Accounted tables t
QueueRun-Accounted tables s t once v (here _) = v
QueueRun-Accounted tables s u once v (next _ t _ run step) =
    QueueStep-Accounted tables t u once (QueueRun-Accounted tables s t once v run) step

abbrev pub enqueued : ℕ → List ℕ → QueueState
enqueued workers tables = record {
  queue = enqueue_tables_to_process tables (new_queue workers);
  completed = [];
}

-- From a new queue with tables enqueued, no table twice: at any time, whatever the workers do, each
-- table is either waiting, or being processed, or completed, and it is so once.
pub QueueRun-enqueued-Accounted :
    (workers : ℕ) (tables : List ℕ) (s : QueueState)
    → ((job : ℕ) → count job tables ≤ 1)
    → QueueRun (enqueued workers tables) s
    → Accounted tables s
unfolding enqueue_tables_to_process new_queue
QueueRun-enqueued-Accounted workers tables s once run =
    QueueRun-Accounted tables (enqueued workers tables) s once start run
  where
    start : Accounted tables (enqueued workers tables)
    start job = omega arith
