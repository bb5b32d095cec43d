-- ===== src/SyncQueue.antt =====
-- The queue from which the workers take their tables (SyncQueue of src/sync_queue.h). A job is known by
-- its number; the mutex makes each call atomic up to its wait, and a worker that wakes goes on with
-- `borrow_work`.
pub mod Run
pub mod Asked
mod Tests
use kitchen_sync.Common.{
  ℕ, ◌+◌, Bool, true, false, not, ◌&&◌, ◌||◌, List, [], ◌∷◌, ◌++◌, ◌==◌, if◌then◌else◌,
}
use kitchen_sync.Barrier.{AbortableBarrier, new_barrier, abort}

-- The state of the queue, and of each job whether it has ranges to check and whether its workers are to
-- tell when it has.
pub record SyncQueue : Type 0 where
  pub barrier : AbortableBarrier
  pub sharing_work : Bool
  pub tables_to_process : List ℕ
  pub tables_being_processed : List ℕ
  pub tables_with_work_to_share : List ℕ
  pub has_work_to_share : ℕ → Bool
  pub notify_when_work_could_be_shared : ℕ → Bool

abbrev pub contains : ℕ → List ℕ → Bool
contains job [] = false
contains job (j ∷ jobs) = job == j || contains job jobs

-- Insertion into and removal from a set, whose order is that of the pointers, so arbitrary.
abbrev pub insert_job : ℕ → List ℕ → List ℕ
insert_job job jobs = if contains job jobs then jobs else jobs ++ (job ∷ [])

abbrev pub erase_job : ℕ → List ℕ → List ℕ
erase_job job [] = []
erase_job job (j ∷ jobs) = let rest = erase_job job jobs in if job == j then rest else j ∷ rest

pub new_queue : ℕ → SyncQueue
new_queue workers = record {
  barrier = new_barrier workers;
  sharing_work = false;
  tables_to_process = [];
  tables_being_processed = [];
  tables_with_work_to_share = [];
  has_work_to_share = λ job. false;
  notify_when_work_could_be_shared = λ job. false;
}

pub enqueue_tables_to_process : List ℕ → SyncQueue → SyncQueue
enqueue_tables_to_process tables q = record q { tables_to_process = q.tables_to_process ++ tables }

-- What a worker that asks for a job gets.
pub data Found : Type 0 where
  throws_aborted all_finished waits_for_work : Found
  takes borrows : ℕ → Found

abbrev pub is_empty : List ℕ → Bool
is_empty [] = true
is_empty (j ∷ jobs) = false

pub finished : SyncQueue → Bool
finished q = is_empty q.tables_to_process && is_empty q.tables_being_processed

pub start_sharing_work_in : ℕ → SyncQueue → SyncQueue
start_sharing_work_in job q = record q {
  notify_when_work_could_be_shared =
      λ j. if j == job then true else q.notify_when_work_could_be_shared j;
  tables_with_work_to_share =
      if q.has_work_to_share job
      then insert_job job q.tables_with_work_to_share
      else q.tables_with_work_to_share;
}

pub start_sharing_work_in_all : List ℕ → SyncQueue → SyncQueue
unfolding start_sharing_work_in
start_sharing_work_in_all [] q = q
start_sharing_work_in_all (job ∷ jobs) q =
    start_sharing_work_in_all jobs (start_sharing_work_in job q)

pub start_sharing_work : SyncQueue → SyncQueue
unfolding start_sharing_work_in_all
start_sharing_work q =
    start_sharing_work_in_all q.tables_being_processed
      (start_sharing_work_in_all q.tables_to_process (record q { sharing_work = true }))

-- The jobs from the first one with work on; those before it are erased.
abbrev pub jobs_with_work : (ℕ → Bool) → List ℕ → List ℕ
jobs_with_work has_work [] = []
jobs_with_work has_work (job ∷ jobs) =
    let rest = jobs_with_work has_work jobs in if has_work job then job ∷ jobs else rest

abbrev pub borrow_first : List ℕ → Found
borrow_first [] = waits_for_work
borrow_first (job ∷ jobs) = borrows job

-- One round of the loop.
pub borrow_work : SyncQueue → SyncQueue × Found
unfolding finished
borrow_work q =
    let jobs = jobs_with_work q.has_work_to_share q.tables_with_work_to_share in
    if finished q
    then (q, all_finished)
    else (record q { tables_with_work_to_share = jobs }, borrow_first jobs)

abbrev pub take_or_borrow : List ℕ → SyncQueue → SyncQueue × Found
take_or_borrow [] q = borrow_work (if q.sharing_work then q else start_sharing_work q)
take_or_borrow (job ∷ jobs) q = (
  record q {
    tables_to_process = jobs;
    tables_being_processed = insert_job job q.tables_being_processed;
  },
  takes job,
)

pub find_table_job : SyncQueue → SyncQueue × Found
find_table_job q =
    if q.barrier.aborted then (q, throws_aborted) else take_or_borrow q.tables_to_process q

pub completed_table : ℕ → SyncQueue → SyncQueue
completed_table job q = record q {
  tables_with_work_to_share = erase_job job q.tables_with_work_to_share;
  tables_being_processed = erase_job job q.tables_being_processed;
}

pub have_work_to_share : ℕ → SyncQueue → SyncQueue
have_work_to_share job q = record q {
  tables_with_work_to_share = insert_job job q.tables_with_work_to_share;
}

-- Wakes the workers that wait for a task of a job, too.
pub abort_queue : SyncQueue → SyncQueue × Bool
abort_queue q = let (barrier, first) = abort q.barrier in (record q { barrier = barrier }, first)
