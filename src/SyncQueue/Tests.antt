-- ===== src/SyncQueue/Tests.antt =====
-- Two tables and two workers.
use kitchen_sync.SyncQueue.Asked.{found_lem, abort_queue_lem}
use kitchen_sync.Common.{arith, List, ℕ, ◌≡◌, ◌≤◌, true, [], ◌∷◌}
use kitchen_sync.SyncQueue.{
  borrows, borrow_work, contains, throws_aborted, waits_for_work, abort_queue, all_finished,
  find_table_job,
}
use kitchen_sync.SyncQueue.Run.{
  QueueRun-enqueued-Accounted, Accounted, find, QueueState, QueueRun, here, next, enqueued, count,
}

abbrev two_tables : List ℕ
two_tables = 7 ∷ 8 ∷ []

each_once : (job : ℕ) → count job two_tables ≤ 1
each_once job = ground arith

-- A worker has asked for a table.
abbrev one_taken : QueueState
one_taken = record { queue = (find_table_job (enqueued 2 two_tables).queue).0; completed = [] }

taken : QueueRun (enqueued 2 two_tables) one_taken
taken =
    next (enqueued 2 two_tables) (enqueued 2 two_tables) one_taken (here (enqueued 2 two_tables))
      (find (enqueued 2 two_tables).queue [])

QueueRun-enqueued-Accounted_example : Accounted two_tables one_taken
QueueRun-enqueued-Accounted_example =
    QueueRun-enqueued-Accounted 2 two_tables one_taken each_once taken

found_lem_example :
    ((find_table_job one_taken.queue).1 ≡ all_finished
      → (job : ℕ) → count job one_taken.completed ≡ count job two_tables)
    × ((find_table_job one_taken.queue).1 ≡ waits_for_work
        → (job : ℕ) × (contains job one_taken.queue.tables_being_processed ≡ true))
    × ((job : ℕ)
        → (find_table_job one_taken.queue).1 ≡ borrows job
        → one_taken.queue.has_work_to_share job ≡ true)
found_lem_example = found_lem 2 two_tables one_taken each_once taken

abort_queue_lem_example :
    ((find_table_job (abort_queue one_taken.queue).0).1 ≡ throws_aborted)
    × ((borrow_work (abort_queue one_taken.queue).0).1 ≡ (borrow_work one_taken.queue).1)
abort_queue_lem_example = abort_queue_lem one_taken.queue
