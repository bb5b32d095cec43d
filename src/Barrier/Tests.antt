-- ===== src/Barrier/Tests.antt =====
-- A barrier of three workers.
use kitchen_sync.Common.{ℕ, ◌-◌, ◌≤◌, ◌≡◌, refl, true, false, [], ◌∷◌, arith}
use kitchen_sync.Barrier.{
  AbortableBarrier, waits, returns, wake, arrivals, abort, aborted_error, wait_at_barrier,
  check_aborted, new_barrier,
}
use kitchen_sync.Barrier.Rounds.{next_round, round_lem, abort_lem}

abbrev three_workers : AbortableBarrier
three_workers = record { workers = 3; waiting_for_workers = 3; generation = 7; aborted = false }

round_lem_example :
    (arrivals 3 three_workers ≡ (next_round three_workers, waits 7 ∷ waits 7 ∷ returns true ∷ []))
    × ((m : ℕ)
        → m ≤ 2
        → (wake (arrivals m three_workers).0 7 ≡ waits 7)
          × ((arrivals m three_workers).0.waiting_for_workers ≡ 3 - m))
    × (wake (next_round three_workers) 7 ≡ returns false)
round_lem_example = round_lem 2 three_workers refl refl (omega arith) (omega arith)

abort_lem_example :
    (wake (abort three_workers).0 7 ≡ aborted_error)
    × (wait_at_barrier (abort three_workers).0 ≡ ((abort three_workers).0, aborted_error))
    × (check_aborted (abort three_workers).0 ≡ aborted_error)
    × (abort (abort three_workers).0 ≡ ((abort three_workers).0, false))
abort_lem_example = abort_lem three_workers 7

-- The first round of a new barrier.
first_round : (arrivals 2 (new_barrier 2)).1 ≡ waits 0 ∷ returns true ∷ []
unfolding arrivals wait_at_barrier new_barrier
first_round = refl
