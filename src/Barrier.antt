-- ===== src/Barrier.antt =====
-- The barrier at which the workers meet (src/abortable_barrier.h, src/abortable_barrier.cpp). The mutex
-- makes each call atomic up to its wait; what a waiting worker does when it wakes is `wake`.
pub mod Rounds
mod Tests
use kitchen_sync.Common.{
  ℕ, zero, suc, ◌+◌, ◌-◌, ◌%◌, ◌^◌, Bool, true, false, List, [], ◌∷◌, ◌==◌, if◌then◌else◌,
}

pub record AbortableBarrier : Type 0 where
  pub workers : ℕ
  pub waiting_for_workers : ℕ
  pub generation : ℕ
  pub aborted : Bool

pub new_barrier : ℕ → AbortableBarrier
new_barrier workers = record {
  workers = workers;
  waiting_for_workers = workers;
  generation = 0;
  aborted = false;
}

-- What comes of a call for the worker: it throws aborted_error, returns a value, or waits, with the
-- generation that it saw.
pub data Outcome : Type 0 where
  aborted_error : Outcome
  returns : Bool → Outcome
  waits : ℕ → Outcome

pub wait_at_barrier : AbortableBarrier → AbortableBarrier × Outcome
wait_at_barrier b =
    if b.aborted
    then (b, aborted_error)
    else (let waiting = (b.waiting_for_workers + (2 ^ 64 - 1)) % 2 ^ 64 in
        if waiting == 0
        then (
          record b { generation = (b.generation + 1) % 2 ^ 64; waiting_for_workers = b.workers },
          returns true,
        )
        else (record b { waiting_for_workers = waiting }, waits b.generation))

-- A worker that waits with `current_generation` wakes.
pub wake : AbortableBarrier → ℕ → Outcome
wake b current_generation =
    if b.aborted
    then aborted_error
    else (if b.generation == current_generation then waits current_generation else returns false)

pub check_aborted : AbortableBarrier → Outcome
check_aborted b = if b.aborted then aborted_error else returns true

pub abort : AbortableBarrier → AbortableBarrier × Bool
abort b = if b.aborted then (b, false) else (record b { aborted = true }, true)

-- That many calls of wait_at_barrier, one after the other.
pub arrivals : ℕ → AbortableBarrier → AbortableBarrier × List Outcome
arrivals zero b = (b, [])
arrivals (suc n) b =
    let (b', outcome) = wait_at_barrier b in
    let (b'', outcomes) = arrivals n b' in (b'', outcome ∷ outcomes)
