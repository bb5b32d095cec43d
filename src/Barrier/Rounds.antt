-- ===== src/Barrier/Rounds.antt =====
-- A round of the barrier: the last worker to arrive releases the others.
use kitchen_sync.Common.{
  inr, inl, Bool-cases, ==_refl, ℕ, zero, suc, ◌+◌, ◌-◌, ◌%◌, ◌^◌, ◌<◌, ◌≤◌, ◌≡◌, refl, ap, ◌∙◌,
  true, false, List, [], ◌∷◌, ◌++◌, arith, ◌==◌,
}
use kitchen_sync.Barrier.{
  AbortableBarrier, Outcome, aborted_error, returns, waits, wait_at_barrier, wake, check_aborted,
  abort, arrivals,
}

abbrev pub all_wait : ℕ → ℕ → List Outcome
all_wait zero generation = []
all_wait (suc n) generation = waits generation ∷ all_wait n generation

-- The barrier after a round.
abbrev pub next_round : AbortableBarrier → AbortableBarrier
next_round b = record b {
  generation = (b.generation + 1) % 2 ^ 64;
  waiting_for_workers = b.workers;
}

last_arrival :
    (b : AbortableBarrier)
    → b.aborted ≡ false
    → b.waiting_for_workers ≡ 1
    → wait_at_barrier b ≡ (next_round b, returns true)
unfolding wait_at_barrier
last_arrival b live waiting =
    let none_left : (b.waiting_for_workers + (2 ^ 64 - 1)) % 2 ^ 64 ≡ 0 = omega arith in
    simp (live, none_left) refl

early_arrival :
    (n : ℕ) (b : AbortableBarrier)
    → b.aborted ≡ false
    → b.waiting_for_workers ≡ suc (suc n)
    → b.waiting_for_workers < 2 ^ 64
    → wait_at_barrier b ≡ (record b { waiting_for_workers = suc n }, waits b.generation)
unfolding wait_at_barrier
early_arrival n b live waiting small =
    let some_left : (b.waiting_for_workers + (2 ^ 64 - 1)) % 2 ^ 64 ≡ suc n = omega arith in
    let positive : (suc n == 0) ≡ false = ground arith in simp (live, some_left, positive) refl

round :
    (n : ℕ) (b : AbortableBarrier)
    → b.aborted ≡ false
    → b.waiting_for_workers ≡ suc n
    → b.waiting_for_workers < 2 ^ 64
    → arrivals (suc n) b ≡ (next_round b, all_wait n b.generation ++ (returns true ∷ []))
unfolding arrivals
round zero b live waiting small = rw (last_arrival b live waiting) refl
round (suc n) b live waiting small = rw (early_arrival n b live waiting small) (
    ap (λ (r : AbortableBarrier × List Outcome). (r.0, waits b.generation ∷ r.1))
      (round n (record b { waiting_for_workers = suc n }) live refl (omega arith)))

early :
    (m n : ℕ) (b : AbortableBarrier)
    → b.aborted ≡ false
    → b.waiting_for_workers ≡ suc n
    → b.waiting_for_workers < 2 ^ 64
    → m ≤ n
    → (arrivals m b).0 ≡ record b { waiting_for_workers = suc n - m }
unfolding arrivals
early zero n b live waiting small le =
    let all_left : b.waiting_for_workers ≡ suc n - 0 = omega arith in
    ap (λ w. record b { waiting_for_workers = w }) all_left
early (suc m) zero b live waiting small le = absurd (omega arith)
early (suc m) (suc n) b live waiting small le =
    let one_less : suc n - m ≡ suc (suc n) - suc m = omega arith in
    rw (early_arrival n b live waiting small) (
      early m n (record b { waiting_for_workers = suc n }) live refl (omega arith) (omega arith)
      ∙ ap (λ w. record b { waiting_for_workers = w }) one_less)

-- A round of a barrier that is not aborted, for up to 2 ^ 64 - 1 workers: all but the last worker
-- wait; the last returns true, and the barrier is ready for as many workers again. Every worker that
-- waits keeps waiting when it wakes before that, and returns false when it wakes after it.
pub round_lem :
    (n : ℕ) (b : AbortableBarrier)
    → b.aborted ≡ false
    → b.waiting_for_workers ≡ suc n
    → b.waiting_for_workers < 2 ^ 64
    → b.generation < 2 ^ 64
    → (arrivals (suc n) b ≡ (next_round b, all_wait n b.generation ++ (returns true ∷ [])))
      × ((m : ℕ)
          → m ≤ n
          → (wake (arrivals m b).0 b.generation ≡ waits b.generation)
            × (((arrivals m b).0).waiting_for_workers ≡ suc n - m))
      × (wake (next_round b) b.generation ≡ returns false)
unfolding wake
round_lem n b live waiting small generation =
    let changed : ((b.generation + 1) % 2 ^ 64 == b.generation) ≡ false = ground arith in
    (
      round n b live waiting small,
      λ m le.
          let e = early m n b live waiting small le in
          simp (e, live, ==_refl b.generation) (refl, refl),
      simp (live, changed) refl,
    )

-- After an abort, every worker that waits, arrives or checks gets aborted_error, and a second abort
-- does nothing and returns false.
pub abort_lem :
    (b : AbortableBarrier) (current_generation : ℕ)
    → (wake (abort b).0 current_generation ≡ aborted_error)
      × (wait_at_barrier (abort b).0 ≡ ((abort b).0, aborted_error))
      × (check_aborted (abort b).0 ≡ aborted_error)
      × (abort (abort b).0 ≡ ((abort b).0, false))
unfolding wake wait_at_barrier check_aborted abort
abort_lem b current_generation = elim (Bool-cases b.aborted) [
  | inl t ↦ simp t (refl, refl, refl, refl)
  | inr f ↦ simp f (refl, refl, refl, refl)
]

pub abort-aborted : (b : AbortableBarrier) → (abort b).0.aborted ≡ true
unfolding abort
abort-aborted b = elim (Bool-cases b.aborted) [ inl e ↦ simp e refl | inr e ↦ simp e refl ]
