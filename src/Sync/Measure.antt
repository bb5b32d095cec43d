-- ===== src/Sync/Measure.antt =====
-- How much work is left, and why every step makes it less (the loop of `sync_table` in
-- src/sync_to_algorithm.h).
pub mod Answered
use kitchen_sync.Common.{
  ℕ, ◌+◌, ◌-◌, ◌*◌, ◌<◌, ◌≤◌, ◌≡◌, ap, refl, sym, ◌∙◌, inl, inr, List, [], ◌∷◌, ◌++◌, arith, ltb,
  if◌then◌else◌, All-middle,
}
use kitchen_sync.Table.{RowFormat, Table, IsTable}
use kitchen_sync.Table.Count.{rows_between, rows_between_pos}
use kitchen_sync.Sync.{
  KeyRange, KeyRangeToCheck, TableJob, HashResult, HashCommand, BlockSizes, send_hash_command,
  hash_command_of, hash_result_of, handle_hash_command,
}
use kitchen_sync.Sync.Hashed.{IsCheck, send_hash_command_sent, hash_result_of_range}
use kitchen_sync.Sync.Answer.{handle_hash_response-answered}
use kitchen_sync.Sync.Run.{
  InFlight, hashing, retrieving, State, Step, hash_sent, hash_answered, rows_requested,
  rows_applied, Reach, here, next,
}
use kitchen_sync.Sync.Invariant.{IsFlying, Inv}
use kitchen_sync.Sync.Converge.{Reach-Inv}
use kitchen_sync.Sync.Converge.Applied.{StartsAfter}
use Answered.{
  work_of, checks_work, retrieve_work, job_work, checks_work-append, retrieve_work-append,
  answered_job-work,
}

module _ (F : RowFormat) (original : Table F) (wf : IsTable F original) where
  -- A command in flight has one step less to go than the range that it was sent for.
  abbrev pub flight_work : InFlight → ℕ
  flight_work (hashing c h) =
      work_of (rows_between F original wf h.prev_key h.last_key) c.rows_to_hash - 1
  flight_work (retrieving r) = 1

  abbrev pub flights_work : List InFlight → ℕ
  flights_work [] = 0
  flights_work (o ∷ os) = flight_work o + flights_work os

  abbrev pub work_left : State F → ℕ
  work_left s = job_work F original wf s.job + flights_work s.flight

  work_of_pos : (rows n : ℕ) → 1 ≤ rows → 2 ≤ work_of rows n
  work_of_pos rows n h = ground arith

  flights_work-append :
      (xs ys : List InFlight) → flights_work (xs ++ ys) ≡ flights_work xs + flights_work ys
  flights_work-append [] ys = omega arith
  flights_work-append (x ∷ xs) ys = omega (arith, flights_work-append xs ys)

  flights_work_middle :
      (xs : List InFlight) (y : InFlight) (ys : List InFlight)
      → flights_work (xs ++ (y ∷ ys)) ≡ flight_work y + flights_work (xs ++ ys)
  flights_work_middle xs y ys =
      omega (arith, flights_work-append xs (y ∷ ys), flights_work-append xs ys)

  checks_work_middle :
      (xs : List KeyRangeToCheck) (y : KeyRangeToCheck) (ys : List KeyRangeToCheck)
      → checks_work F original wf (xs ++ (y ∷ ys))
        ≡ work_of (rows_between F original wf y.prev_key y.last_key) y.rows_to_hash
          + checks_work F original wf (xs ++ ys)
  checks_work_middle xs y ys =
      omega (
        arith,
        checks_work-append F original wf xs (y ∷ ys),
        checks_work-append F original wf xs ys,
      )

  module _ (digest : List ℕ → List ℕ) (subdivide : ℕ → ℕ → ℕ) (sizes : BlockSizes)
      (source : Table F) where
    -- Every step leaves less to do.
    pub Step-work :
        (s t : State F)
        → Inv F digest source original s
        → Step F digest subdivide sizes source original s t
        → work_left t < work_left s
    unfolding hash_command_of hash_result_of handle_hash_command
    Step-work s t v (hash_sent before after r view c h e top wf_view sees sent d) =
        let waiting : IsCheck F original r =
          (All-middle (IsCheck F original) before r after (rw e at v.checks)).0 in
        let (ec, eh) =
          send_hash_command_sent F digest original subdivide view s.job r waiting sent in
        let some_row =
          rows_between_pos F original wf r.prev_key r.last_key waiting.ordered waiting.ends in
        let waited = ap (checks_work F original wf) e ∙ checks_work_middle before r after in
        let flying = flights_work-append s.flight (hashing c h ∷ []) in
        let same_work : flight_work (hashing c h)
            ≡ work_of (rows_between F original wf r.prev_key r.last_key) r.rows_to_hash - 1 =
          rw (ec, eh) refl in
        rw d (omega (arith, waited, flying, same_work, work_of_pos _ r.rows_to_hash some_row))
    Step-work s t v (hash_answered before after c h outstanding left job share e answer d) =
        let (hashed, _) =
          All-middle (IsFlying F digest source original) before (hashing c h) after
            (rw e at v.flying) in
        let flying = ap flights_work e ∙ flights_work_middle before (hashing c h) after in
        rw (d, handle_hash_response-answered sizes s.job job h outstanding left _ share answer)
          (omega (
            arith,
            flying,
            answered_job-work F original wf digest sizes hashed s.job
                (handle_hash_command F digest source c) refl,
          ))
    Step-work s t v (rows_requested r rest e d) =
        let waiting = ap (retrieve_work F original wf) e in
        rw d (omega (arith, waiting, flights_work-append s.flight (retrieving r ∷ [])))
    Step-work s t v (rows_applied before after r e d) =
        let flying = ap flights_work e ∙ flights_work_middle before (retrieving r) after in
        rw d (omega (arith, flying))

    pub steps : {s t : State F} → Reach F digest subdivide sizes source original s t → ℕ
    steps here = 0
    steps (next reached step) = steps reached + 1

    -- From a state that satisfies the invariant, if no two inputs of the hash collide and no committed
    -- row lies before the first of the source, the steps
    -- of any run and the work that it leaves are together no more than the work at its start,
    -- however the steps are ordered: every run is bounded.
    pub steps_bounded :
        {s t : State F}
        → Inv F digest source original s
        → IsTable F source
        → (no_collision : (xs ys : List ℕ) → digest xs ≡ digest ys → xs ≡ ys)
        → StartsAfter F source original
        → (reached : Reach F digest subdivide sizes source original s t)
        → steps reached + work_left t ≤ work_left s
    unfolding steps
    steps_bounded v wf_source no_collision above here = omega arith
    steps_bounded v wf_source no_collision above (next reached step) =
        let kept =
          Reach-Inv F digest subdivide sizes source original wf_source wf no_collision above v
            reached in
        omega (arith, steps_bounded v wf_source no_collision above reached, Step-work _ _ kept step)
