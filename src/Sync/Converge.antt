-- ===== src/Sync/Converge.antt =====
-- The invariant is kept by every step, and when nothing is left to do the tables are the same.
pub mod Sent
pub mod Answered
pub mod Applied
use kitchen_sync.Common.{
  ℕ, ◌+◌, ◌≤◌, ◌<◌, ◌≡◌, ◌≢◌, refl, sym, ap, ◌∙◌, ◌⊎◌, inl, inr, Bool, true, false, List, [], ◌∷◌,
  ◌++◌, All, All-append, All-middle, arith, ℕ_discrete, Bool-cases, if◌then◌else◌, not, ◌||◌, ◌==◌,
}
use text.Mathlib.Text.{◌==◌ as str_eq}
use kitchen_sync.Table.{RowFormat, Table, IsTable, IsPresent, replace_range, in_range}
use kitchen_sync.Table.Replace.{replace_range-row_at, replace_range-inside, replace_range-outside}
use kitchen_sync.Sync.{
  KeyRange, KeyRangeToCheck, TableJob, HashResult, HashCommand, HashResponse, BlockSizes, Result,
  ok, err, send_hash_command, hash_command_of, hash_result_of, handle_hash_response,
  handle_hash_command, hash_matches, queue_remainder, queue_mismatch,
}
use kitchen_sync.Sync.Coverage.{
  weight, weight_cases, weight_split, count_job, count_checks, count_ranges, count_ranges-append,
}
use kitchen_sync.Sync.Hashed.{
  IsCheck, IsHashed, hashed_rows, hash_result_of-IsHashed, send_hash_command_sent,
  hash_result_of_range, hash_matches-agree, Shows,
}
use kitchen_sync.Sync.Answer.{
  answered_job, answered_job-covers, answered_job-IsCheck, answered_job-IsRetrieve,
  handle_hash_response-answered,
}
use kitchen_sync.Sync.Run.{
  InFlight, hashing, retrieving, State, flight_weight, count_flight, pending, Sees, after_send,
  Step, hash_sent, hash_answered, rows_requested, rows_applied, Reach, here, next,
}
use kitchen_sync.Sync.Invariant.{
  IsFlying, Inv, count_flight-append, count_flight_middle, count_checks_middle,
}
use Sent.{waiting-Shows, hash_sent-Inv, rows_requested-Inv}
use Answered.{response, answered, answered-Inv}
use Applied.{StartsAfter, apply_rows-replace_range, applied, applied-Inv}

module _ (F : RowFormat) (digest : List ℕ → List ℕ) (subdivide : ℕ → ℕ → ℕ) (sizes : BlockSizes)
    (source original : Table F) (wf_source : IsTable F source) (wf : IsTable F original)
    (no_collision : (xs ys : List ℕ) → digest xs ≡ digest ys → xs ≡ ys)
    (above : StartsAfter F source original) where
  -- Every step keeps the invariant, if no two inputs of the hash collide and no committed row lies
  -- before the first of the source: no key is in two of the
  -- ranges left to do, a key in none of them holds what the source holds, a key in one is as it is
  -- committed, and every range left to do is non-empty.
  pub Step-Inv :
      (s t : State F)
      → Inv F digest source original s
      → Step F digest subdivide sizes source original s t
      → Inv F digest source original t
  Step-Inv s t v (hash_sent before after r view c h e top wf_view sees sent d) =
      let waiting : IsCheck F original r =
        (All-middle (IsCheck F original) before r after (rw e at v.checks)).0 in
      let (ec, eh) = send_hash_command_sent F digest original subdivide view s.job r waiting sent in
      let shows =
        waiting-Shows F digest subdivide sizes source original wf s before after r view v e sees in
      let hashed =
        hash_result_of-IsHashed F digest original wf subdivide view s.job r wf_view waiting shows in
      let range = hash_result_of_range F digest original subdivide view s.job r waiting in
      rw d (
        hash_sent-Inv F digest subdivide sizes source original wf s before after r c h v e
          (rw (ec, eh) hashed) (rw eh range.0) (rw eh range.1))
  Step-Inv s t v (hash_answered before after c h outstanding left job share e answer d) =
      rw (d, handle_hash_response-answered sizes s.job job h outstanding left _ share answer)
        (answered-Inv F digest sizes source original wf_source wf no_collision s before after c h v
          e)
  Step-Inv s t v (rows_requested r rest e d) =
      rows_requested-Inv F digest subdivide sizes source original wf s t r rest v e d
  Step-Inv s t v (rows_applied before after r e d) =
      let flying =
        (All-middle (IsFlying F digest source original) before (retrieving r) after
          (rw e at v.flying)).0 in
      let replaced =
        apply_rows-replace_range F digest subdivide sizes source original s.target r wf_source above
          flying in
      rw (d, replaced) (applied-Inv F digest source original wf_source wf s before after r v e)

  pub Reach-Inv :
      {s t : State F}
      → Inv F digest source original s
      → Reach F digest subdivide sizes source original s t
      → Inv F digest source original t
  Reach-Inv v here = v
  Reach-Inv v (next r st) = Step-Inv _ _ (Reach-Inv v r) st
