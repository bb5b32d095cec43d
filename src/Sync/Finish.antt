-- ===== src/Sync/Finish.antt =====
-- The whole run for one table: it comes to an end, and then the tables are the same (`sync_table` of
-- src/sync_to_algorithm.h).
use kitchen_sync.Common.{ℕ, zero, suc, ◌≤◌, ◌≡◌, inl, inr, List, arith}
use kitchen_sync.Table.{RowFormat, Table, IsTable}
use kitchen_sync.Sync.{TableJob, BlockSizes}
use kitchen_sync.Sync.Run.{State, Reach, here, next}
use kitchen_sync.Sync.Invariant.{Inv}
use kitchen_sync.Sync.Converge.{Step-Inv}
use kitchen_sync.Sync.Measure.{work_left, Step-work}
use kitchen_sync.Sync.Progress.{IsFinished, IsNamed, progress}
use kitchen_sync.Sync.Range.{start_sync_table}
use kitchen_sync.Sync.Range.Start.{start_sync_table-Inv}
use kitchen_sync.Sync.Converge.Applied.{StartsAfter}
use kitchen_sync.Sync.Committed.{IsCommitted, Inv-committed}
use kitchen_sync.Sync.Range.Named.{start_sync_table-IsNamed, start_sync_table-flight}
use kitchen_sync.Sync.Correct.{IsIdle, synced_when_finished}

module _ (F : RowFormat) (digest : List ℕ → List ℕ) (subdivide : ℕ → ℕ → ℕ) (sizes : BlockSizes)
    (source : Table F) (wf_source : IsTable F source)
    (no_collision : (xs ys : List ℕ) → digest xs ≡ digest ys → xs ≡ ys) where
  finish :
      (original : Table F) (wf : IsTable F original) (above : StartsAfter F source original)
      (s : State F) (fuel : ℕ)
      → Inv F digest source original s
      → IsNamed s
      → work_left F original wf s ≤ fuel
      → {start : State F} → Reach F digest subdivide sizes source original start s
      → (t : State F) × Reach F digest subdivide sizes source original start t × IsFinished t
  finish original wf above s zero v named enough reached =
      elim (progress F digest subdivide sizes source original wf s v named) [
        | inl done ↦ (s, reached, done)
        | inr (t, step, _) ↦
            absurd (omega (arith, Step-work F original wf digest subdivide sizes source s t v step))
      ]
  finish original wf above s (suc fuel) v named enough reached =
      elim (progress F digest subdivide sizes source original wf s v named) [
        | inl done ↦ (s, reached, done)
        | inr (t, step, named') ↦
            let fewer = Step-work F original wf digest subdivide sizes source s t v step in
            let kept =
              Step-Inv F digest subdivide sizes source original wf_source wf no_collision above s t
                v step in
            finish original wf above t fuel kept named' (omega arith) (next reached step)
      ]

  -- For two well-formed tables and a job with empty queues whose table id is its name, if what is
  -- committed is well-formed and is what the writer has in the ranges queued, no committed row lies before the first of
  -- the source, and no two inputs of the hash collide: some steps from the start lead to a state in which nothing is
  -- left to do, and each position of the target then holds what the source holds there.
  pub sync_table_finishes :
      (target : Table F)
      → IsTable F target
      → (job : TableJob) → IsIdle job
      → job.table_id ≡ job.table_name
      → (committed : Table F)
      → IsCommitted F source (start_sync_table F subdivide source job target) committed
      → (s : State F) × Reach F digest subdivide sizes source committed
          (start_sync_table F subdivide source job target)
          s
        × IsFinished s
        × ((key : ℕ) → s.target.row_at key ≡ source.row_at key)
  sync_table_finishes target wf job idle named committed c =
      let start = start_sync_table F subdivide source job target in
      let (landed, _, _) = start_sync_table-flight F subdivide source target job in
      let entered =
        Inv-committed F digest source start committed
          (start_sync_table-Inv F source target wf_source wf digest subdivide job idle) landed c in
      let (s, reached, done) =
        finish committed c.table c.above start (work_left F committed c.table start) entered
          (start_sync_table-IsNamed F subdivide source target job named) (omega arith) here in
      (
        s,
        reached,
        done,
        synced_when_finished F digest subdivide sizes source target wf_source wf no_collision job s
            idle committed c reached done,
      )
