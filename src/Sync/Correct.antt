-- ===== src/Sync/Correct.antt =====
-- What synchronising one table achieves.
use kitchen_sync.Common.{ℕ, ◌≡◌, List, [], arith}
use kitchen_sync.Table.{RowFormat, Table, IsTable}
use kitchen_sync.Sync.{TableJob, BlockSizes}
use kitchen_sync.Sync.Run.{State, Reach}
use kitchen_sync.Sync.Progress.{IsFinished}
use kitchen_sync.Sync.Range.{start_sync_table}
use kitchen_sync.Sync.Range.Start.{start_sync_table-Inv}
use kitchen_sync.Sync.Range.Named.{start_sync_table-flight}
use kitchen_sync.Sync.Committed.{IsCommitted, Inv-committed}
use kitchen_sync.Sync.Converge.{Reach-Inv}

abbrev pub IsIdle : TableJob → Type 0
IsIdle job = (job.ranges_to_check ≡ []) × (job.ranges_to_retrieve ≡ [])

module _ (F : RowFormat) (digest : List ℕ → List ℕ) (subdivide : ℕ → ℕ → ℕ) (sizes : BlockSizes)
    (source target : Table F) (wf_source : IsTable F source) (wf : IsTable F target)
    (no_collision : (xs ys : List ℕ) → digest xs ≡ digest ys → xs ≡ ys) where
  -- For two well-formed tables, a job with empty queues, and what is committed: when every range
  -- that the writer queued at the start and every range that came of it has been dealt with, each
  -- position of the target holds what the source holds there. This is so for any order of the
  -- steps, any choice of midpoints and any block sizes, and any number of workers that see what is
  -- committed, if that is well-formed and is what the writer has in the ranges queued, no committed row lies before
  -- the first of the source, and no two inputs of the hash collide.
  pub synced_when_finished :
      (job : TableJob) (s : State F)
      → IsIdle job
      → (committed : Table F)
      → IsCommitted F source (start_sync_table F subdivide source job target) committed
      → Reach F digest subdivide sizes source committed
          (start_sync_table F subdivide source job target)
          s
      → IsFinished s
      → (key : ℕ) → s.target.row_at key ≡ source.row_at key
  synced_when_finished job s idle committed c reached (e, f, g) key =
      let start = start_sync_table-Inv F source target wf_source wf digest subdivide job idle in
      let (landed, _, _) = start_sync_table-flight F subdivide source target job in
      let entered = Inv-committed F digest source _ committed start landed c in
      let v =
        Reach-Inv F digest subdivide sizes source committed wf_source c.table no_collision c.above
          entered reached in
      v.synced key (rw (e, f, g) (omega arith))
