-- ===== src/Sync/Committed.antt =====
-- What other connections see when the writer has queued its first ranges (transactions of
-- src/ks_mysql.cpp and src/ks_postgresql.cpp that read what is committed).
use kitchen_sync.Common.{ℕ, ◌≤◌, ◌≡◌, sym, ◌∙◌, List, [], ◌∷◌, All, arith}
use kitchen_sync.Table.{RowFormat, Table, IsTable}
use kitchen_sync.Sync.{KeyRange, KeyRangeToCheck}
use kitchen_sync.Sync.Coverage.{weight, count_checks, count_ranges}
use kitchen_sync.Sync.Hashed.{IsCheck, IsRetrieve}
use kitchen_sync.Sync.Run.{State, pending}
use kitchen_sync.Sync.Invariant.{Inv}
use kitchen_sync.Sync.Converge.Applied.{StartsAfter}

-- In the ranges that are queued, the rows that are committed are those that the writer has, and none
-- lies before the source's first row. It is so for the writer alone, with what it sees itself, and for
-- any number of workers if the target had no row before the source's first.
pub record IsCommitted (F : RowFormat) (source : Table F) (start : State F) (committed : Table F)
    : Type 0 where
  pub table : IsTable F committed
  pub seen : (k : ℕ) → pending k start ≡ 1 → committed.row_at k ≡ start.target.row_at k
  pub above : StartsAfter F source committed

module _ (F : RowFormat) (target committed : Table F) where
  checks-seen :
      (qs : List KeyRangeToCheck)
      → ((k : ℕ) → 1 ≤ count_checks k qs → committed.row_at k ≡ target.row_at k)
      → All (IsCheck F target) qs
      → All (IsCheck F committed) qs
  checks-seen [] same v = tt
  checks-seen (q ∷ qs) same (v, vs) =
      let ordered = v.ordered in
      let covered : weight q.prev_key q.last_key q.last_key ≡ 1 = ground arith in
      let (r, e) = v.ends in
      (
        record {
          ordered = v.ordered;
          ends = (r, same q.last_key (omega arith) ∙ e);
          some_rows = v.some_rows;
        },
        checks-seen qs (λ k h. same k (omega arith)) vs,
      )

  retrieves-seen :
      (rs : List KeyRange)
      → ((k : ℕ) → 1 ≤ count_ranges k rs → committed.row_at k ≡ target.row_at k)
      → All (IsRetrieve F target) rs
      → All (IsRetrieve F committed) rs
  retrieves-seen [] same v = tt
  retrieves-seen (q ∷ qs) same ((ordered, (r, e)), vs) =
      let covered : weight q.prev_key q.last_key q.last_key ≡ 1 = ground arith in
      (
        (ordered, (r, same q.last_key (omega arith) ∙ e)),
        retrieves-seen qs (λ k h. same k (omega arith)) vs,
      )

-- The invariant holds at the start of what is committed, too.
pub Inv-committed :
    (F : RowFormat) (digest : List ℕ → List ℕ) (source : Table F) (start : State F)
    (committed : Table F)
    → Inv F digest source start.target start
    → start.flight ≡ []
    → IsCommitted F source start committed
    → Inv F digest source committed start
Inv-committed F digest source start committed v landed c = record {
  once = v.once;
  synced = v.synced;
  untouched = λ k z. sym (c.seen k z);
  checks =
      checks-seen F start.target committed start.job.ranges_to_check
        (λ k h. c.seen k (omega (arith, v.once k))) v.checks;
  retrieves =
      retrieves-seen F start.target committed start.job.ranges_to_retrieve
        (λ k h. c.seen k (omega (arith, v.once k))) v.retrieves;
  flying = rw landed tt;
}
