-- ===== src/Sync/Range/Views.antt =====
-- What the workers see when the writer enters its loop.
use kitchen_sync.Common.{ℕ, ◌≤◌, ◌≡◌, refl, inl, inr, ◌==◌, Bool-cases, arith, sym, ◌∙◌, List, []}
use kitchen_sync.Table.{RowFormat, Table, IsTable, first_key, last_key, in_range, replace_range}
use kitchen_sync.Table.Replace.{replace_range-row_at}
use kitchen_sync.Table.Ends.{first_key_lem}
use kitchen_sync.Sync.{TableJob}
use kitchen_sync.Sync.Converge.Applied.{StartsAfter}
use kitchen_sync.Sync.Committed.{IsCommitted}
use kitchen_sync.Sync.Range.{
  delete_all, delete_outside, handle_range_command, handle_range_response,
  request_rows_without_pipelining, start_sync_table,
}
use kitchen_sync.Sync.Range.Start.{start_sync_table-IsTable, start_sync_table-seen}

module _ (F : RowFormat) (source target : Table F) (wf_source : IsTable F source)
    (wf : IsTable F target) where
  delete_outside-StartsAfter :
      (last : ℕ)
      → 1 ≤ first_key F source
      → StartsAfter F source (delete_outside F (first_key F source) last target)
  unfolding delete_outside
  delete_outside-StartsAfter last positive k r e = ground arith

  source-StartsAfter : 1 ≤ first_key F source → StartsAfter F source source
  source-StartsAfter positive k r e = elim (first_key_lem F source wf_source) [
    | inl (z, _) ↦ absurd (omega arith)
    | inr (_, least) ↦ (positive, least k r e)
  ]

  replace_range-StartsAfter :
      (t : Table F) (prev last : ℕ)
      → 1 ≤ first_key F source
      → StartsAfter F source t
      → StartsAfter F source (replace_range F source t prev last)
  replace_range-StartsAfter t prev last positive above k r e =
      let whole = sym (replace_range-row_at F source t prev last k) ∙ e in
      elim (Bool-cases (in_range F prev last k)) [
        | inl i ↦ source-StartsAfter positive k r (rw i at whole)
        | inr o ↦ above k r (rw o at whole)
      ]

  module _ (subdivide : ℕ → ℕ → ℕ) (job : TableJob) where
    start_sync_table-StartsAfter :
        StartsAfter F source (start_sync_table F subdivide source job target).target
    unfolding start_sync_table handle_range_response handle_range_command
        request_rows_without_pipelining delete_all
    start_sync_table-StartsAfter = elim (Bool-cases (first_key F source == 0)) [
      | inl z ↦ rw z (λ k r e. cc)
      | inr nz ↦
          let positive : 1 ≤ first_key F source = ground arith in
          let cleared = delete_outside-StartsAfter (last_key F source) positive in
          elim (Bool-cases (
            last_key F (delete_outside F (first_key F source) (last_key F source) target)
            == last_key F source)) [
              | inl same ↦ rw (nz, same) cleared
              | inr other ↦ rw (nz, other) (replace_range-StartsAfter _ _ _ positive cleared)
            ]
    ]

    pub start_sync_table-IsCommitted :
        (digest : List ℕ → List ℕ)
        → (job.ranges_to_check ≡ []) × (job.ranges_to_retrieve ≡ [])
        → IsCommitted F source
            (start_sync_table F subdivide source job target)
            (start_sync_table F subdivide source job target).target
    start_sync_table-IsCommitted digest idle = record {
      table = start_sync_table-IsTable F source target wf_source wf digest subdivide job idle;
      seen = λ k z. refl;
      above = start_sync_table-StartsAfter;
    }

    -- For two well-formed tables and a job with empty queues: if the target has no row before the
    -- source's first, what was committed before is what the writer has in the ranges that it queues.
    pub target-IsCommitted :
        (digest : List ℕ → List ℕ)
        → (job.ranges_to_check ≡ []) × (job.ranges_to_retrieve ≡ [])
        → StartsAfter F source target
        → IsCommitted F source (start_sync_table F subdivide source job target) target
    target-IsCommitted digest idle above = record {
      table = wf;
      seen = start_sync_table-seen F source target wf_source wf digest subdivide job idle above;
      above = above;
    }
