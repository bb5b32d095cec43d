-- ===== src/Sync/Range/Initial.antt =====
-- The ranges that are queued first, and the rows that are deleted first (`queue_initial_ranges` and
-- `handle_range_response` of src/sync_to_algorithm.h).
use kitchen_sync.Common.{
  ℕ, ◌≤◌, ◌≡◌, ◌⊎◌, inl, inr, some, [], All, arith, ◌==◌, Bool-cases, Option-cases, ==→eq,
}
use kitchen_sync.Table.{RowFormat, Table, IsTable, IsPresent}
use kitchen_sync.Sync.Coverage.{weight, count_checks}
use kitchen_sync.Sync.Hashed.{IsCheck}
use kitchen_sync.Sync.Range.{delete_outside, initial_ranges}

module _ (F : RowFormat) where
  -- The ranges that are queued at first cover each key up to our last one, once.
  pub initial_ranges-covers :
      (mid last key : ℕ)
      → mid ≤ last
      → count_checks key (initial_ranges F mid last []) ≡ weight 0 last key
  unfolding initial_ranges
  initial_ranges-covers mid last key h = ground arith

  pub initial_ranges-IsCheck :
      (t : Table F) (mid last : ℕ)
      → IsTable F t
      → mid ≤ last
      → IsPresent F t last
      → (mid ≡ 0) ⊎ IsPresent F t mid
      → All (IsCheck F t) (initial_ranges F mid last [])
  unfolding initial_ranges
  initial_ranges-IsCheck t mid last wf h ends middle = elim (Bool-cases (mid == 0)) [
    | inl z ↦
        let mid_zero = ==→eq mid 0 z in
        elim (Bool-cases (mid == last)) [
          | inl same ↦ rw (z, same) tt
          | inr other ↦
              rw (z, other)
                (record { ordered = ground arith; ends = ends; some_rows = omega arith }, tt)
        ]
    | inr nz ↦
        let middle' : IsPresent F t mid = elim middle [
          | inl e ↦ absurd (ground arith)
          | inr p ↦ p
        ] in
        elim (Bool-cases (mid == last)) [
          | inl same ↦
              rw (nz, same)
                (record { ordered = ground arith; ends = middle'; some_rows = omega arith }, tt)
          | inr other ↦
              rw (nz, other)
                (
                  record { ordered = ground arith; ends = ends; some_rows = omega arith },
                  (record { ordered = ground arith; ends = middle'; some_rows = omega arith }, tt),
                )
        ]
  ]

  pub delete_outside_kept :
      (first last : ℕ) (t : Table F) (k : ℕ) (r : F.Row)
      → (delete_outside F first last t).row_at k ≡ some r
      → (k ≤ last) × (t.row_at k ≡ some r)
  unfolding delete_outside
  delete_outside_kept first last t k r e = ground arith

  pub delete_outside-IsTable :
      (first last : ℕ) (t : Table F) → IsTable F t → IsTable F (delete_outside F first last t)
  delete_outside-IsTable first last t wf = record {
    placed = λ k r e. wf.placed k r (delete_outside_kept first last t k r e).1;
    within =
        λ k r e. unfold delete_outside in wf.within k r (delete_outside_kept first last t k r e).1;
    no_empty_key = elim (Option-cases ((delete_outside F first last t).row_at 0)) [
      | inl e ↦ e
      | inr (r, e) ↦
          let kept = (delete_outside_kept first last t 0 r e).1 in let empty = wf.no_empty_key in cc
    ];
  }

-- The target when the rows behind our last key have come in.
