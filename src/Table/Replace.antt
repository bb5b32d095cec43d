-- ===== src/Table/Replace.antt =====
-- A table with one range replaced by another's rows.
use kitchen_sync.Common.{ℕ, ◌≤◌, ◌<◌, ◌≡◌, refl, ◌⊎◌, inl, inr, arith, if◌then◌else◌, Bool-cases}
use kitchen_sync.Table.{RowFormat, Table, IsTable, replace_range, in_range}

module _ (F : RowFormat) (source target : Table F) (prev last : ℕ) where
  pub replace_range-row_at :
      (k : ℕ)
      → (replace_range F source target prev last).row_at k
        ≡ (if in_range F prev last k then source.row_at k else target.row_at k)
  unfolding replace_range
  replace_range-row_at k = refl

  pub replace_range-inside :
      (k : ℕ)
      → prev < k
      → k ≤ last
      → (replace_range F source target prev last).row_at k ≡ source.row_at k
  unfolding replace_range
  replace_range-inside k lo hi = ground arith

  -- Behind the range and before it; position 0 holds no row in any table.
  pub replace_range-outside :
      (k : ℕ)
      → prev < last
      → (k ≤ prev) ⊎ (last < k)
      → ((replace_range F source target prev last).row_at k ≡ target.row_at k) ⊎ (k ≡ 0)
  unfolding replace_range
  replace_range-outside k o out = elim (Bool-cases (in_range F prev last k)) [
    | inl t ↦ inr (ground arith)
    | inr f ↦ inl (rw f)
  ]

  pub replace_range-IsTable :
      IsTable F source → IsTable F target → IsTable F (replace_range F source target prev last)
  unfolding replace_range
  replace_range-IsTable ws wt = record {
    placed = λ k r e. elim (Bool-cases (in_range F prev last k)) [
      | inl t ↦ ws.placed k r (rw t at e)
      | inr f ↦ wt.placed k r (rw f at e)
    ];
    within = λ k r e. elim (Bool-cases (in_range F prev last k)) [
      | inl t ↦ omega (arith, ws.within k r (rw t at e))
      | inr f ↦ omega (arith, wt.within k r (rw f at e))
    ];
    no_empty_key = elim (Bool-cases (in_range F prev last 0)) [
      | inl t ↦ rw t ws.no_empty_key
      | inr f ↦ rw f wt.no_empty_key
    ];
  }
