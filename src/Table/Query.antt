-- ===== src/Table/Query.antt =====
-- The queries of a range, in terms of the scan of its positions.
use kitchen_sync.Common.{
  ℕ, ◌+◌, ◌-◌, ◌≤◌, ◌<◌, max, ◌≡◌, refl, ◌⊎◌, List, ap, inl, inr, some, take, length,
  length-take-le, arith, if_zero_pos,
}
use kitchen_sync.Table.{
  RowFormat, Table, IsTable, IsPresent, scan, rows_in_range, retrieve_rows,
  first_key_not_earlier_than, first_key_of, last_key_of,
}
use kitchen_sync.Table.Scan.{scan_present, last_key_covers, last_key_present, last_key-scan_bounds}
use kitchen_sync.Table.Window.{first_key-scan}

module _ (F : RowFormat) (t : Table F) where
  pub rows_in_range-scan :
      (prev last : ℕ) → 0 < last → rows_in_range F t prev last ≡ scan F t.row_at (last - prev) prev
  unfolding rows_in_range
  rows_in_range-scan prev last h = rw (if_zero_pos last t.bound h)

  pub retrieve_rows-scan :
      (prev last n : ℕ)
      → 0 < last
      → retrieve_rows F t prev last n ≡ take n (scan F t.row_at (last - prev) prev)
  unfolding retrieve_rows
  retrieve_rows-scan prev last n h = ap (take n) (rows_in_range-scan prev last h)

  -- The first key at or after `key` in a range is the range's start or the key of one of its rows.
  pub first_key_not_earlier_than_bounds :
      (key prev last : ℕ)
      → IsTable F t
      → prev < last
      → (prev ≤ first_key_not_earlier_than F t key prev last)
        × (first_key_not_earlier_than F t key prev last ≤ last)
        × ((first_key_not_earlier_than F t key prev last ≡ prev)
            ⊎ IsPresent F t (first_key_not_earlier_than F t key prev last))
  unfolding first_key_not_earlier_than
  first_key_not_earlier_than_bounds key prev last wf h =
      let start = max prev (key - 1) in
      rw (rows_in_range-scan (max prev (key - 1)) last (omega arith))
        (elim (first_key-scan F t.row_at (last - max prev (key - 1)) (max prev (key - 1))
          wf.placed) [
            | inl nothing ↦ rw nothing (omega arith, omega arith, inl refl)
            | inr (r, e, lo, hi) ↦
                let pos : 0 < first_key_of F (scan F t.row_at (last - start) start) = omega arith in
                rw (if_zero_pos _ prev pos) (omega arith, omega arith, inr (r, e))
          ])

  -- A limited query of a range that ends at a row finds a row; its last key is that of a row of the
  -- range, and the end of the range if the limit was not reached.
  pub retrieve_rows_window :
      (prev last n : ℕ)
      → IsTable F t
      → prev < last
      → IsPresent F t last
      → 1 ≤ n
      → (1 ≤ length (retrieve_rows F t prev last n))
        × (length (retrieve_rows F t prev last n) ≤ n)
        × (prev < last_key_of F (retrieve_rows F t prev last n))
        × (last_key_of F (retrieve_rows F t prev last n) ≤ last)
        × IsPresent F t (last_key_of F (retrieve_rows F t prev last n))
        × (length (retrieve_rows F t prev last n) < n
            → last_key_of F (retrieve_rows F t prev last n) ≡ last)
  retrieve_rows_window prev last n wf h (r, e) some_rows =
      rw (retrieve_rows-scan prev last n (omega arith)) (elim found [
        | inl (empty, _) ↦ absurd (omega (arith, present))
        | inr (s, d, lo) ↦
            (present, length-take-le n rows, lo, omega (arith, bounds), (s, d), whole)
      ])
    where
      rows : List F.Row
      rows = scan F t.row_at (last - prev) prev

      present : 1 ≤ length (take n rows)
      present = scan_present F t.row_at (last - prev) prev n last r e h (omega arith) some_rows

      found :
          ((length (take n rows) ≡ 0) × (last_key_of F (take n rows) ≡ 0))
          ⊎ ((s : F.Row) × (t.row_at (last_key_of F (take n rows)) ≡ some s)
              × (prev < last_key_of F (take n rows)))
      found = last_key_present F t.row_at (last - prev) prev n 0 wf.placed

      bounds :
          (0 ≤ last_key_of F (take n rows)) × (last_key_of F (take n rows) ≤ prev + (last - prev))
      bounds = last_key-scan_bounds F t.row_at (last - prev) prev n 0 wf.placed (omega arith)

      whole : length (take n rows) < n → last_key_of F (take n rows) ≡ last
      whole short =
          let covers =
            last_key_covers F t.row_at (last - prev) prev n 0 last r wf.placed short e h
              (omega arith) in
          omega (arith, bounds)
