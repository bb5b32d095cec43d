-- ===== src/Table/Ends.antt =====
-- The first and the last key of a table.
use kitchen_sync.Common.{
  ℕ, zero, suc, ◌+◌, ◌-◌, ◌≤◌, ◌<◌, ◌≡◌, ◌≢◌, ◌⊎◌, inl, inr, Option, none, some, length, take,
  take_all, arith, ℕ_discrete, Option-cases,
}
use kitchen_sync.Table.{
  RowFormat, Table, IsTable, IsPresent, scan, rows_in_range, first_key, first_key_of, last_key,
}
use kitchen_sync.Table.Window.{first_key-scan}
use kitchen_sync.Table.Scan.{scan_step_none, scan_step_some, last_key_covers, last_key_present}

module _ (F : RowFormat) where
  length-scan-le : (f : ℕ → Option F.Row) (n p : ℕ) → length (scan F f n p) ≤ n
  length-scan-le f zero p = unfold scan in omega arith
  length-scan-le f (suc n) p = elim (Option-cases (f (suc p))) [
    | inl e ↦ rw (scan_step_none F f n p e) (omega (arith, length-scan-le f n (suc p)))
    | inr (r, e) ↦ rw (scan_step_some F f n p e) (omega (arith, length-scan-le f n (suc p)))
  ]

  -- No row comes before the first key found.
  first_key-scan_least :
      (f : ℕ → Option F.Row) (n p k : ℕ) (r : F.Row)
      → ((j : ℕ) (s : F.Row) → f j ≡ some s → F.key_of s ≡ j)
      → f k ≡ some r
      → p < k
      → k ≤ p + n
      → (first_key_of F (scan F f n p) ≤ k) × (1 ≤ first_key_of F (scan F f n p))
  first_key-scan_least f zero p k r placed e lo hi = absurd (omega arith)
  first_key-scan_least f (suc n) p k r placed e lo hi = elim (Option-cases (f (suc p))) [
    | inl d ↦
        let ne : suc p ≢ k = λ (q : suc p ≡ k). cc in
        rw (scan_step_none F f n p d)
          (first_key-scan_least f n (suc p) k r placed e (omega arith) (omega arith))
    | inr (s, d) ↦
        let place = placed (suc p) s d in rw (scan_step_some F f n p d) (omega arith, omega arith)
  ]

module _ (F : RowFormat) (t : Table F) (wf : IsTable F t) where
  positive : (k : ℕ) (r : F.Row) → t.row_at k ≡ some r → 0 < k
  positive zero r e = let empty = wf.no_empty_key in cc
  positive (suc k) r e = omega arith

  first_key_least :
      (k : ℕ) (r : F.Row) → t.row_at k ≡ some r → (first_key F t ≤ k) × (1 ≤ first_key F t)
  unfolding first_key
  first_key_least k r e =
      first_key-scan_least F t.row_at (t.bound - 0) 0 k r wf.placed e (positive k r e)
        (omega (arith, wf.within k r e))

  -- Where no row could be, none is.
  none_of : (n k : ℕ) → n ≡ 0 → ((r : F.Row) → t.row_at k ≡ some r → 1 ≤ n) → t.row_at k ≡ none
  none_of n k z found = elim (Option-cases (t.row_at k)) [
    | inl e ↦ e
    | inr (r, e) ↦ absurd (omega (arith, found r e))
  ]

  -- The first key is empty only for a table with no row, and no row comes before it.
  pub first_key_lem :
      ((first_key F t ≡ 0) × ((k : ℕ) → t.row_at k ≡ none))
      ⊎ ((1 ≤ first_key F t) × ((k : ℕ) (r : F.Row) → t.row_at k ≡ some r → first_key F t ≤ k))
  first_key_lem = elim (ℕ_discrete (first_key F t) 0) [
    | yes z ↦ inl (z, λ k. none_of (first_key F t) k z (λ r e. (first_key_least k r e).1))
    | no ne ↦ inr (omega arith, λ k r e. (first_key_least k r e).0)
  ]

  pub first_key_found : 1 ≤ first_key F t → IsPresent F t (first_key F t)
  unfolding first_key rows_in_range
  first_key_found positive_key = elim (first_key-scan F t.row_at (t.bound - 0) 0 wf.placed) [
    | inl z ↦ absurd (omega arith)
    | inr (r, e, _, _) ↦ (r, e)
  ]

  whole : take (suc t.bound) (scan F t.row_at (t.bound - 0) 0) ≡ scan F t.row_at (t.bound - 0) 0
  whole = take_all (suc t.bound) _ (omega (arith, length-scan-le F t.row_at (t.bound - 0) 0))

  pub last_key_greatest : (k : ℕ) (r : F.Row) → t.row_at k ≡ some r → k ≤ last_key F t
  unfolding last_key
  last_key_greatest k r e = rw whole at (
      last_key_covers F t.row_at (t.bound - 0) 0 (suc t.bound) 0 k r wf.placed
        (rw whole (omega (arith, length-scan-le F t.row_at (t.bound - 0) 0))) e (positive k r e)
        (omega (arith, wf.within k r e)))

  last_key_found :
      ((length (rows_in_range F t 0 0) ≡ 0) × (last_key F t ≡ 0))
      ⊎ ((r : F.Row) × (t.row_at (last_key F t) ≡ some r) × (0 < last_key F t))
  unfolding last_key
  last_key_found =
      rw whole at (last_key_present F t.row_at (t.bound - 0) 0 (suc t.bound) 0 wf.placed)

  -- The last key is empty for a table with no row, and otherwise the key of a row.
  pub last_key_lem :
      ((last_key F t ≡ 0) × ((k : ℕ) → t.row_at k ≡ none))
      ⊎ ((1 ≤ last_key F t) × IsPresent F t (last_key F t))
  last_key_lem = elim last_key_found [
    | inl (_, z) ↦ inl (
      z,
      λ k.
          none_of (last_key F t) k z
            (λ r e. omega (arith, last_key_greatest k r e, positive k r e)),
    )
    | inr (r, e, lo) ↦ inr (omega arith, (r, e))
  ]
