-- ===== src/Table/Count.antt =====
-- How many rows a range holds.
use kitchen_sync.Common.{
  ℕ, zero, suc, ◌+◌, ◌-◌, ◌≤◌, ◌<◌, ◌≡◌, ◌≢◌, refl, ap, ◌∙◌, inl, inr, Option, List, [], ◌∷◌,
  length, take, take_all, arith, Option-cases,
}
use kitchen_sync.Table.{
  RowFormat, Table, IsTable, IsPresent, scan, rows_in_range, retrieve_rows, last_key_from,
  last_key_of,
}
use kitchen_sync.Table.Scan.{
  IsPlaced, scan_step_none, scan_step_some, scan_present, last_key_present,
}
use kitchen_sync.Table.Query.{rows_in_range-scan, retrieve_rows-scan, retrieve_rows_window}

module _ (F : RowFormat) (f : ℕ → Option F.Row) where
  length-scan_split :
      (m n k p q : ℕ)
      → k ≡ m + n
      → q ≡ p + m
      → length (scan F f k p) ≡ length (scan F f m p) + length (scan F f n q)
  length-scan_split zero n k p q e d =
      let k' : k ≡ n = omega arith in
      let q' : q ≡ p = omega arith in rw (k', q') (unfold scan in omega arith)
  length-scan_split (suc m) n k p q e d =
      let k' : k ≡ suc (m + n) = omega arith in
      let ih = length-scan_split m n (m + n) (suc p) q refl (omega arith) in
      rw k' (elim (Option-cases (f (suc p))) [
        | inl z ↦ rw (scan_step_none F f (m + n) p z, scan_step_none F f m p z) ih
        | inr (r, z) ↦ rw (scan_step_some F f (m + n) p z, scan_step_some F f m p z) (omega arith)
      ])

  pub last_key_from_any :
      (a b : ℕ) (xs : List F.Row)
      → last_key_from F a xs ≢ a
      → last_key_from F a xs ≡ last_key_from F b xs
  last_key_from_any a b [] h = absurd (h refl)
  last_key_from_any a b (x ∷ xs) h = refl

  -- A limited scan holds as many rows as there are up to its last key.
  length-take-scan :
      (n p m : ℕ)
      → IsPlaced F f
      → (d : ℕ) → last_key_from F p (take m (scan F f n p)) ≡ p + d
      → length (take m (scan F f n p)) ≡ length (scan F f d p)
  length-take-scan n p zero placed d e =
      let none_left : d ≡ 0 = omega arith in rw none_left (unfold scan in refl)
  length-take-scan zero p (suc m) placed d e =
      let last : p ≡ p + d = unfold scan in e in
      let none_left : d ≡ 0 = omega arith in rw none_left (unfold scan in refl)
  length-take-scan (suc n) p (suc m) placed zero e =
      elim (last_key_present F f (suc n) p (suc m) p placed) [
        | inl (none_found, _) ↦ rw none_found (unfold scan in refl)
        | inr (r, _, lo) ↦ absurd (omega arith)
      ]
  length-take-scan (suc n) p (suc m) placed (suc d) e = elim (Option-cases (f (suc p))) [
    | inl z ↦
        rw (scan_step_none F f n p z, scan_step_none F f d p z)
          (let e' = rw (scan_step_none F f n p z) at e in
            let moved =
              last_key_from_any p (suc p) (take (suc m) (scan F f n (suc p))) (omega arith) in
            length-take-scan n (suc p) (suc m) placed d (omega arith))
    | inr (r, z) ↦
        let place = placed (suc p) r z in
        let e' : last_key_from F (F.key_of r) (take m (scan F f n (suc p))) ≡ p + suc d =
          rw (scan_step_some F f n p z) at e in
        let moved : last_key_from F (suc p) (take m (scan F f n (suc p))) ≡ suc p + d =
          rw place at e' ∙ omega arith in
        rw (scan_step_some F f n p z, scan_step_some F f d p z)
          (ap suc (length-take-scan n (suc p) m placed d moved))
  ]

module _ (F : RowFormat) (t : Table F) (wf : IsTable F t) where
  pub rows_between : ℕ → ℕ → ℕ
  rows_between prev last = length (rows_in_range F t prev last)

  -- Rows are counted once where a range is split.
  pub rows_between_split :
      (prev mid last : ℕ)
      → prev ≤ mid
      → mid ≤ last
      → 0 < mid
      → rows_between prev last ≡ rows_between prev mid + rows_between mid last
  unfolding rows_between
  rows_between_split prev mid last h k pos =
      rw
        (
          rows_in_range-scan F t prev last (omega arith),
          rows_in_range-scan F t prev mid pos,
          rows_in_range-scan F t mid last (omega arith),
        )
        (length-scan_split F t.row_at (mid - prev) (last - mid) (last - prev) prev mid (omega arith)
          (omega arith))

  pub rows_between_pos :
      (prev last : ℕ) → prev < last → IsPresent F t last → 1 ≤ rows_between prev last
  unfolding rows_between
  rows_between_pos prev last h (r, e) =
      let rows = scan F t.row_at (last - prev) prev in
      let found =
        scan_present F t.row_at (last - prev) prev (suc (length rows)) last r e h (omega arith)
          (omega arith) in
      rw (rows_in_range-scan F t prev last (omega arith))
        (rw (take_all (suc (length rows)) rows (omega arith)) at found)

  pub rows_between_empty : (last : ℕ) → 0 < last → rows_between last last ≡ 0
  unfolding rows_between
  rows_between_empty last pos =
      let nothing : last - last ≡ 0 = omega arith in
      rw (rows_in_range-scan F t last last pos, nothing) (unfold scan in refl)

  -- A limited query of a range that ends at a row returns all rows up to its last key.
  pub length-retrieve_rows :
      (prev last n : ℕ)
      → prev < last
      → IsPresent F t last
      → 1 ≤ n
      → length (retrieve_rows F t prev last n)
        ≡ rows_between prev (last_key_of F (retrieve_rows F t prev last n))
  unfolding rows_between
  length-retrieve_rows prev last n h present some_rows =
      let (_, _, lo, hi, _, _) = retrieve_rows_window F t prev last n wf h present some_rows in
      let rows = retrieve_rows F t prev last n in
      let same : retrieve_rows F t prev last n ≡ take n (scan F t.row_at (last - prev) prev) =
        retrieve_rows-scan F t prev last n (omega arith) in
      let some_key : last_key_of F (retrieve_rows F t prev last n) ≢ 0 = omega arith in
      let moved : last_key_from F 0 (take n (scan F t.row_at (last - prev) prev)) ≢ 0 =
        rw same at some_key in
      let reached : last_key_from F prev (take n (scan F t.row_at (last - prev) prev))
          ≡ prev + (last_key_of F (retrieve_rows F t prev last n) - prev) =
        omega (
          arith,
          last_key_from_any F t.row_at 0 prev (take n (scan F t.row_at (last - prev) prev)) moved,
          ap (last_key_of F) same,
        ) in
      rw (rows_in_range-scan F t prev (last_key_of F (retrieve_rows F t prev last n)) (omega arith))
        (ap length same ∙ length-take-scan F t.row_at (last - prev) prev n wf.placed _ reached)
