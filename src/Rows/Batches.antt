-- ===== src/Rows/Batches.antt =====
-- The batches in which rows are sent are the rows of the range.
use kitchen_sync.Common.{
  length-take-le, take_short, false, ℕ, zero, suc, ◌+◌, ◌-◌, ◌<◌, ◌≤◌, ◌≡◌, refl, ap, ◌∙◌, sym, inl,
  inr, Option, List, [], ◌∷◌, ◌++◌, length, take, arith, ltb, Option-cases, Bool-cases,
}
use kitchen_sync.Table.{
  RowFormat, Table, IsTable, scan, upper, rows_in_range, retrieve_rows, last_key_from, last_key_of,
}
use kitchen_sync.Table.Scan.{
  IsPlaced, scan_step_none, scan_step_some, last_key-scan_bounds, last_key_present,
}
use kitchen_sync.Rows.{send_batches, send_rows}

module _ (F : RowFormat) (f : ℕ → Option F.Row) where
  pub last_key_from_rows :
      (a b : ℕ) (rows : List F.Row)
      → 1 ≤ length rows
      → last_key_from F a rows ≡ last_key_from F b rows
  last_key_from_rows a b [] h = absurd (omega arith)
  last_key_from_rows a b (x ∷ xs) h = refl

  -- A full batch, and the scan from its last key on.
  scan_batch :
      (n p m end k : ℕ)
      → IsPlaced F f
      → length (take m (scan F f n p)) ≡ m
      → end ≡ p + n
      → last_key_from F p (take m (scan F f n p)) ≡ k
      → scan F f n p ≡ take m (scan F f n p) ++ scan F f (end - k) k
  scan_batch n p zero end k placed full e last =
      let start : p ≡ k = last in
      let left : n ≡ end - k = omega arith in rw left (ap (λ q. scan F f (end - k) q) start)
  scan_batch zero p (suc m) end k placed full e last = absurd (unfold scan in omega arith)
  scan_batch (suc n) p (suc m) end k placed full e last = elim (Option-cases (f (suc p))) [
    | inl z ↦
        let full' : length (take (suc m) (scan F f n (suc p))) ≡ suc m =
          rw (scan_step_none F f n p z) at full in
        let last' : last_key_from F p (take (suc m) (scan F f n (suc p))) ≡ k =
          rw (scan_step_none F f n p z) at last in
        let moved =
          last_key_from_rows (suc p) p (take (suc m) (scan F f n (suc p))) (omega arith) in
        rw (scan_step_none F f n p z)
          (scan_batch n (suc p) (suc m) end k placed full' (omega arith) (moved ∙ last'))
    | inr (r, z) ↦
        let place = placed (suc p) r z in
        let full' : suc (length (take m (scan F f n (suc p)))) ≡ suc m =
          rw (scan_step_some F f n p z) at full in
        let last' : last_key_from F (F.key_of r) (take m (scan F f n (suc p))) ≡ k =
          rw (scan_step_some F f n p z) at last in
        let last'' : last_key_from F (suc p) (take m (scan F f n (suc p))) ≡ k =
          rw place at last' in
        rw (scan_step_some F f n p z)
          (ap (λ q. r ∷ q) (scan_batch n (suc p) m end k placed (omega arith) (omega arith) last''))
  ]

module _ (F : RowFormat) (t : Table F) (wf : IsTable F t) where
  send_batches-rows_in_range :
      (batch fuel prev_key last_key : ℕ)
      → 1 ≤ batch
      → upper F t last_key - prev_key < fuel
      → send_batches F batch fuel t prev_key last_key ≡ rows_in_range F t prev_key last_key
  unfolding send_batches retrieve_rows rows_in_range
  send_batches-rows_in_range batch zero prev_key last_key some_rows h = absurd (omega arith)
  send_batches-rows_in_range batch (suc fuel) prev_key last_key some_rows h =
      let end = upper F t last_key in
      let rows = scan F t.row_at (end - prev_key) prev_key in
      let key = last_key_of F (take batch rows) in
      elim (Bool-cases (ltb (length (take batch rows)) batch)) [
        | inl short ↦ rw short (take_short batch rows (ground arith))
        | inr full ↦
            let many : length (take batch rows) ≡ batch =
              omega
                (arith, length-take-le batch rows, not_ltb (length (take batch rows)) batch full) in
            elim (last_key_present F t.row_at (end - prev_key) prev_key batch 0 wf.placed) [
              | inl (none_found, _) ↦ absurd (omega arith)
              | inr (r, _, above) ↦
                  let below =
                    last_key-scan_bounds F t.row_at (end - prev_key) prev_key batch 0 wf.placed
                      (omega arith) in
                  let rest =
                    send_batches-rows_in_range batch fuel key last_key some_rows (omega arith) in
                  let from_prev =
                    last_key_from_rows F t.row_at prev_key 0 (take batch rows) (omega arith) in
                  rw full (
                    ap (λ q. take batch rows ++ q) rest
                    ∙ sym (
                        scan_batch F t.row_at (end - prev_key) prev_key batch end key wf.placed many
                          (omega arith) from_prev))
            ]
      ]
    where
      not_ltb : (a b : ℕ) → ltb a b ≡ false → b ≤ a
      not_ltb a b e = ground arith

  -- The rows that are sent for a range are the rows of the range, each once and in order.
  pub send_rows-rows_in_range :
      (prev_key last_key : ℕ)
      → send_rows F t prev_key last_key ≡ rows_in_range F t prev_key last_key
  unfolding send_rows
  send_rows-rows_in_range prev_key last_key =
      send_batches-rows_in_range 10000 (suc (upper F t last_key - prev_key)) prev_key last_key
        (omega arith) (omega arith)
