-- ===== src/Applier/Compare.antt =====
-- Comparing the rows of the database with those received.
use kitchen_sync.Rows.Batches.{last_key_from_rows}
use kitchen_sync.Table.Scan.{scan_step_some, scan_step_none, IsPlaced}
use kitchen_sync.Common.{
  zero, length, ==_refl, take, ◌≤◌, ◌+◌, refl, sym, Bool-cases, ◌∙◌, ◌++◌, ap, inr, arith, inl, ◌<◌,
  Option-cases, ℕ, ◌≡◌, ◌≢◌, ◌==◌, Option, none, some, List, [], ◌∷◌,
}
use kitchen_sync.Table.{scan, last_key_from, RowFormat, Table}
use kitchen_sync.Replacer.{replace_row, Client}
use kitchen_sync.Replacer.Steps.{
  Untouched-replace_row, settled-replace_row, Untouched-remove_row, settled-remove_row,
  table-replace_row, table-remove_row, settled-row_at, Untouched,
}
use kitchen_sync.Applier.{
  length, replace_row, delete_where, erase_row, true, suc, same_row, RowRangeApplier, find_row,
  compare_row, compare_with, compare_rows,
}
use kitchen_sync.Applier.Buffer.{find_row-erase_row, AreDistinct-erase_row, same_bytes-eq}
use kitchen_sync.Applier.Invariant.{Inv-absent, Task, Inv, Inv-compared}

module _ (F : RowFormat) (client : Client F) where
  open F use {Row, key_of}

  same_row-eq : (r s : Row) → same_row F client r s ≡ true → r ≡ s
  unfolding same_row
  same_row-eq r s e =
      let bytes = same_bytes-eq (F.packed r) (F.packed s) e in
      (F.self_delimiting r s [] [] (ap (λ xs. xs ++ []) bytes)).0

  -- A comparison leaves the table to the statements.
  pub compare_row-fields :
      (row : Row) (a : RowRangeApplier F client)
      → ((compare_row F client row a).replacer.table ≡ a.replacer.table)
        × ((compare_row F client row a).curr_key ≡ a.curr_key)
        × ((compare_row F client row a).prev_key ≡ key_of row)
  unfolding compare_row compare_with
  compare_row-fields row a = elim (Option-cases (find_row (key_of row) a.source_rows)) [
    | inl e ↦ simp e (table-remove_row F client a.replacer row, refl, refl)
    | inr (s, e) ↦ simp e (elim (Bool-cases (same_row F client s row)) [
      | inl b ↦ rw b (refl, refl, refl)
      | inr b ↦ rw b (table-replace_row F client a.replacer s, refl, refl)
    ])
  ]

  module _ (task : Task F) (placed : IsPlaced F task.source) where
    module _ (a : RowRangeApplier F client) (q : ℕ) (t : Table F) (row : Row)
        (v : Inv F client task a q t) (h : q < a.curr_key) (place : key_of row ≡ suc q)
        (present : a.replacer.table.row_at (suc q) ≡ some row) where
      free : Untouched F a.replacer (suc q)
      free = (v.received (suc q) (omega arith) h).0

      found : find_row (suc q) a.source_rows ≡ task.source (suc q)
      found = (v.received (suc q) (omega arith) h).1

      -- A row of the target at the key of a row of the source.
      placed_here :
          (s : Row) → find_row (suc q) a.source_rows ≡ some s → task.source (suc q) ≡ some s
      unfolding found
      placed_here s e = sym found ∙ e

      removed :
          find_row (suc q) a.source_rows ≡ none
          → (u : Table F) × Inv F client task (compare_with F client none row a) (suc q) u
      unfolding compare_with free found
      removed e =
          let absent : task.source (suc q) ≡ none = sym found ∙ e in
          let u = delete_where F (λ key. key == key_of row) t in
          (
            u,
            Inv-compared F client task a (compare_with F client none row a) q t u placed v h
                (table-remove_row F client a.replacer row) refl
                (settled-remove_row F client a.replacer t row v.settles (rw place free))
                (λ k ne f. Untouched-remove_row F client a.replacer row k f (rw place ne))
                (λ k ne. ground (arith, ne)) (λ k ne. refl) (inl (e, ground arith)) e v.distinct,
          )

      erased :
          (k : ℕ)
          → k ≢ suc q
          → find_row k (erase_row (key_of row) a.source_rows) ≡ find_row k a.source_rows
      erased k ne = ground (arith, ne, find_row-erase_row k (key_of row) a.source_rows)

      gone : find_row (suc q) (erase_row (key_of row) a.source_rows) ≡ none
      gone = ground (arith, find_row-erase_row (suc q) (key_of row) a.source_rows)

      matched :
          (s : Row)
          → find_row (suc q) a.source_rows ≡ some s
          → (u : Table F) × Inv F client task (compare_with F client (some s) row a) (suc q) u
      unfolding compare_with
      matched s e =
          let here = settled-row_at F client a.replacer t (suc q) v.settles free ∙ present in
          elim (Bool-cases (same_row F client s row)) [
            | inl same ↦
                let equal = same_row-eq s row same in
                (
                  t,
                  simp same (
                      Inv-compared F client task a
                        (record a {
                          prev_key = key_of row;
                          source_rows = erase_row (key_of row) a.source_rows;
                        })
                        q t t placed v h refl refl v.settles (λ k ne f. f) (λ k ne. refl) erased
                        (inl (gone, here ∙ sym (rw (← equal) (placed_here s e)))) gone
                        (AreDistinct-erase_row (key_of row) a.source_rows v.distinct)),
                )
            | inr differs ↦
                let key_s : key_of s ≡ suc q = placed (suc q) s (placed_here s e) in
                let (u, settles, rows) =
                  settled-replace_row F client a.replacer t s v.settles (rw key_s free) in
                (
                  u,
                  simp differs (
                      Inv-compared F client task a
                        (record a {
                          prev_key = key_of row;
                          replacer = replace_row F client s a.replacer;
                          source_rows = erase_row (key_of row) a.source_rows;
                        })
                        q t u placed v h (table-replace_row F client a.replacer s) refl settles
                        (λ k ne f. Untouched-replace_row F client a.replacer s k f (rw key_s ne))
                        (λ k ne. rows k ∙ ground (arith, ne)) erased
                        (inl (
                          gone,
                          rows (suc q) ∙ rw (key_s, ==_refl (suc q)) (sym (placed_here s e)),
                        ))
                        gone (AreDistinct-erase_row (key_of row) a.source_rows v.distinct)),
                )
          ]

      compare_row-Inv : (u : Table F) × Inv F client task (compare_row F client row a) (suc q) u
      unfolding compare_row
      compare_row-Inv = elim (Option-cases (find_row (suc q) a.source_rows)) [
        | inl e ↦
            let e' : find_row (key_of row) a.source_rows ≡ none = rw place e in simp e' (removed e)
        | inr (s, e) ↦
            let e' : find_row (key_of row) a.source_rows ≡ some s = rw place e in
            simp e' (matched s e)
      ]

    -- The rows of a query of the next `n` positions: all of them, or up to the last row's key.
    pub compare_rows-Inv :
        (f : ℕ → Option Row) (a : RowRangeApplier F client) (n q m : ℕ) (t : Table F)
        → IsPlaced F f
        → Inv F client task a q t
        → q + n ≤ a.curr_key
        → ((k : ℕ) → a.replacer.table.row_at k ≡ f k)
        → (u : Table F) × (p : ℕ) × Inv F client task
            (compare_rows F client (take m (scan F f n q)) a)
            p
            u
          × ((compare_rows F client (take m (scan F f n q)) a).curr_key ≡ a.curr_key)
          × (length (take m (scan F f n q)) < m → p ≡ q + n)
          × (length (take m (scan F f n q)) ≡ m → p ≡ last_key_from F q (take m (scan F f n q)))
    unfolding compare_rows
    compare_rows-Inv f a n q zero t pf v h same =
        (t, q, v, refl, λ k. absurd (omega arith), λ k. refl)
    compare_rows-Inv f a zero q (suc m) t pf v h same =
        unfold scan in (t, q, v, refl, λ k. omega arith, λ k. absurd (omega arith))
    compare_rows-Inv f a (suc n) q (suc m) t pf v h same = elim (Option-cases (f (suc q))) [
      | inl z ↦ rw (scan_step_none F f n q z) (
          let v' = Inv-absent F client task a q t v (omega arith) (same (suc q) ∙ z) in
          let (u, p, w, key, short, full) =
            compare_rows-Inv f a n (suc q) (suc m) t pf v' (omega arith) same in
          (
            u,
            p,
            w,
            key,
            λ l. omega (arith, short l),
            λ l.
                full l
                ∙ last_key_from_rows F f (suc q) q (take (suc m) (scan F f n (suc q)))
                    (omega arith),
          ))
      | inr (r, z) ↦ rw (scan_step_some F f n q z) (
          let place = pf (suc q) r z in
          let (table, key, _) = compare_row-fields r a in
          let (u, v') = compare_row-Inv a q t r v (omega arith) place (same (suc q) ∙ z) in
          let (w, p, i, key', short, full) =
            compare_rows-Inv f (compare_row F client r a) n (suc q) m u pf v' (omega arith)
              (λ k. ap (λ (tb : Table F). tb.row_at k) table ∙ same k) in
          (
            w,
            p,
            i,
            key' ∙ key,
            λ l. omega (arith, short (omega arith)),
            λ l.
                full (omega arith)
                ∙ ap (λ k. last_key_from F k (take m (scan F f n (suc q)))) (sym place),
          ))
    ]

  pub compare_rows-prev_key :
      (rows : List Row) (a : RowRangeApplier F client)
      → (compare_rows F client rows a).prev_key ≡ last_key_from F a.prev_key rows
  unfolding compare_rows
  compare_rows-prev_key [] a = refl
  compare_rows-prev_key (r ∷ rows) a =
      let (_, _, key) = compare_row-fields r a in
      compare_rows-prev_key rows (compare_row F client r a) ∙ ap (λ k. last_key_from F k rows) key
