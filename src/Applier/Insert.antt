-- ===== src/Applier/Insert.antt =====
-- The insertion of the rows that the database does not have.
use kitchen_sync.Applier.Check.{Inv-replacer}
use kitchen_sync.Applier.Buffer.{AreDistinct}
use kitchen_sync.Common.{
  ℕ_discrete, ◌∙◌, ap, sym, refl, ◌≤◌, arith, ==_refl, ◌<◌, ℕ, ◌≡◌, ◌≢◌, none, some, List, [], ◌∷◌,
  inl, inr,
}
use kitchen_sync.Table.{RowFormat, Table}
use kitchen_sync.Table.Scan.{IsPlaced}
use kitchen_sync.Replacer.{need_to_apply, set_row, insert_row, Client, RowReplacer}
use kitchen_sync.Replacer.Steps.{
  settled-apply_if, Untouched-insert_row, table-insert_row, settled-insert_row, Settles,
}
use kitchen_sync.Applier.{
  insert_remaining_rows, need_to_apply, insert_row, RowRangeApplier, find_row, insert_all,
}
use kitchen_sync.Applier.Invariant.{apart, Task, Inv}

module _ (F : RowFormat) (client : Client F) (task : Task F) (placed : IsPlaced F task.source) where
  open F use {Row, key_of}

  module _ (a : RowRangeApplier F client) (q : ℕ) (t : Table F) (row : Row) (rows : List (ℕ × Row))
      (v : Inv F client task a q t) (all_checked : q ≡ a.curr_key)
      (first : a.source_rows ≡ (key_of row, row) ∷ rows) where
    found : find_row (key_of row) a.source_rows ≡ some row
    found = rw (first, ==_refl (key_of row)) refl

    inside : (task.prev < key_of row) × (key_of row ≤ a.curr_key)
    inside = v.buffered (key_of row) row found

    -- The row is not in the table, nor will the pending statements put it there.
    missing : (t.row_at (key_of row) ≡ none) × (some row ≡ task.source (key_of row))
    missing = elim (v.checked (key_of row) inside.0 (omega (arith, inside))) [
      | inl (gone, _) ↦ absurd (let f = found in ground arith)
      | inr (absent, same) ↦ (absent, sym found ∙ same)
    ]

    rest_distinct : (find_row (key_of row) rows ≡ none) × AreDistinct rows
    rest_distinct = rw first at v.distinct

    other : (k : ℕ) → k ≢ key_of row → find_row k rows ≡ find_row k a.source_rows
    other k ne = rw first (ground (arith, ne))

    pub insert_row-Settles : Settles F client (insert_row F client row a.replacer) (set_row F row t)
    insert_row-Settles = settled-insert_row F client a.replacer t row v.settles missing.0

    pub Inv-inserted :
        Inv F client task
          (record a { replacer = insert_row F client row a.replacer; source_rows = rows })
          q
          (set_row F row t)
    Inv-inserted = record {
      settles = insert_row-Settles;
      table_placed = λ k r e.
          v.table_placed k r (
            sym (ap (λ (tb : Table F). tb.row_at k) (table-insert_row F client a.replacer row))
            ∙ e);
      settled_placed = λ k r e. elim (ℕ_discrete k (key_of row)) [
        | yes same ↦
            let e' : some row ≡ some r = ground (arith, e, same) in let row_is : row ≡ r = cc in cc
        | no ne ↦ v.settled_placed k r (ground (arith, e, ne))
      ];
      from_start = v.from_start;
      checked_received = v.checked_received;
      within = v.within;
      outside = λ k out.
          let ne = apart F client task a q t k (key_of row) v inside.0 inside.1 out in
          let (same, free) = v.outside k out in
          (
            ground (arith, same, ne),
            λ f. Untouched-insert_row F client a.replacer row k (free f) ne,
          );
      checked = λ k lo hi. elim (ℕ_discrete k (key_of row)) [
        | yes same ↦ rw same (inl (rest_distinct.0, rw (==_refl (key_of row)) missing.1))
        | no ne ↦
            let unchanged : (set_row F row t).row_at k ≡ t.row_at k = ground (arith, ne) in
            elim (v.checked k lo hi) [
              | inl (gone, e) ↦ inl (other k ne ∙ gone, unchanged ∙ e)
              | inr (absent, e) ↦ inr (unchanged ∙ absent, other k ne ∙ e)
            ]
      ];
      received = λ k lo hi. absurd (omega arith);
      ahead = λ k lo end.
          Untouched-insert_row F client a.replacer row k (v.ahead k lo end)
            (λ e. omega (arith, inside));
      buffered = λ k r e. elim (ℕ_discrete k (key_of row)) [
        | yes same ↦ absurd (let e' = rw same at e in let gone = rest_distinct.0 in ground arith)
        | no ne ↦ v.buffered k r (sym (other k ne) ∙ e)
      ];
      distinct = rest_distinct.1;
    }

  -- The count of bytes does not matter.
  Inv-bytes :
      (a : RowRangeApplier F client) (bytes q : ℕ) (t : Table F) (rows : List (ℕ × Row))
      → a.source_rows ≡ rows
      → Inv F client task a q t
      → Inv F client task (record a { source_rows = rows; approx_buffered_bytes = bytes }) q t
  Inv-bytes a bytes q t rows e v = rw (← e) record {
    settles = v.settles;
    table_placed = v.table_placed;
    settled_placed = v.settled_placed;
    from_start = v.from_start;
    checked_received = v.checked_received;
    within = v.within;
    outside = v.outside;
    checked = v.checked;
    received = v.received;
    ahead = v.ahead;
    buffered = v.buffered;
    distinct = v.distinct;
  }

  -- The key that a row is buffered under is the row's.
  key_of-first :
      (a : RowRangeApplier F client) (q : ℕ) (t : Table F) (k : ℕ) (row : Row)
      (rows : List (ℕ × Row))
      → Inv F client task a q t
      → q ≡ a.curr_key
      → a.source_rows ≡ (k, row) ∷ rows
      → key_of row ≡ k
  key_of-first a q t k row rows v all_checked first =
      let found : find_row k a.source_rows ≡ some row = rw (first, ==_refl k) refl in
      let inside = v.buffered k row found in
      elim (v.checked k inside.0 (omega arith)) [
        | inl (gone, _) ↦ absurd (ground arith)
        | inr (_, same) ↦ placed k row (sym same ∙ found)
      ]

  -- Each buffered row is inserted, and none of the INSERTs meets a row with its key.
  insert_all-Inv :
      (a : RowRangeApplier F client) (q : ℕ) (t : Table F) (rows : List (ℕ × Row))
      → Inv F client task a q t
      → q ≡ a.curr_key
      → a.source_rows ≡ rows
      → (rep : RowReplacer F) × (insert_all F client rows a.replacer ≡ some rep)
        × ((u : Table F) × Inv F client task
              (record a { replacer = rep; source_rows = []; approx_buffered_bytes = 0 })
              q
              u)
  unfolding insert_all
  insert_all-Inv a q t [] v all_checked first =
      (a.replacer, refl, (t, Inv-bytes a 0 q t [] first v))
  insert_all-Inv a q t ((k, row) ∷ rows) v all_checked first =
      let key = key_of-first a q t k row rows v all_checked first in
      let first' : a.source_rows ≡ (key_of row, row) ∷ rows = rw key first in
      let inserted = insert_row F client row a.replacer in
      let needed = need_to_apply F client inserted in
      let (rep, e, settles, untouched, same) =
        settled-apply_if F client needed inserted (set_row F row t)
          (insert_row-Settles a q t row rows v all_checked first') in
      let w =
        Inv-replacer F client task placed (record a { replacer = inserted; source_rows = rows }) rep
          a.prev_key q (set_row F row t) (Inv-inserted a q t row rows v all_checked first') settles
          untouched same in
      let (rep', e', (u, i)) =
        insert_all-Inv (record a { replacer = rep; source_rows = rows }) q (set_row F row t) rows w
          all_checked refl in
      (rep', rw (e, e') refl, (u, i))

  pub insert_remaining_rows-Inv :
      (a : RowRangeApplier F client) (t : Table F)
      → Inv F client task a a.prev_key t
      → a.prev_key ≡ a.curr_key
      → (b : RowRangeApplier F client) × (insert_remaining_rows F client a ≡ some b)
        × ((u : Table F) × Inv F client task b b.prev_key u)
        × (b.prev_key ≡ a.prev_key)
        × (b.curr_key ≡ a.curr_key)
        × (b.source_rows ≡ [])
  unfolding insert_remaining_rows
  insert_remaining_rows-Inv a t v all_checked =
      let (rep, e, (u, i)) = insert_all-Inv a a.prev_key t a.source_rows v all_checked refl in
      (
        record a { replacer = rep; source_rows = []; approx_buffered_bytes = 0 },
        rw e refl,
        (u, i),
        refl,
        refl,
        refl,
      )
