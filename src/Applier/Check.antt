-- ===== src/Applier/Check.antt =====
-- The comparison in batches.
use kitchen_sync.Table.Query.{retrieve_rows-scan}
use kitchen_sync.Applier.Compare.{compare_rows-prev_key, compare_rows-Inv}
use kitchen_sync.Common.{
  ==-false, length-take-le, ==→eq, ◌∙◌, sym, ap, ◌⊎◌, inl, inr, inl, length, Bool-cases, take,
  arith, ◌-◌, ◌<◌, refl, ◌≤◌, ℕ, zero, suc, ◌≡◌, ◌==◌, some,
}
use kitchen_sync.Table.{scan, RowFormat, Table}
use kitchen_sync.Table.Scan.{last_key_present, IsPlaced}
use kitchen_sync.Replacer.{need_to_apply, Client, RowReplacer}
use kitchen_sync.Replacer.Steps.{settled-apply_if, Untouched, Settles}
use kitchen_sync.Applier.{
  max_rows_to_select, check_rows_to_curr_key, length, need_to_apply, next_batch, check_batches,
  apply_if_needed, RowRangeApplier, compare_rows,
}
use kitchen_sync.Applier.Invariant.{Task, Inv}

module _ (F : RowFormat) (client : Client F) (task : Task F) (placed : IsPlaced F task.source) where
  open F use {Row, key_of}

  -- Other statements that come to the same table, and a prev_key that does not matter.
  pub Inv-replacer :
      (a : RowRangeApplier F client) (rep : RowReplacer F) (key q : ℕ) (t : Table F)
      → Inv F client task a q t
      → Settles F client rep t
      → ((k : ℕ) → Untouched F a.replacer k → Untouched F rep k)
      → (rep.table ≡ a.replacer.table) ⊎ (rep.table ≡ t)
      → Inv F client task (record a { replacer = rep; prev_key = key }) q t
  Inv-replacer a rep key q t v settles untouched same = record {
    settles = settles;
    table_placed = λ k row e. elim same [
      | inl before ↦ v.table_placed k row (ap (λ (tb : Table F). tb.row_at k) (sym before) ∙ e)
      | inr applied ↦ v.settled_placed k row (ap (λ (tb : Table F). tb.row_at k) (sym applied) ∙ e)
    ];
    settled_placed = v.settled_placed;
    from_start = v.from_start;
    checked_received = v.checked_received;
    within = v.within;
    outside = λ k out. let (same, free) = v.outside k out in (same, λ f. untouched k (free f));
    checked = v.checked;
    received = λ k lo hi. let (free, found) = v.received k lo hi in (untouched k free, found);
    ahead = λ k lo inside. untouched k (v.ahead k lo inside);
    buffered = v.buffered;
    distinct = v.distinct;
  }

  pub Inv-moved :
      (a : RowRangeApplier F client) (p q : ℕ) (t : Table F)
      → p ≡ q
      → Inv F client task a p t
      → Inv F client task a q t
  Inv-moved a p q t e v = rw (← e) v

  apply_if_needed-Inv :
      (a : RowRangeApplier F client) (q : ℕ) (t : Table F)
      → Inv F client task a q t
      → (b : RowRangeApplier F client) × (apply_if_needed F client a ≡ some b)
        × Inv F client task b q t
        × (b.prev_key ≡ a.prev_key)
        × (b.curr_key ≡ a.curr_key)
  unfolding apply_if_needed
  apply_if_needed-Inv a q t v =
      let (rep, e, settles, untouched, same) =
        settled-apply_if F client (need_to_apply F client a.replacer) a.replacer t v.settles in
      (
        record a { replacer = rep },
        rw e refl,
        Inv-replacer a rep a.prev_key q t v settles untouched same,
        refl,
        refl,
      )

  -- The whole buffer is compared with the database, in batches, before the fuel runs out.
  check_batches-Inv :
      (batch fuel : ℕ) (a : RowRangeApplier F client) (t : Table F)
      → 1 ≤ batch
      → Inv F client task a a.prev_key t
      → 0 < a.curr_key
      → a.curr_key - a.prev_key < fuel
      → (b : RowRangeApplier F client) × (check_batches F client batch fuel a ≡ some b)
        × ((u : Table F) × Inv F client task b b.prev_key u)
        × (b.prev_key ≡ a.curr_key)
        × (b.curr_key ≡ a.curr_key)
  unfolding check_batches next_batch
  check_batches-Inv batch zero a t some_rows v pos h = absurd (omega arith)
  check_batches-Inv batch (suc fuel) a t some_rows v pos h =
      let n = a.curr_key - a.prev_key in
      let rows = take batch (scan F a.replacer.table.row_at n a.prev_key) in
      let compared = compare_rows F client rows a in
      let (u, p, w, key, short, full) =
        compare_rows-Inv F client task placed a.replacer.table.row_at a n a.prev_key batch t
          v.table_placed v (omega (arith, v.checked_received)) (λ k. refl) in
      let (b, e, i, prev, curr) = apply_if_needed-Inv compared p u w in
      elim (Bool-cases (length rows == batch)) [
        | inl many ↦
            let many' = ==→eq (length rows) batch many in
            let prev' : b.prev_key ≡ p =
              prev ∙ compare_rows-prev_key F client rows a ∙ sym (full many') in
            let above : a.prev_key < p =
              elim (last_key_present F a.replacer.table.row_at n a.prev_key batch a.prev_key
                v.table_placed) [
                  | inl (empty, _) ↦ absurd (omega arith)
                  | inr (_, _, lo) ↦ rw (full many') lo
                ] in
            let (c, e', j, prev_c, curr_c) =
              check_batches-Inv batch fuel b u some_rows (Inv-moved b p b.prev_key u (sym prev') i)
                (omega arith) (omega (arith, w.checked_received)) in
            (
              c,
              rw (retrieve_rows-scan F a.replacer.table a.prev_key a.curr_key batch pos, e, many)
                  e',
              j,
              omega arith,
              omega arith,
            )
        | inr few ↦
            let less : length rows < batch = omega (
              arith,
              length-take-le batch (scan F a.replacer.table.row_at n a.prev_key),
              ==-false (length rows) batch few,
            ) in
            let here : b.curr_key ≡ p = omega (arith, short less, v.checked_received) in
            (
              record b { prev_key = b.curr_key },
              rw (retrieve_rows-scan F a.replacer.table a.prev_key a.curr_key batch pos, e, few)
                  refl,
              (
                u,
                Inv-moved (record b { prev_key = b.curr_key }) p b.curr_key u (sym here)
                    (Inv-replacer b b.replacer b.curr_key p u i i.settles (λ k f. f) (inl refl)),
              ),
              curr ∙ key,
              curr ∙ key,
            )
      ]

  pub check_rows_to_curr_key-Inv :
      (a : RowRangeApplier F client) (t : Table F)
      → Inv F client task a a.prev_key t
      → 0 < a.curr_key
      → (b : RowRangeApplier F client) × (check_rows_to_curr_key F client a ≡ some b)
        × ((u : Table F) × Inv F client task b b.prev_key u)
        × (b.prev_key ≡ a.curr_key)
        × (b.curr_key ≡ a.curr_key)
  unfolding check_rows_to_curr_key
  check_rows_to_curr_key-Inv a t v pos =
      check_batches-Inv max_rows_to_select (suc (a.curr_key - a.prev_key)) a t (omega arith) v pos
        (omega arith)
