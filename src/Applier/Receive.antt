-- ===== src/Applier/Receive.antt =====
-- The source's rows as they come in, buffered or compared at once.
use kitchen_sync.Applier.Insert.{insert_remaining_rows-Inv}
use kitchen_sync.Applier.Check.{Inv-moved, check_rows_to_curr_key-Inv}
use kitchen_sync.Applier.Buffer.{AreDistinct-put_row, find_row-erase_row}
use kitchen_sync.Common.{
  ==_refl, ℕ_discrete, sym, le_or_lt, ◌∙◌, length, Option-cases, arith, ◌+◌, ltb, refl, Bool-cases,
  ◌≤◌, ◌<◌, ℕ, zero, suc, ◌≡◌, ◌≢◌, none, some, inl, inr,
}
use kitchen_sync.Table.{scan, RowFormat, Table}
use kitchen_sync.Table.Scan.{scan_step_some, scan_step_none, IsPlaced}
use kitchen_sync.Replacer.{Client}
use kitchen_sync.Applier.{
  length, received_all_source_rows, max_bytes_to_buffer, ltb, true, put_row, stream_from_input,
  buffer_row, RowRangeApplier, find_row, received_source_row,
}
use kitchen_sync.Applier.Invariant.{before_end, Task, Inv}

module _ (F : RowFormat) (client : Client F) (task : Task F) (placed : IsPlaced F task.source) where
  open F use {Row, key_of}

  -- The next row of the source after curr_key.
  pub record IsNext (a : RowRangeApplier F client) (row : Row) : Type 0 where
    pub above : a.curr_key < key_of row
    pub in_source : task.source (key_of row) ≡ some row
    pub gap : (k : ℕ) → a.curr_key < k → k < key_of row → task.source k ≡ none
    pub inside : before_end task.last (key_of row) ≡ true

  before_end-le : (last j k : ℕ) → before_end last j ≡ true → k ≤ j → before_end last k ≡ true
  before_end-le last j k e h = ground arith

  Inv-buffer_row :
      (a : RowRangeApplier F client) (q : ℕ) (t : Table F) (row : Row)
      → Inv F client task a q t
      → IsNext a row
      → Inv F client task (buffer_row F client row a) q t
  unfolding buffer_row
  Inv-buffer_row a q t row v next = record {
    settles = v.settles;
    table_placed = v.table_placed;
    settled_placed = v.settled_placed;
    from_start = v.from_start;
    checked_received = omega (arith, v.checked_received, next.above);
    within = next.inside;
    outside = v.outside;
    checked = λ k lo hi.
        let ne : k ≢ key_of row = λ e. omega (arith, v.checked_received, next.above) in
        elim (v.checked k lo hi) [
          | inl (gone, e) ↦ inl (put_other k ne ∙ gone, e)
          | inr (absent, e) ↦ inr (absent, put_other k ne ∙ e)
        ];
    received = λ k lo hi. elim (le_or_lt k a.curr_key) [
      | inl before ↦
          let (free, found) = v.received k lo before in
          let ne : k ≢ key_of row = λ e. omega (arith, next.above) in (free, put_other k ne ∙ found)
      | inr behind ↦ (
        v.ahead k behind (before_end-le task.last (key_of row) k next.inside hi),
        elim (ℕ_discrete k (key_of row)) [
          | yes e ↦ rw e (rw (==_refl (key_of row)) (sym next.in_source))
          | no ne ↦ put_other k ne ∙ no_row k behind ∙ sym (next.gap k behind (omega arith))
        ],
      )
    ];
    ahead = λ k lo inside. v.ahead k (omega (arith, next.above)) inside;
    buffered = λ k r e. elim (ℕ_discrete k (key_of row)) [
      | yes same ↦ (omega (arith, v.from_start, v.checked_received, next.above), omega arith)
      | no ne ↦
          let (lo, hi) = v.buffered k r (sym (put_other k ne) ∙ e) in
          (lo, omega (arith, next.above))
    ];
    distinct = AreDistinct-put_row (key_of row) row a.source_rows v.distinct;
  }
    where
      put_other :
          (k : ℕ)
          → k ≢ key_of row
          → find_row k (put_row (key_of row) row a.source_rows) ≡ find_row k a.source_rows
      put_other k ne = ground (arith, ne, find_row-erase_row k (key_of row) a.source_rows)

      no_row : (k : ℕ) → a.curr_key < k → find_row k a.source_rows ≡ none
      no_row k behind = elim (Option-cases (find_row k a.source_rows)) [
        | inl e ↦ e
        | inr (r, e) ↦ let (_, hi) = v.buffered k r e in absurd (omega arith)
      ]

  buffer_row-fields :
      (row : Row) (a : RowRangeApplier F client)
      → ((buffer_row F client row a).prev_key ≡ a.prev_key)
        × ((buffer_row F client row a).curr_key ≡ key_of row)
  unfolding buffer_row
  buffer_row-fields row a = (refl, refl)

  -- Whether or not the buffer is full, what is received holds, with the row as the last one.
  pub received_source_row-Inv :
      (a : RowRangeApplier F client) (t : Table F) (row : Row)
      → Inv F client task a a.prev_key t
      → IsNext a row
      → (b : RowRangeApplier F client) × (received_source_row F client row a ≡ some b)
        × ((u : Table F) × Inv F client task b b.prev_key u)
        × (b.curr_key ≡ key_of row)
  unfolding received_source_row
  received_source_row-Inv a t row v next =
      let buffered = buffer_row F client row a in
      let (prev, curr) = buffer_row-fields row a in
      let i = Inv-buffer_row a a.prev_key t row v next in
      elim (Bool-cases (ltb max_bytes_to_buffer buffered.approx_buffered_bytes)) [
        | inl many ↦
            let (b, e, (u, j), prev_b, curr_b) =
              check_rows_to_curr_key-Inv F client task placed buffered t
                (Inv-moved F client task placed buffered a.prev_key buffered.prev_key t (sym prev)
                  i)
                (omega (arith, next.above)) in
            let (c, e', w, prev_c, curr_c, _) =
              insert_remaining_rows-Inv F client task placed b u j (omega arith) in
            (c, rw (many, e) e', w, omega arith)
        | inr few ↦ (
          buffered,
          rw few refl,
          (t, Inv-moved F client task placed buffered a.prev_key buffered.prev_key t (sym prev) i),
          curr,
        )
      ]

  -- The rows at the `n` positions after `p` are received; what is left is to handle the end.
  pub stream_from_input-Inv :
      (a : RowRangeApplier F client) (t : Table F) (last_key n p : ℕ)
      → Inv F client task a a.prev_key t
      → a.curr_key ≤ p
      → ((k : ℕ) → a.curr_key < k → k ≤ p → task.source k ≡ none)
      → ((k : ℕ) → k ≤ p + n → before_end task.last k ≡ true)
      → (b : RowRangeApplier F client) × (stream_from_input F client last_key
            (scan F task.source n p)
            a
          ≡ received_all_source_rows F client last_key b)
        × ((u : Table F) × Inv F client task b b.prev_key u)
        × (a.curr_key + length (scan F task.source n p) ≤ b.curr_key)
        × ((k : ℕ) → b.curr_key < k → k ≤ p + n → task.source k ≡ none)
  unfolding stream_from_input
  stream_from_input-Inv a t last_key zero p v before gap inside =
      unfold scan in (a, refl, (t, v), omega arith, λ k lo hi. gap k lo (omega arith))
  stream_from_input-Inv a t last_key (suc n) p v before gap inside =
      elim (Option-cases (task.source (suc p))) [
        | inl e ↦ rw (scan_step_none F task.source n p e) (
            let gap' : (k : ℕ) → a.curr_key < k → k ≤ suc p → task.source k ≡ none = λ k lo hi.
              elim (ℕ_discrete k (suc p)) [
                | yes same ↦ rw same e
                | no ne ↦ gap k lo (omega arith)
              ] in
            let (b, eq, w, more, none_left) =
              stream_from_input-Inv a t last_key n (suc p) v (omega arith) gap'
                (λ k h. inside k (omega arith)) in
            (b, eq, w, more, λ k lo hi. none_left k lo (omega arith)))
        | inr (row, e) ↦ rw (scan_step_some F task.source n p e) (
            let place = placed (suc p) row e in
            let next : IsNext a row = record {
              above = omega arith;
              in_source = rw place e;
              gap = λ k lo hi. gap k lo (omega arith);
              inside = inside (key_of row) (omega arith);
            } in
            let (c, first, (u, w), curr) = received_source_row-Inv a t row v next in
            let (b, eq, x, more, none_left) =
              stream_from_input-Inv c u last_key n (suc p) w (omega arith)
                (λ k lo hi. absurd (omega arith)) (λ k h. inside k (omega arith)) in
            (b, rw first eq, x, omega (arith, next.above), λ k lo hi. none_left k lo (omega arith)))
      ]
