-- ===== src/Applier/Invariant.antt =====
-- What holds while a range is compared: up to where the rows are settled, and up to where they are buffered.
use kitchen_sync.Table.Scan.{IsPlaced}
use kitchen_sync.Common.{
  inl, ap, sym, leb, ◌||◌, inr, ℕ_discrete, ◌∙◌, arith, ◌≤◌, ◌<◌, ◌⊎◌, ℕ, ◌≡◌, ◌≢◌, ◌==◌, Option,
  none, some,
}
use kitchen_sync.Table.{RowFormat, Table}
use kitchen_sync.Replacer.{Client, RowReplacer}
use kitchen_sync.Replacer.Steps.{settled-row_at, Untouched, Settles}
use kitchen_sync.Applier.{suc, false, true, Bool, RowRangeApplier, find_row}
use kitchen_sync.Applier.Buffer.{AreDistinct}

-- The key is not behind the end of the range; an empty key ends no range.
abbrev pub before_end : ℕ → ℕ → Bool
before_end last_key key = last_key == 0 || leb key last_key

-- The range from `prev` to `last`, the source's rows, and the table and its pending statements at the start.
pub record Task (F : RowFormat) : Type 0 where
  pub prev : ℕ
  pub last : ℕ
  pub source : ℕ → Option F.Row
  pub replacer : RowReplacer F
  pub settled_at : ℕ → Option F.Row

module _ (F : RowFormat) (client : Client F) (task : Task F) where
  open F use {Row, key_of}

  -- The row is settled as the source has it, or it is to be inserted where no row is left.
  abbrev pub IsChecked : RowRangeApplier F client → Table F → ℕ → Type 0
  IsChecked a t k =
      ((find_row k a.source_rows ≡ none) × (t.row_at k ≡ task.source k))
      ⊎ ((t.row_at k ≡ none) × (find_row k a.source_rows ≡ task.source k))

  -- The rows up to `q` are checked and those up to curr_key received; `t` is the table with the pending
  -- statements applied.
  pub record Inv (a : RowRangeApplier F client) (q : ℕ) (t : Table F) : Type 0 where
    pub settles : Settles F client a.replacer t
    pub table_placed : IsPlaced F a.replacer.table.row_at
    pub settled_placed : IsPlaced F t.row_at
    pub from_start : task.prev ≤ q
    pub checked_received : q ≤ a.curr_key
    pub within : before_end task.last a.curr_key ≡ true
    pub outside :
        (k : ℕ)
        → (k ≤ task.prev) ⊎ (before_end task.last k ≡ false)
        → (t.row_at k ≡ task.settled_at k)
          × (Untouched F task.replacer k → Untouched F a.replacer k)
    pub checked : (k : ℕ) → task.prev < k → k ≤ q → IsChecked a t k
    pub received :
        (k : ℕ)
        → q < k
        → k ≤ a.curr_key
        → Untouched F a.replacer k × (find_row k a.source_rows ≡ task.source k)
    pub ahead : (k : ℕ) → a.curr_key < k → before_end task.last k ≡ true → Untouched F a.replacer k
    pub buffered :
        (k : ℕ) (row : Row)
        → find_row k a.source_rows ≡ some row
        → (task.prev < k) × (k ≤ a.curr_key)
    pub distinct : AreDistinct a.source_rows

  -- What is asked of the replacer in the end.
  pub record IsApplied (rep : RowReplacer F) : Type 0 where
    pub result : Table F
    pub settles : Settles F client rep result
    pub as_source :
        (k : ℕ) → task.prev < k → before_end task.last k ≡ true → result.row_at k ≡ task.source k
    pub as_before :
        (k : ℕ)
        → (k ≤ task.prev) ⊎ (before_end task.last k ≡ false)
        → (result.row_at k ≡ task.settled_at k) × (Untouched F task.replacer k → Untouched F rep k)

  -- A key of the range up to curr_key, and one outside the range.
  pub apart :
      (a : RowRangeApplier F client) (q : ℕ) (t : Table F) (k j : ℕ)
      → Inv a q t
      → task.prev < j
      → j ≤ a.curr_key
      → (k ≤ task.prev) ⊎ (before_end task.last k ≡ false)
      → k ≢ j
  apart a q t k j v lo hi out same = ground (arith, v.within)

  pub Inv-absent :
      (a : RowRangeApplier F client) (q : ℕ) (t : Table F)
      → Inv a q t
      → q < a.curr_key
      → a.replacer.table.row_at (suc q) ≡ none
      → Inv a (suc q) t
  Inv-absent a q t v h absent = record {
    settles = v.settles;
    table_placed = v.table_placed;
    settled_placed = v.settled_placed;
    from_start = omega (arith, v.from_start);
    checked_received = h;
    within = v.within;
    outside = v.outside;
    checked = λ k lo hi. elim (ℕ_discrete k (suc q)) [
      | yes e ↦
          let (free, found) = v.received (suc q) (omega arith) h in
          rw e (inr (settled-row_at F client a.replacer t (suc q) v.settles free ∙ absent, found))
      | no ne ↦ v.checked k lo (omega arith)
    ];
    received = λ k lo hi. v.received k (omega arith) hi;
    ahead = v.ahead;
    buffered = v.buffered;
    distinct = v.distinct;
  }

  -- What one comparison changes: one key, its pending statements and its buffered row.
  pub Inv-compared :
      (a b : RowRangeApplier F client) (q : ℕ) (t u : Table F)
      → IsPlaced F task.source
      → Inv a q t
      → q < a.curr_key
      → b.replacer.table ≡ a.replacer.table
      → b.curr_key ≡ a.curr_key
      → Settles F client b.replacer u
      → ((k : ℕ) → k ≢ suc q → Untouched F a.replacer k → Untouched F b.replacer k)
      → ((k : ℕ) → k ≢ suc q → u.row_at k ≡ t.row_at k)
      → ((k : ℕ) → k ≢ suc q → find_row k b.source_rows ≡ find_row k a.source_rows)
      → IsChecked b u (suc q)
      → find_row (suc q) b.source_rows ≡ none
      → AreDistinct b.source_rows
      → Inv b (suc q) u
  Inv-compared a b q t u placed v h same_table same_key settles untouched same_rows same_buffer done
        gone distinct =
      record {
        settles = settles;
        table_placed = λ k row e.
            v.table_placed k row (sym (ap (λ (tb : Table F). tb.row_at k) same_table) ∙ e);
        settled_placed = λ k row e. elim (ℕ_discrete k (suc q)) [
          | yes same ↦ elim done [
            | inl (_, found) ↦ placed k row (rw same (sym found) ∙ e)
            | inr (absent, _) ↦
                absurd (let e' : u.row_at (suc q) ≡ some row = rw (← same) e in ground arith)
          ]
          | no ne ↦ v.settled_placed k row (sym (same_rows k ne) ∙ e)
        ];
        from_start = omega (arith, v.from_start);
        checked_received = omega arith;
        within = rw same_key v.within;
        outside = λ k out.
            let ne = apart a q t k (suc q) v (omega (arith, v.from_start)) h out in
            let (same, free) = v.outside k out in
            (same_rows k ne ∙ same, λ f. untouched k ne (free f));
        checked = λ k lo hi. elim (ℕ_discrete k (suc q)) [
          | yes e ↦ rw e done
          | no ne ↦ rw (same_rows k ne, same_buffer k ne) (v.checked k lo (omega arith))
        ];
        received = λ k lo hi.
            let ne : k ≢ suc q = λ e. omega arith in
            let (free, found) = v.received k (omega arith) (omega arith) in
            (untouched k ne free, same_buffer k ne ∙ found);
        ahead = λ k lo inside.
            let ne : k ≢ suc q = λ e. omega arith in
            untouched k ne (v.ahead k (omega arith) inside);
        buffered = λ k row e. elim (ℕ_discrete k (suc q)) [
          | yes same ↦ absurd (ground arith)
          | no ne ↦
              let (lo, hi) = v.buffered k row (rw (same_buffer k ne) at e) in (lo, omega arith)
        ];
        distinct = distinct;
      }
