-- ===== src/Applier/Finish.antt =====
-- The end of a response: what is behind the last row goes, and what is buffered is compared.
use kitchen_sync.Applier.Insert.{insert_remaining_rows-Inv}
use kitchen_sync.Applier.Check.{check_rows_to_curr_key-Inv}
use kitchen_sync.Replacer.Steps.{settled-delete_where, Untouched}
use kitchen_sync.Common.{
  ◌||◌, ◌∙◌, ◌>>=◌, arith, le_or_lt, refl, Bool-cases, ◌⊎◌, All, ◌≤◌, ◌<◌, ℕ, ◌≡◌, ◌≢◌, ◌==◌, none,
  some, List, [], ◌∷◌, inl, inr,
}
use kitchen_sync.Table.{in_range, RowFormat, Table}
use kitchen_sync.Table.Scan.{IsPlaced}
use kitchen_sync.Replacer.{delete_where, Client}
use kitchen_sync.Applier.{
  in_range, not, delete_range, insert_remaining_rows, check_rows_to_curr_key, delete_where, false,
  true, Bool, RowRangeApplier, received_all_source_rows,
}
use kitchen_sync.Applier.Invariant.{IsApplied, before_end, Task, Inv}

module _ (F : RowFormat) where
  All-by_key :
      (c : ℕ → Bool) (rows : List F.Row)
      → ((k : ℕ) → c k ≡ true → All (λ (r : F.Row). k ≢ F.key_of r) rows)
      → All (λ (r : F.Row). c (F.key_of r) ≡ false) rows
  All-by_key c [] h = tt
  All-by_key c (r ∷ rows) h =
      let head : c (F.key_of r) ≡ false = elim (Bool-cases (c (F.key_of r))) [
        | inl e ↦ absurd ((h (F.key_of r) e).0 refl)
        | inr e ↦ e
      ] in
      (head, All-by_key c rows (λ k e. (h k e).1))

module _ (F : RowFormat) (client : Client F) (task : Task F) (placed : IsPlaced F task.source) where
  open F use {Row, key_of}

  -- The rest of the range is dealt with, so that the task is the one up to curr_key.
  abbrev narrowed : RowRangeApplier F client → Table F → Task F
  narrowed a t = record {
    prev = task.prev;
    last = a.curr_key;
    source = task.source;
    replacer = a.replacer;
    settled_at = t.row_at;
  }

  -- DELETE WHERE on the table itself, with the statements still pending.
  abbrev deleted : (ℕ → Bool) → RowRangeApplier F client → RowRangeApplier F client
  deleted c a = record a {
    replacer = record a.replacer { table = delete_where F c a.replacer.table };
  }

  Untouched-deleted :
      (c : ℕ → Bool) (a : RowRangeApplier F client) (k : ℕ)
      → Untouched F a.replacer k
      → Untouched F (deleted c a).replacer k
  Untouched-deleted c a k free = record {
    not_deleted = free.not_deleted;
    not_inserted = free.not_inserted;
  }

  Inv-narrowed :
      (a : RowRangeApplier F client) (c : ℕ → Bool) (q : ℕ) (t : Table F)
      → Inv F client task a q t
      → 0 < a.curr_key
      → ((k : ℕ) → k ≤ a.curr_key → c k ≡ false)
      → ((k : ℕ) → c k ≡ true → before_end task.last k ≡ true)
      → Inv F client
          (narrowed (deleted c a) (delete_where F c t))
          (deleted c a)
          q
          (delete_where F c t)
  Inv-narrowed a c q t v pos before inside = record {
    settles = settled-delete_where F client c a.replacer t v.settles (
        All-by_key F c a.replacer.insert_rows
          (λ k e. (v.ahead k (behind k e) (inside k e)).not_inserted));
    table_placed = λ k r e. v.table_placed k r (kept k a.replacer.table r e);
    settled_placed = λ k r e. v.settled_placed k r (kept k t r e);
    from_start = v.from_start;
    checked_received = v.checked_received;
    within = ground arith;
    outside = λ k out. (refl, λ f. f);
    checked = λ k lo hi.
        let same : (delete_where F c t).row_at k ≡ t.row_at k =
          rw (before k (omega (arith, v.checked_received))) refl in
        elim (v.checked k lo hi) [
          | inl (gone, e) ↦ inl (gone, same ∙ e)
          | inr (absent, e) ↦ inr (same ∙ absent, e)
        ];
    received =
        λ k lo hi. let (free, found) = v.received k lo hi in (Untouched-deleted c a k free, found);
    ahead = λ k lo end. absurd (ground arith);
    buffered = v.buffered;
    distinct = v.distinct;
  }
    where
      behind : (k : ℕ) → c k ≡ true → a.curr_key < k
      behind k e = elim (le_or_lt k a.curr_key) [
        | inl le ↦ absurd (let e' = before k le in ground arith)
        | inr lt ↦ lt
      ]

      kept :
          (k : ℕ) (tb : Table F) (r : Row)
          → (delete_where F c tb).row_at k ≡ some r
          → tb.row_at k ≡ some r
      kept k tb r e = ground (arith, e)

  -- With what is behind curr_key deleted, or nothing there in the first place.
  finish :
      (a : RowRangeApplier F client) (c : ℕ → Bool) (t : Table F)
      → Inv F client task a a.prev_key t
      → 0 < a.curr_key
      → ((k : ℕ) → k ≤ a.curr_key → c k ≡ false)
      → ((k : ℕ) → c k ≡ true → before_end task.last k ≡ true)
      → ((k : ℕ)
          → a.curr_key < k
          → before_end task.last k ≡ true
          → (c k ≡ true) × (task.source k ≡ none))
      → (b : RowRangeApplier F client) × ((check_rows_to_curr_key F client (deleted c a)
            >>= insert_remaining_rows F client)
          ≡ some b)
        × IsApplied F client task b.replacer
        × (b.source_rows ≡ [])
  finish a c t v pos before inside rest =
      let task' = narrowed (deleted c a) (delete_where F c t) in
      let w = Inv-narrowed a c a.prev_key t v pos before inside in
      let (d, e, (u, i), prev, curr) =
        check_rows_to_curr_key-Inv F client task' placed (deleted c a) (delete_where F c t) w pos in
      let (b, e', (x, j), prev', curr', empty) =
        insert_remaining_rows-Inv F client task' placed d u i (omega arith) in
      (
        b,
        rw e e',
        record {
          result = x;
          settles = j.settles;
          as_source = λ k lo end. elim (le_or_lt k a.curr_key) [
            | inl le ↦ elim (j.checked k lo (omega arith)) [
              | inl (_, same) ↦ same
              | inr (absent, found) ↦ absent ∙ (rw empty at found)
            ]
            | inr behind ↦
                let (gone, none_left) = rest k behind end in
                (j.outside k (inr (ground arith))).0 ∙ rw (gone, none_left) refl
          ];
          as_before = λ k out.
              let not_here : c k ≡ false = elim out [
                | inl le ↦ before k (omega (arith, v.from_start, v.checked_received))
                | inr behind ↦ elim (Bool-cases (c k)) [
                  | inl e ↦ absurd (let end = inside k e in ground arith)
                  | inr e ↦ e
                ]
              ] in
              let out' : (k ≤ task.prev) ⊎ (before_end a.curr_key k ≡ false) = elim out [
                | inl le ↦ inl le
                | inr behind ↦ inr (let end = v.within in ground arith)
              ] in
              let (same, free) = j.outside k out' in
              let (same', free') = v.outside k out in
              (same ∙ rw not_here same', λ f. free (Untouched-deleted c a k (free' f)));
        },
        empty,
      )

  -- The rest of the range is deleted, unless the last row received is the last of the range.
  pub received_all_source_rows_lem :
      (a : RowRangeApplier F client) (t : Table F)
      → Inv F client task a a.prev_key t
      → 0 < a.curr_key
      → ((k : ℕ) → a.curr_key < k → before_end task.last k ≡ true → task.source k ≡ none)
      → (b : RowRangeApplier F client) × (received_all_source_rows F client task.last a ≡ some b)
        × IsApplied F client task b.replacer
        × (b.source_rows ≡ [])
  unfolding received_all_source_rows delete_range
  received_all_source_rows_lem a t v pos none_left =
      elim (Bool-cases (task.last == 0 || not (a.curr_key == task.last))) [
        | inl more ↦ rw more (
            finish a (in_range F a.curr_key task.last) t v pos (λ k le. ground arith)
              (λ k e. ground arith) (λ k behind end. (ground arith, none_left k behind end)))
        | inr all ↦ rw all (
            finish a (λ k. false) t v pos (λ k le. refl) (λ k e. absurd (ground arith))
              (λ k behind end. absurd (ground arith)))
      ]
