-- ===== src/Applier/Stream.antt =====
-- A response to the ROWS command, from its first row to its end.
use kitchen_sync.Table.Replace.{replace_range-row_at}
use kitchen_sync.Applier.Receive.{stream_from_input-Inv}
use kitchen_sync.Applier.Finish.{received_all_source_rows_lem}
use kitchen_sync.Replacer.Steps.{settled-apply, settled-fresh, Untouched, Settles}
use kitchen_sync.Common.{
  sym, Bool-cases, le_or_lt, if◌then◌else◌, ap, Option-cases, if_zero_pos, ℕ_discrete, ◌∙◌, ◌-◌,
  length, refl, ◌+◌, ◌≤◌, arith, ◌<◌, ℕ, ◌≡◌, none, some, [], inl, inr,
}
use kitchen_sync.Table.{in_range, replace_range, upper, rows_in_range, IsTable, RowFormat, Table}
use kitchen_sync.Table.Scan.{IsPlaced}
use kitchen_sync.Replacer.{apply, Client, RowReplacer}
use kitchen_sync.Applier.{
  false, in_range, stream_from_input, length, true, new_applier, RowRangeApplier,
}
use kitchen_sync.Applier.Invariant.{IsApplied, before_end, Task, Inv}

module _ (F : RowFormat) (client : Client F) (source : Table F) (wf_source : IsTable F source)
    (prev last : ℕ) where
  abbrev pub range_task : RowReplacer F → Table F → Task F
  range_task rep t = record {
    prev = prev;
    last = last;
    source = source.row_at;
    replacer = rep;
    settled_at = t.row_at;
  }

  -- The pending statements come to the table `t`, and none of them is about the range.
  pub record IsReady (rep : RowReplacer F) (t : Table F) : Type 0 where
    pub settles : Settles F client rep t
    pub table_placed : IsPlaced F rep.table.row_at
    pub settled_placed : IsPlaced F t.row_at
    pub untouched : (k : ℕ) → prev < k → before_end last k ≡ true → Untouched F rep k

  Inv-new_applier :
      (rep : RowReplacer F) (t : Table F)
      → IsReady rep t
      → before_end last prev ≡ true
      → Inv F client (range_task rep t) (new_applier F client rep prev) prev t
  unfolding new_applier
  Inv-new_applier rep t ready start = record {
    settles = ready.settles;
    table_placed = ready.table_placed;
    settled_placed = ready.settled_placed;
    from_start = omega arith;
    checked_received = omega arith;
    within = start;
    outside = λ k out. (refl, λ f. f);
    checked = λ k lo hi. absurd (omega arith);
    received = λ k lo hi. absurd (omega arith);
    ahead = ready.untouched;
    buffered = λ k row e. absurd (ground arith);
    distinct = tt;
  }

  -- The source's rows of a range are streamed to a replacer whose pending statements are not about the
  -- range. If the range starts at a key or holds a row of the source, then no INSERT fails, and when the
  -- statements are applied the target has the source's rows in the range and its own outside it;
  -- statements that are not about a key outside stay so.
  pub stream_from_input-IsApplied :
      (rep : RowReplacer F) (t : Table F)
      → IsReady rep t
      → before_end last prev ≡ true
      → 1 ≤ prev + length (rows_in_range F source prev last)
      → (b : RowRangeApplier F client) × (stream_from_input F client last
            (rows_in_range F source prev last)
            (new_applier F client rep prev)
          ≡ some b)
        × IsApplied F client (range_task rep t) b.replacer
        × (b.source_rows ≡ [])
  unfolding rows_in_range new_applier
  stream_from_input-IsApplied rep t ready start some_key =
      let task = range_task rep t in
      let n = upper F source last - prev in
      let placed = wf_source.placed in
      let (b, e, (u, v), more, none_left) =
        stream_from_input-Inv F client task placed (new_applier F client rep prev) t last n prev
          (Inv-new_applier rep t ready start) (omega arith) (λ k lo hi. absurd (omega arith))
          (λ k le. ground arith) in
      let behind : (k : ℕ) → b.curr_key < k → before_end last k ≡ true → source.row_at k ≡ none =
        λ k lo end. elim (Option-cases (source.row_at k)) [
          | inl absent ↦ absent
          | inr (r, present) ↦
              let small = wf_source.within k r present in none_left k lo (in_upper k small end)
        ] in
      let (c, e', applied, empty) =
        received_all_source_rows_lem F client task placed b u v (omega arith) behind in
      (c, e ∙ e', applied, empty)
    where
      in_upper :
          (k : ℕ)
          → k ≤ source.bound
          → before_end last k ≡ true
          → k ≤ prev + (upper F source last - prev)
      in_upper k small end = elim (ℕ_discrete last 0) [
        | yes e ↦ rw e (omega arith)
        | no ne ↦ rw (if_zero_pos last source.bound (omega arith)) (ground (arith, end, ne))
      ]

  as_replaced :
      (rep : RowReplacer F) (target : Table F)
      → IsTable F target
      → (rep' : RowReplacer F) (applied : IsApplied F client (range_task rep target) rep') (k : ℕ)
      → applied.result.row_at k
        ≡ (if in_range F prev last k then source.row_at k else target.row_at k)
  as_replaced rep target wf_target rep' applied k = elim (le_or_lt k prev) [
    | inl le ↦ (applied.as_before k (inl le)).0 ∙ elim (Bool-cases (in_range F prev last k)) [
      | inl e ↦
          let first : k ≡ 0 = ground arith in
          rw (e, first) (wf_target.no_empty_key ∙ sym wf_source.no_empty_key)
      | inr e ↦ rw e refl
    ]
    | inr lt ↦ elim (Bool-cases (before_end last k)) [
      | inl e ↦
          let here : in_range F prev last k ≡ true = ground arith in
          rw here (applied.as_source k lt e)
      | inr e ↦
          let not_here : in_range F prev last k ≡ false = ground arith in
          rw not_here (applied.as_before k (inr e)).0
    ]
  ]

  -- The same for a replacer without pending statements, applied at the end: the target becomes what
  -- `replace_range` says, which the steps of a table's synchronisation take for the response.
  pub stream_from_input-replace_range :
      (target : Table F) (changes : ℕ)
      → IsTable F target
      → before_end last prev ≡ true
      → 1 ≤ prev + length (rows_in_range F source prev last)
      → let fresh : RowReplacer F = record {
        table = target;
        delete_keys = [];
        insert_rows = [];
        rows_changed = changes;
      } in
        (b : RowRangeApplier F client) × (rep : RowReplacer F) × (stream_from_input F client last
            (rows_in_range F source prev last)
            (new_applier F client fresh prev)
          ≡ some b)
        × (apply F client b.replacer ≡ some rep)
        × ((k : ℕ) → rep.table.row_at k ≡ (replace_range F source target prev last).row_at k)
  stream_from_input-replace_range target changes wf_target start some_key =
      let fresh : RowReplacer F = record {
        table = target;
        delete_keys = [];
        insert_rows = [];
        rows_changed = changes;
      } in
      let ready : IsReady fresh target = record {
        settles = settled-fresh F client target changes;
        table_placed = wf_target.placed;
        settled_placed = wf_target.placed;
        untouched = λ k lo end. record { not_deleted = tt; not_inserted = tt };
      } in
      let (b, e, applied, _) = stream_from_input-IsApplied fresh target ready start some_key in
      let (rep, e', same) = settled-apply F client b.replacer applied.result applied.settles in
      (
        b,
        rep,
        e,
        e',
        λ k. rw (replace_range-row_at F source target prev last k) (
            ap (λ (tb : Table F). tb.row_at k) same
            ∙ as_replaced fresh target wf_target b.replacer applied k),
      )
