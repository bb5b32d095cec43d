-- ===== src/Sync/Range/Start.antt =====
-- The state in which the writer enters its loop.
use kitchen_sync.Common.{
  ℕ, ◌+◌, ◌≤◌, ◌<◌, ◌≡◌, refl, sym, ◌∙◌, ◌⊎◌, inl, inr, not, none, List, [], All, arith, ◌==◌,
  if◌then◌else◌, Bool-cases, Option-cases, ==→eq, le_or_lt,
}
use kitchen_sync.Table.{RowFormat, Table, IsTable, IsPresent, first_key, last_key, replace_range}
use kitchen_sync.Table.Query.{first_key_not_earlier_than_bounds}
use kitchen_sync.Table.Replace.{replace_range-inside, replace_range-outside, replace_range-IsTable}
use kitchen_sync.Table.Ends.{first_key_lem, last_key_lem, last_key_greatest}
use kitchen_sync.Sync.{TableJob}
use kitchen_sync.Sync.Coverage.{weight, weight_cases, count_job}
use kitchen_sync.Sync.Hashed.{IsCheck}
use kitchen_sync.Sync.Range.{
  delete_all, delete_outside, initial_midpoint, queue_initial_ranges,
  request_rows_without_pipelining, handle_range_command, handle_range_response, start_sync_table,
}
use kitchen_sync.Sync.Run.{pending}
use kitchen_sync.Sync.Converge.Applied.{StartsAfter}
use kitchen_sync.Sync.Invariant.{Inv}
use kitchen_sync.Sync.Range.Initial.{
  initial_ranges-covers, initial_ranges-IsCheck, delete_outside_kept, delete_outside-IsTable,
}

module _ (F : RowFormat) (source target : Table F) (wf_source : IsTable F source)
    (wf : IsTable F target) where
  abbrev their_last : ℕ
  their_last = last_key F source

  abbrev cleared : Table F
  cleared = delete_outside F (first_key F source) their_last target

  abbrev our_last : ℕ
  our_last = last_key F cleared

  abbrev extended : Table F
  extended =
      if not (our_last == their_last)
      then replace_range F source cleared our_last their_last
      else cleared

  wf_cleared : IsTable F cleared
  wf_cleared = delete_outside-IsTable F (first_key F source) their_last target wf

  our_last-le : our_last ≤ their_last
  our_last-le = elim (last_key_lem F cleared wf_cleared) [
    | inl (z, _) ↦ omega arith
    | inr (_, (r, e)) ↦
        (delete_outside_kept F (first_key F source) their_last target our_last r e).0
  ]

  extended-IsTable : IsTable F extended
  extended-IsTable = elim (Bool-cases (our_last == their_last)) [
    | inl same ↦ rw same wf_cleared
    | inr other ↦
        rw other (replace_range-IsTable F source cleared our_last their_last wf_source wf_cleared)
  ]

  extended_low : (k : ℕ) → k ≤ our_last → extended.row_at k ≡ cleared.row_at k
  extended_low k h = elim (Bool-cases (our_last == their_last)) [
    | inl same ↦ rw same
    | inr other ↦
        let bound = our_last-le in
        rw other
          (elim (replace_range-outside F source cleared our_last their_last k (ground arith)
            (inl h)) [
              | inl e ↦ e
              | inr z ↦ rw z (
                  (replace_range-IsTable F source cleared our_last their_last wf_source
                    wf_cleared).no_empty_key
                  ∙ sym wf_cleared.no_empty_key)
            ])
  ]

  cleared_low :
      StartsAfter F source target → (k : ℕ) → k ≤ their_last → cleared.row_at k ≡ target.row_at k
  unfolding delete_outside
  cleared_low above k h = elim (Option-cases (target.row_at k)) [
    | inl e ↦ ground arith
    | inr (r, e) ↦ let (_, lo) = above k r e in ground arith
  ]

  our_last_kept : 1 ≤ our_last → IsPresent F extended our_last
  our_last_kept some_row = elim (last_key_lem F cleared wf_cleared) [
    | inl (z, _) ↦ absurd (omega arith)
    | inr (_, (r, e)) ↦ (r, extended_low our_last (omega arith) ∙ e)
  ]

  none_above : (t : Table F) (k : ℕ) → IsTable F t → last_key F t < k → t.row_at k ≡ none
  none_above t k w h = elim (Option-cases (t.row_at k)) [
    | inl e ↦ e
    | inr (r, e) ↦ absurd (omega (arith, last_key_greatest F t w k r e))
  ]

  extended_high : (k : ℕ) → our_last < k → extended.row_at k ≡ source.row_at k
  extended_high k h = elim (Bool-cases (our_last == their_last)) [
    | inl same ↦
        let e = ==→eq our_last their_last same in
        rw same
          (none_above cleared k wf_cleared h ∙ sym (none_above source k wf_source (omega arith)))
    | inr other ↦ rw other (elim (le_or_lt k their_last) [
      | inl inside ↦ replace_range-inside F source cleared our_last their_last k h inside
      | inr above ↦
          let bound = our_last-le in
          elim (replace_range-outside F source cleared our_last their_last k (ground arith)
            (inr above)) [
              | inl e ↦
                  e ∙ none_above cleared k wf_cleared h ∙ sym (none_above source k wf_source above)
              | inr z ↦ absurd (omega arith)
            ]
    ])
  ]

  module _ (digest : List ℕ → List ℕ) (subdivide : ℕ → ℕ → ℕ) (job : TableJob) where
    abbrev mid : ℕ
    mid = initial_midpoint F subdivide cleared job our_last (first_key F source) their_last

    mid_bounds : 1 ≤ our_last → (mid ≤ our_last) × ((mid ≡ 0) ⊎ IsPresent F extended mid)
    unfolding initial_midpoint
    mid_bounds some_row = elim (Bool-cases job.subdividable) [
      | inr n ↦ rw n (omega arith, inl refl)
      | inl y ↦ rw y (
          let (_, hi, found) =
            first_key_not_earlier_than_bounds F cleared (subdivide (first_key F source) their_last)
              0 our_last wf_cleared some_row in
          (hi, elim found [ inl z ↦ inl z | inr (r, e) ↦ inr (r, extended_low _ hi ∙ e) ]))
    ]

    -- With at least one row of ours left, and with none.
    abbrev queued : TableJob
    queued =
        if not (our_last == 0)
        then queue_initial_ranges F subdivide cleared job our_last (first_key F source) their_last
        else job

    module _ (idle : (job.ranges_to_check ≡ []) × (job.ranges_to_retrieve ≡ [])) where
      queued-covers : (k : ℕ) → count_job k queued ≡ weight 0 our_last k
      unfolding queue_initial_ranges
      queued-covers k = elim (Bool-cases (our_last == 0)) [
        | inl z ↦ let zero_key = ==→eq our_last 0 z in rw (z, idle.0, idle.1) (ground arith)
        | inr nz ↦ rw nz (
            simp (idle.0, idle.1)
              (omega (arith, initial_ranges-covers F mid our_last k (mid_bounds (ground arith)).0)))
      ]

      queued-IsCheck : All (IsCheck F extended) queued.ranges_to_check
      unfolding queue_initial_ranges
      queued-IsCheck = elim (Bool-cases (our_last == 0)) [
        | inl z ↦ rw (z, idle.0) tt
        | inr nz ↦
            let (hi, found) = mid_bounds (ground arith) in
            rw nz (
              simp idle.0 (
                initial_ranges-IsCheck F extended mid our_last extended-IsTable hi
                  (our_last_kept (ground arith)) found))
      ]

      queued_retrieves : queued.ranges_to_retrieve ≡ []
      unfolding queue_initial_ranges
      queued_retrieves = elim (Bool-cases (our_last == 0)) [
        | inl z ↦ rw (z, idle.1)
        | inr nz ↦ rw (nz, idle.1)
      ]

      -- The loop is entered with the invariant, whichever rows were requested first.
      entered-Inv :
          (commands : ℕ)
          → Inv F digest source extended (record {
            job = record queued { rows_commands = commands };
            flight = [];
            target = extended;
          })
      entered-Inv commands = record {
        once = λ k. omega (arith, queued-covers k, weight_cases 0 our_last k);
        synced = λ k z. elim (le_or_lt k our_last) [
          | inr above ↦ extended_high k above
          | inl below ↦
              let covers = queued-covers k in
              let at_zero : k ≡ 0 = ground arith in
              rw at_zero (extended-IsTable.no_empty_key ∙ sym wf_source.no_empty_key)
        ];
        untouched = λ k z. refl;
        checks = queued-IsCheck;
        retrieves = rw queued_retrieves tt;
        flying = tt;
      }

      deleted-Inv :
          first_key F source ≡ 0
          → Inv F digest source
              (delete_all F target)
              (record { job = job; flight = []; target = delete_all F target })
      unfolding delete_all
      deleted-Inv z = record {
        once = λ k. rw (idle.0, idle.1) (omega arith);
        synced = λ k e. elim (first_key_lem F source wf_source) [
          | inl (_, nothing) ↦ sym (nothing k)
          | inr (positive, _) ↦ absurd (omega arith)
        ];
        untouched = λ k e. refl;
        checks = rw idle.0 tt;
        retrieves = rw idle.1 tt;
        flying = tt;
      }

      -- For two well-formed tables and a job with empty queues, the state that the writer starts from
      -- satisfies the invariant: each key is in one queued range at most, and a key in none holds in the
      -- target what it holds in the source.
      pub start_sync_table-Inv :
          Inv F digest source
            (start_sync_table F subdivide source job target).target
            (start_sync_table F subdivide source job target)
      unfolding start_sync_table handle_range_response handle_range_command
          request_rows_without_pipelining
      start_sync_table-Inv = elim (Bool-cases (first_key F source == 0)) [
        | inl z ↦ rw z (deleted-Inv (==→eq (first_key F source) 0 z))
        | inr nz ↦ elim (Bool-cases (our_last == their_last)) [
          | inl same ↦ rw (nz, same) (rw same at (entered-Inv queued.rows_commands))
          | inr other ↦ rw (nz, other) (rw other at (entered-Inv (queued.rows_commands + 1)))
        ]
      ]

      pub start_sync_table-IsTable :
          IsTable F (start_sync_table F subdivide source job target).target
      unfolding start_sync_table handle_range_response handle_range_command
          request_rows_without_pipelining delete_all
      start_sync_table-IsTable = elim (Bool-cases (first_key F source == 0)) [
        | inl z ↦ rw z (record { placed = λ k r e. cc; within = λ k r e. cc; no_empty_key = refl })
        | inr nz ↦ elim (Bool-cases (our_last == their_last)) [
          | inl same ↦ rw (nz, same) (rw same at extended-IsTable)
          | inr other ↦ rw (nz, other) (rw other at extended-IsTable)
        ]
      ]

      entered_seen :
          StartsAfter F source target
          → (k : ℕ) → count_job k queued ≡ 1
          → target.row_at k ≡ extended.row_at k
      entered_seen above k z =
          let inside = weight_cases 0 our_last k in
          let within : k ≤ our_last = omega (arith, queued-covers k, inside) in
          sym (cleared_low above k (omega (arith, our_last-le))) ∙ sym (extended_low k within)

      -- If the target has no row before the source's first, its committed rows are those that the writer
      -- has in the ranges that it queues.
      pub start_sync_table-seen :
          StartsAfter F source target
          → (k : ℕ) → pending k (start_sync_table F subdivide source job target) ≡ 1
          → target.row_at k ≡ (start_sync_table F subdivide source job target).target.row_at k
      unfolding start_sync_table handle_range_response handle_range_command
          request_rows_without_pipelining
      start_sync_table-seen above = elim (Bool-cases (first_key F source == 0)) [
        | inl z ↦ rw z (λ k e. absurd (let none_left = rw (idle.0, idle.1) at e in omega arith))
        | inr nz ↦ elim (Bool-cases (our_last == their_last)) [
          | inl same ↦ rw (nz, same) (λ k e. rw same at (entered_seen above k (omega arith)))
          | inr other ↦ rw (nz, other) (λ k e. rw other at (entered_seen above k (omega arith)))
        ]
      ]
