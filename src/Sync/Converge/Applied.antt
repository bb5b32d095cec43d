-- ===== src/Sync/Converge/Applied.antt =====
-- Applying rows brings a range into line.
use kitchen_sync.Common.{
  ℕ, ◌+◌, ◌≡◌, sym, ap, ◌∙◌, ◌⊎◌, inl, inr, ◌-◌, ◌≤◌, refl, false, ◌==◌, ==→eq, some, length, take,
  [], List, ◌∷◌, ◌++◌, All, All-middle, arith, ℕ_discrete, Bool-cases,
}
use kitchen_sync.Table.{
  RowFormat, Table, IsTable, replace_range, in_range, first_key, rows_in_range,
}
use kitchen_sync.Table.Replace.{replace_range-row_at, replace_range-inside, replace_range-outside}
use kitchen_sync.Sync.{KeyRange, BlockSizes}
use kitchen_sync.Sync.Coverage.{weight, weight_cases}
use kitchen_sync.Sync.Hashed.{IsRetrieve}
use kitchen_sync.Table.Ends.{first_key_found}
use kitchen_sync.Table.Query.{rows_in_range-scan}
use kitchen_sync.Table.Scan.{scan_present}
use kitchen_sync.Sync.Run.{apply_rows, InFlight, retrieving, State, count_flight, pending}
use kitchen_sync.Sync.Invariant.{IsFlying, Inv, count_flight_middle}

-- No row lies before the first of the source.
abbrev pub StartsAfter : (F : RowFormat) → Table F → Table F → Type 0
StartsAfter F source committed =
    (k : ℕ) (r : F.Row)
    → committed.row_at k ≡ some r
    → (1 ≤ first_key F source) × (first_key F source ≤ k)

some_taken {ℓ} : {A : Type ℓ} (xs : List A) → 1 ≤ length (take 1 xs) → 1 ≤ length xs
some_taken [] h = h
some_taken (x ∷ xs) h = omega arith

-- Then rows come for a range without a start, and the range is what they replace.
pub apply_rows-replace_range :
    (F : RowFormat) (digest : List ℕ → List ℕ) (subdivide : ℕ → ℕ → ℕ) (sizes : BlockSizes)
    (source committed target : Table F) (r : KeyRange)
    → IsTable F source
    → StartsAfter F source committed
    → IsRetrieve F committed r
    → apply_rows F digest subdivide sizes source committed target r
      ≡ replace_range F source target r.prev_key r.last_key
unfolding apply_rows
apply_rows-replace_range F digest subdivide sizes source committed target r wf_source above
      (ordered, (q, e)) =
    let (positive, before) = above r.last_key q e in
    let (row, found) = first_key_found F source wf_source positive in
    elim (Bool-cases (r.prev_key == 0)) [
      | inr n ↦ rw n refl
      | inl z ↦
          let start = ==→eq r.prev_key 0 z in
          let some_row : 1 ≤ length (rows_in_range F source r.prev_key r.last_key) =
            rw (rows_in_range-scan F source r.prev_key r.last_key (omega arith)) (
              some_taken _ (
                scan_present F source.row_at (r.last_key - r.prev_key) r.prev_key 1
                  (first_key F source) row found (omega arith) (omega arith) (omega arith))) in
          let filled : (length (rows_in_range F source r.prev_key r.last_key) == 0) ≡ false =
            ground arith in
          rw (z, filled) refl
    ]

module _ (F : RowFormat) (digest : List ℕ → List ℕ) (source original : Table F)
    (wf_source : IsTable F source) (wf : IsTable F original) where
  module _ (s : State F) (before after : List InFlight) (r : KeyRange)
      (v : Inv F digest source original s) (e : s.flight ≡ before ++ (retrieving r ∷ after)) where
    abbrev pub applied : State F
    applied = record s {
      target = replace_range F source s.target r.prev_key r.last_key;
      flight = before ++ after;
    }

    applied-pending : (k : ℕ) → pending k applied + weight r.prev_key r.last_key k ≡ pending k s
    applied-pending k =
        let whole = ap (count_flight k) e ∙ count_flight_middle k before (retrieving r) after in
        omega arith

    parts : IsRetrieve F original r × All (IsFlying F digest source original) (before ++ after)
    parts = All-middle (IsFlying F digest source original) before _ after (rw e at v.flying)

    -- What becomes of a key that the range does not cover.
    applied_outside :
        (k : ℕ)
        → weight r.prev_key r.last_key k ≡ 0
        → (applied.target.row_at k ≡ s.target.row_at k) ⊎ (k ≡ 0)
    applied_outside k w =
        replace_range-outside F source s.target r.prev_key r.last_key k parts.0.0 (ground arith)

    target_zero : s.target.row_at 0 ≡ source.row_at 0
    target_zero = elim (ℕ_discrete (pending 0 s) 0) [
      | yes z ↦ v.synced 0 z
      | no ne ↦
          v.untouched 0 (omega (arith, v.once 0)) ∙ wf.no_empty_key ∙ sym wf_source.no_empty_key
    ]

    applied_zero : applied.target.row_at 0 ≡ source.row_at 0
    applied_zero =
        rw (replace_range-row_at F source s.target r.prev_key r.last_key 0)
          (elim (Bool-cases (in_range F r.prev_key r.last_key 0)) [
            | inl t ↦ rw t
            | inr f ↦ rw f target_zero
          ])

    pub applied-Inv : Inv F digest source original applied
    applied-Inv = record {
      once = λ k. omega (arith, applied-pending k, v.once k);
      synced = λ k z. elim (weight_cases r.prev_key r.last_key k) [
        | inl w ↦ elim (applied_outside k w) [
          | inl same ↦ same ∙ v.synced k (omega (arith, applied-pending k))
          | inr zero_key ↦ rw zero_key applied_zero
        ]
        | inr (lo, hi, w) ↦ replace_range-inside F source s.target r.prev_key r.last_key k lo hi
      ];
      untouched = λ k z. elim (weight_cases r.prev_key r.last_key k) [
        | inl w ↦ elim (applied_outside k w) [
          | inl same ↦ same ∙ v.untouched k (omega (arith, applied-pending k))
          | inr zero_key ↦ rw zero_key (applied_zero ∙ wf_source.no_empty_key ∙ sym wf.no_empty_key)
        ]
        | inr (lo, hi, w) ↦ absurd (omega (arith, applied-pending k, v.once k))
      ];
      checks = v.checks;
      retrieves = v.retrieves;
      flying = parts.1;
    }
