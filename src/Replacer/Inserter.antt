-- ===== src/Replacer/Inserter.antt =====
-- Rows inserted without comparing (RowInserter of src/row_range_applier.h).
use kitchen_sync.Common.{
  refl, ==_refl, ltb, ℕ_discrete, sym, ◌∙◌, Option-cases, arith, ◌≤◌, ◌<◌, ℕ, zero, suc, ◌+◌, ◌≡◌,
  ◌≢◌, ◌⊎◌, Option, none, some, inl, inr,
}
use kitchen_sync.Table.{RowFormat, Table, scan}
use kitchen_sync.Table.Scan.{scan_step_some, scan_step_none, IsPlaced}
use kitchen_sync.Replacer.{
  insert_size, max_sensible_insert_statement_size, set_row, insert_row, Client, RowReplacer,
  insert_stream,
}
use kitchen_sync.Replacer.Steps.{settled-apply_if, settled-insert_row, Settles}

module _ (F : RowFormat) (client : Client F) (f : ℕ → Option F.Row) (placed : IsPlaced F f) where
  -- The source's rows at the `n` positions after `p` are inserted where the target has none. Then no
  -- INSERT fails, however often the statements are applied in between, and when the rest is applied
  -- these positions hold the source's rows and the others what they held.
  pub insert_stream_lem :
      (n p : ℕ) (rep : RowReplacer F) (t : Table F)
      → Settles F client rep t
      → ((k : ℕ) → p < k → k ≤ p + n → t.row_at k ≡ none)
      → (rep' : RowReplacer F) × (u : Table F) × (insert_stream F client (scan F f n p) rep
          ≡ some rep')
        × Settles F client rep' u
        × ((k : ℕ) → p < k → k ≤ p + n → u.row_at k ≡ f k)
        × ((k : ℕ) → (k ≤ p) ⊎ (p + n < k) → u.row_at k ≡ t.row_at k)
  unfolding insert_stream
  insert_stream_lem zero p rep t settles free =
      unfold scan in (rep, t, refl, settles, λ k lo hi. absurd (omega arith), λ k out. refl)
  insert_stream_lem (suc n) p rep t settles free = elim (Option-cases (f (suc p))) [
    | inl e ↦ rw (scan_step_none F f n p e) (
        let (rep', u, eq, w, inside, outside) =
          insert_stream_lem n (suc p) rep t settles
            (λ k lo hi. free k (omega arith) (omega arith)) in
        let here : u.row_at (suc p) ≡ f (suc p) =
          outside (suc p) (inl (omega arith)) ∙ free (suc p) (omega arith) (omega arith) ∙ sym e in
        (
          rep',
          u,
          eq,
          w,
          λ k lo hi. elim (ℕ_discrete k (suc p)) [
            | yes q ↦ rw q here
            | no ne ↦ inside k (omega arith) (omega arith)
          ],
          λ k out. elim out [
            | inl le ↦ outside k (inl (omega arith))
            | inr lt ↦ outside k (inr (omega arith))
          ],
        ))
    | inr (row, e) ↦ rw (scan_step_some F f n p e) (
        let place = placed (suc p) row e in
        let inserted = insert_row F client row rep in
        let t' = set_row F row t in
        let s =
          settled-insert_row F client rep t row settles
            (rw place (free (suc p) (omega arith) (omega arith))) in
        let needed =
          ltb (max_sensible_insert_statement_size F client) (insert_size F client inserted) in
        let (applied, e', s', _, _) = settled-apply_if F client needed inserted t' s in
        let other : (k : ℕ) → k ≢ suc p → t'.row_at k ≡ t.row_at k = λ k ne. ground (arith, ne) in
        let (rep', u, eq, w, inside, outside) =
          insert_stream_lem n (suc p) applied t' s'
            (λ k lo hi. other k (λ q. omega arith) ∙ free k (omega arith) (omega arith)) in
        let here : u.row_at (suc p) ≡ f (suc p) =
          outside (suc p) (inl (omega arith)) ∙ rw (place, ==_refl (suc p)) (sym e) in
        (
          rep',
          u,
          rw e' eq,
          w,
          λ k lo hi. elim (ℕ_discrete k (suc p)) [
            | yes q ↦ rw q here
            | no ne ↦ inside k (omega arith) (omega arith)
          ],
          λ k out. elim out [
            | inl le ↦ outside k (inl (omega arith)) ∙ other k (λ q. omega arith)
            | inr lt ↦ outside k (inr (omega arith)) ∙ other k (λ q. omega arith)
          ],
        ))
  ]
