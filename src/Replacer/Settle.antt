-- ===== src/Replacer/Settle.antt =====
-- What executing statements makes of a table.
use kitchen_sync.Common.{
  ◌&&◌, Bool-cases, not, sym, ◌==◌, ◌∙◌, refl, inr, inl, Option-cases, ◌>>=◌, arith, ℕ_discrete,
  ◌≢◌, ◌++◌, max, Option, ap, fun_ext, false, some, Bool, All, ℕ, ◌≡◌, List, [], ◌∷◌,
}
use kitchen_sync.Table.{RowFormat, Table}
use kitchen_sync.Replacer.{
  is_some, set_row, delete_where, execute_insert, insert_tuple, execute_delete,
}

module _ (F : RowFormat) where
  open F use {Row, key_of}

  pub execute_delete-append :
      (ks : List ℕ) (k : ℕ) (t : Table F)
      → execute_delete F (ks ++ (k ∷ [])) t
        ≡ delete_where F (λ key. key == k) (execute_delete F ks t)
  execute_delete-append [] k t = refl
  execute_delete-append (j ∷ ks) k t =
      execute_delete-append ks k (delete_where F (λ key. key == j) t)

  pub execute_insert-append :
      (replace : Bool) (rows : List Row) (row : Row) (t : Table F)
      → execute_insert F replace (rows ++ (row ∷ [])) t
        ≡ (execute_insert F replace rows t >>= insert_tuple F replace row)
  execute_insert-append replace [] row t = elim (Option-cases (insert_tuple F replace row t)) [
    | inl e ↦ rw e refl
    | inr (u, e) ↦ rw e refl
  ]
  execute_insert-append replace (r ∷ rows) row t =
      elim (Option-cases (insert_tuple F replace r t)) [
        | inl e ↦ rw e refl
        | inr (u, e) ↦ rw e (execute_insert-append replace rows row u)
      ]

  pub row_at-execute_delete :
      (ks : List ℕ) (k : ℕ) (t : Table F)
      → All (λ j. k ≢ j) ks
      → (execute_delete F ks t).row_at k ≡ t.row_at k
  row_at-execute_delete [] k t free = refl
  row_at-execute_delete (j ∷ ks) k t (ne, free) =
      row_at-execute_delete ks k (delete_where F (λ key. key == j) t) free ∙ ground (arith, ne)

  -- A table changed by f at k alone is changed in the same way after rows with other keys went in.
  insert_tuple-row_at :
      (replace : Bool) (row : Row) (t u : Table F) (k : ℕ)
      → insert_tuple F replace row t ≡ some u
      → k ≢ key_of row
      → u.row_at k ≡ t.row_at k
  insert_tuple-row_at replace row t u k e ne = ground (arith, e, ne)

  pub execute_insert-row_at :
      (replace : Bool) (rows : List Row) (t u : Table F) (k : ℕ)
      → execute_insert F replace rows t ≡ some u
      → All (λ (r : Row). k ≢ key_of r) rows
      → u.row_at k ≡ t.row_at k
  execute_insert-row_at replace [] t u k e free =
      let same : t ≡ u = cc in ap (λ (v : Table F). v.row_at k) (sym same)
  execute_insert-row_at replace (r ∷ rows) t u k e (ne, free) =
      elim (Option-cases (insert_tuple F replace r t)) [
        | inl z ↦ let e' = rw z at e in absurd (ground arith)
        | inr (v, z) ↦
            execute_insert-row_at replace rows v u k (rw z at e) free
            ∙ insert_tuple-row_at replace r t v k z ne
      ]

  delete_where-set_row :
      (c : ℕ → Bool) (row : Row) (t : Table F)
      → c (key_of row) ≡ false
      → delete_where F c (set_row F row t) ≡ set_row F row (delete_where F c t)
  delete_where-set_row c row t e =
      let same : (delete_where F c (set_row F row t)).row_at
          ≡ (set_row F row (delete_where F c t)).row_at =
        fun_ext (λ key. elim (ℕ_discrete key (key_of row)) [
          | yes q ↦ rw q (rw e (ground arith))
          | no ne ↦ ground (arith, ne)
        ]) in
      ap (λ (g : ℕ → Option Row). record { bound = max (key_of row) t.bound; row_at = g }) same

  insert_tuple-inv :
      (replace : Bool) (row : Row) (t u : Table F)
      → insert_tuple F replace row t ≡ some u
      → ((not replace && is_some F (t.row_at (key_of row))) ≡ false) × (u ≡ set_row F row t)
  insert_tuple-inv replace row t u e =
      elim (Bool-cases (not replace && is_some F (t.row_at (key_of row)))) [
        | inl z ↦ absurd (let e' = rw z at e in ground arith)
        | inr z ↦ let e' : some (set_row F row t) ≡ some u = rw z at e in (z, cc)
      ]

  pub delete_where-execute_insert :
      (c : ℕ → Bool) (replace : Bool) (rows : List Row) (t u : Table F)
      → All (λ r. c (key_of r) ≡ false) rows
      → execute_insert F replace rows t ≡ some u
      → execute_insert F replace rows (delete_where F c t) ≡ some (delete_where F c u)
  delete_where-execute_insert c replace [] t u free e =
      let same : t ≡ u = cc in ap (λ v. some (delete_where F c v)) same
  delete_where-execute_insert c replace (r ∷ rows) t u (outside, free) e =
      elim (Option-cases (insert_tuple F replace r t)) [
        | inl z ↦ let e' = rw z at e in absurd (ground arith)
        | inr (v, z) ↦
            let inserted : insert_tuple F replace r (delete_where F c t)
                ≡ some (delete_where F c v) =
              (let (absent, same) = insert_tuple-inv replace r t v z in
                rw same (
                  rw outside (elim (Bool-cases replace) [
                    | inl b ↦ rw b (ap some (sym (delete_where-set_row c r t outside)))
                    | inr b ↦
                        let absent' : is_some F (t.row_at (key_of r)) ≡ false = rw b at absent in
                        rw (b, absent') (ap some (sym (delete_where-set_row c r t outside)))
                  ]))) in
            rw inserted (delete_where-execute_insert c replace rows v u free (rw z at e))
      ]

  pub delete_where-execute_delete :
      (c : ℕ → Bool) (ks : List ℕ) (t : Table F)
      → execute_delete F ks (delete_where F c t) ≡ delete_where F c (execute_delete F ks t)
  delete_where-execute_delete c [] t = refl
  delete_where-execute_delete c (k ∷ ks) t =
      let same : (delete_where F (λ key. key == k) (delete_where F c t)).row_at
          ≡ (delete_where F c (delete_where F (λ key. key == k) t)).row_at =
        fun_ext (λ key. ground arith) in
      let swapped : delete_where F (λ key. key == k) (delete_where F c t)
          ≡ delete_where F c (delete_where F (λ key. key == k) t) =
        ap (λ (g : ℕ → Option Row). record { bound = t.bound; row_at = g }) same in
      ap (execute_delete F ks) swapped
      ∙ delete_where-execute_delete c ks (delete_where F (λ key. key == k) t)
