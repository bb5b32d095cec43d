-- ===== src/Replacer/Steps.antt =====
-- What the pending statements come to when they are applied, and how each operation changes that.
use kitchen_sync.Common.{
  ◌⊎◌, ==_refl, refl, arith, true, inr, false, All-map, inl, Bool-cases, Bool, All-append, some,
  if◌then◌else◌, none, All, ℕ, ◌≡◌, ◌≢◌, ◌==◌, ◌++◌, ◌∙◌, [], ◌∷◌,
}
use kitchen_sync.Table.{RowFormat, Table}
use kitchen_sync.Replacer.{
  execute_insert, set_row, apply, delete_where, execute_delete, apply_if, RowReplacer, Client,
  settled, insert_row, replace_row, remove_row,
}
use kitchen_sync.Replacer.Settle.{
  execute_insert-append, execute_delete-append, row_at-execute_delete, execute_insert-row_at,
  delete_where-execute_insert, delete_where-execute_delete,
}

module _ (F : RowFormat) where
  open F use {Row, key_of}

  -- No pending statement is about the key.
  pub record Untouched (rep : RowReplacer F) (k : ℕ) : Type 0 where
    pub not_deleted : All (λ j. k ≢ j) rep.delete_keys
    pub not_inserted : All (λ (r : Row). k ≢ key_of r) rep.insert_rows

  module _ (client : Client F) where
    abbrev pub Settles : RowReplacer F → Table F → Type 0
    Settles rep t = settled F client rep ≡ some t

    -- A row that no pending statement is about is in the table as it will be when they are applied.
    pub settled-row_at :
        (rep : RowReplacer F) (t : Table F) (k : ℕ)
        → Settles rep t
        → Untouched rep k
        → t.row_at k ≡ rep.table.row_at k
    unfolding settled
    settled-row_at rep t k e free =
        execute_insert-row_at F client.supports_replace rep.insert_rows
          (execute_delete F rep.delete_keys rep.table) t k e free.not_inserted
        ∙ row_at-execute_delete F rep.delete_keys k rep.table free.not_deleted

    pub settled-insert_row :
        (rep : RowReplacer F) (t : Table F) (row : Row)
        → Settles rep t
        → t.row_at (key_of row) ≡ none
        → Settles (insert_row F client row rep) (set_row F row t)
    unfolding settled insert_row
    settled-insert_row rep t row e free =
        execute_insert-append F client.supports_replace rep.insert_rows row
          (execute_delete F rep.delete_keys rep.table)
        ∙ rw e (elim (Bool-cases client.supports_replace) [
          | inl b ↦ rw b refl
          | inr b ↦ rw (b, free) refl
        ])

    pub settled-remove_row :
        (rep : RowReplacer F) (t : Table F) (row : Row)
        → Settles rep t
        → Untouched rep (key_of row)
        → Settles (remove_row F client row rep) (delete_where F (λ key. key == key_of row) t)
    unfolding settled remove_row
    settled-remove_row rep t row e free =
        rw (execute_delete-append F rep.delete_keys (key_of row) rep.table) (
          delete_where-execute_insert F (λ key. key == key_of row) client.supports_replace
            rep.insert_rows (execute_delete F rep.delete_keys rep.table) t
            (All-map rep.insert_rows (λ (r : Row) ne. ground (arith, ne)) free.not_inserted) e)

    -- The old row of a replaced one is deleted, or overwritten by REPLACE.
    pub settled-replace_row :
        (rep : RowReplacer F) (t : Table F) (row : Row)
        → Settles rep t
        → Untouched rep (key_of row)
        → (u : Table F) × Settles (replace_row F client row rep) u
          × ((k : ℕ) → u.row_at k ≡ (if k == key_of row then some row else t.row_at k))
    unfolding settled replace_row remove_row
    settled-replace_row rep t row e free = elim (Bool-cases client.supports_replace) [
      | inl b ↦ (
        set_row F row t,
        rw b (
            execute_insert-append F true rep.insert_rows row
              (execute_delete F rep.delete_keys rep.table)
            ∙ rw (rw b at e) refl),
        λ k. refl,
      )
      | inr b ↦
          let deleted : execute_insert F client.supports_replace rep.insert_rows
                (execute_delete F (rep.delete_keys ++ (key_of row ∷ [])) rep.table)
              ≡ some (delete_where F (λ key. key == key_of row) t) =
            settled-remove_row rep t row e free in
          (
            set_row F row (delete_where F (λ key. key == key_of row) t),
            rw b (
                execute_insert-append F false rep.insert_rows row
                  (execute_delete F (rep.delete_keys ++ (key_of row ∷ [])) rep.table)
                ∙ rw (rw b at deleted, ==_refl (key_of row)) refl),
            λ k. ground arith,
          )
    ]

    pub settled-apply_if :
        (needed : Bool) (rep : RowReplacer F) (t : Table F)
        → Settles rep t
        → (rep' : RowReplacer F) × (apply_if F client needed rep ≡ some rep')
          × Settles rep' t
          × ((k : ℕ) → Untouched rep k → Untouched rep' k)
          × ((rep'.table ≡ rep.table) ⊎ (rep'.table ≡ t))
    unfolding apply_if apply settled
    settled-apply_if true rep t e = (
      record rep { table = t; delete_keys = []; insert_rows = [] },
      rw e refl,
      refl,
      λ k free. record { not_deleted = tt; not_inserted = tt },
      inr refl,
    )
    settled-apply_if false rep t e = (rep, refl, e, λ k free. free, inl refl)

    -- DELETE statements that are executed at once do to a table what they would do to it later, if
    -- no pending INSERT puts a row there.
    pub settled-delete_where :
        (c : ℕ → Bool) (rep : RowReplacer F) (t : Table F)
        → Settles rep t
        → All (λ (r : Row). c (key_of r) ≡ false) rep.insert_rows
        → Settles (record rep { table = delete_where F c rep.table }) (delete_where F c t)
    unfolding settled
    settled-delete_where c rep t e free =
        rw (delete_where-execute_delete F c rep.delete_keys rep.table) (
          delete_where-execute_insert F c client.supports_replace rep.insert_rows
            (execute_delete F rep.delete_keys rep.table) t free e)

    pub Untouched-insert_row :
        (rep : RowReplacer F) (row : Row) (k : ℕ)
        → Untouched rep k
        → k ≢ key_of row
        → Untouched (insert_row F client row rep) k
    unfolding insert_row
    Untouched-insert_row rep row k free ne = record {
      not_deleted = free.not_deleted;
      not_inserted =
          All-append (λ (r : Row). k ≢ key_of r) rep.insert_rows (row ∷ []) free.not_inserted
            (ne, tt);
    }

    pub Untouched-remove_row :
        (rep : RowReplacer F) (row : Row) (k : ℕ)
        → Untouched rep k
        → k ≢ key_of row
        → Untouched (remove_row F client row rep) k
    unfolding remove_row
    Untouched-remove_row rep row k free ne = record {
      not_deleted =
          All-append (λ j. k ≢ j) rep.delete_keys (key_of row ∷ []) free.not_deleted (ne, tt);
      not_inserted = free.not_inserted;
    }

    pub Untouched-replace_row :
        (rep : RowReplacer F) (row : Row) (k : ℕ)
        → Untouched rep k
        → k ≢ key_of row
        → Untouched (replace_row F client row rep) k
    unfolding replace_row
    Untouched-replace_row rep row k free ne = record {
      not_deleted = elim (Bool-cases client.supports_replace) [
        | inl b ↦ rw b free.not_deleted
        | inr b ↦
            rw b
              (All-append (λ j. k ≢ j) rep.delete_keys (key_of row ∷ []) free.not_deleted (ne, tt))
      ];
      not_inserted =
          All-append (λ (r : Row). k ≢ key_of r) rep.insert_rows (row ∷ []) free.not_inserted
            (ne, tt);
    }

    -- Nothing is executed until the statements are applied.
    pub table-remove_row :
        (rep : RowReplacer F) (row : Row) → (remove_row F client row rep).table ≡ rep.table
    unfolding remove_row
    table-remove_row rep row = refl

    pub table-replace_row :
        (rep : RowReplacer F) (row : Row) → (replace_row F client row rep).table ≡ rep.table
    unfolding replace_row
    table-replace_row rep row = refl

    pub table-insert_row :
        (rep : RowReplacer F) (row : Row) → (insert_row F client row rep).table ≡ rep.table
    unfolding insert_row
    table-insert_row rep row = refl

    pub settled-fresh :
        (t : Table F) (changes : ℕ)
        → Settles
            (record { table = t; delete_keys = []; insert_rows = []; rows_changed = changes })
            t
    unfolding settled
    settled-fresh t changes = refl

    pub settled-apply :
        (rep : RowReplacer F) (t : Table F)
        → Settles rep t
        → (rep' : RowReplacer F) × (apply F client rep ≡ some rep') × (rep'.table ≡ t)
    unfolding settled apply
    settled-apply rep t e =
        (record rep { table = t; delete_keys = []; insert_rows = [] }, rw e refl, refl)
