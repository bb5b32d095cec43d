-- ===== src/Replacer.antt =====
-- Changing the rows of a table in batches of statements (src/row_replacer.h, src/unique_key_clearer.h,
-- src/base_sql.h), for a table whose one unique key is its primary key. A statement is the list of
-- what was appended to it, and its length is that of the text.
pub mod Settle
pub mod Steps
pub mod Inserter
pub mod Examples
mod Tests
use kitchen_sync.Common.{
  ℕ, ◌+◌, ◌*◌, max, ◌≡◌, Bool, true, false, not, ◌&&◌, ◌||◌, Option, none, some, List, [], ◌∷◌,
  ◌++◌, All, ◌≢◌, ◌==◌, ltb, if◌then◌else◌, ◌>>=◌,
}
use kitchen_sync.Table.{RowFormat, Table, in_range}

-- What the client gives: whether it has REPLACE, the lengths of the texts that it writes, and the
-- encoded sizes of a row's values.
pub record Client (F : RowFormat) : Type 0 where
  pub supports_replace : Bool
  pub insert_prefix_size : ℕ
  pub delete_prefix_size : ℕ
  pub tuple_size : F.Row → ℕ
  pub condition_size : ℕ → ℕ
  pub row_bytes : F.Row → ℕ

-- The length of a statement of those items, with the separators between them.
abbrev pub statement_size {ℓ} : {A : Type ℓ} → ℕ → (A → ℕ) → ℕ → List A → ℕ
statement_size separator size prefix_size [] = prefix_size
statement_size separator size prefix_size (x ∷ []) = prefix_size + size x
statement_size separator size prefix_size (x ∷ y ∷ xs) =
    size x + separator + statement_size separator size prefix_size (y ∷ xs)

module _ (F : RowFormat) where
  open F use {Row, key_of}

  pub record RowReplacer : Type 0 where
    pub table : Table F
    pub delete_keys : List ℕ
    pub insert_rows : List Row
    pub rows_changed : ℕ

  abbrev pub set_row : Row → Table F → Table F
  set_row row t = record {
    bound = max (key_of row) t.bound;
    row_at = λ key. if key == key_of row then some row else t.row_at key;
  }

  -- DELETE FROM table WHERE condition
  abbrev pub delete_where : (ℕ → Bool) → Table F → Table F
  delete_where condition t = record {
    bound = t.bound;
    row_at = λ key. if condition key then none else t.row_at key;
  }

  abbrev pub is_some : Option Row → Bool
  is_some none = false
  is_some (some row) = true

  -- DELETE FROM table WHERE (key) OR (key) ...
  abbrev pub execute_delete : List ℕ → Table F → Table F
  execute_delete [] t = t
  execute_delete (k ∷ keys) t = execute_delete keys (delete_where (λ key. key == k) t)

  -- One row of INSERT, which fails where there is a row with the key, or of REPLACE.
  abbrev pub insert_tuple : Bool → Row → Table F → Option (Table F)
  insert_tuple replace row t =
      if not replace && is_some (t.row_at (key_of row)) then none else some (set_row row t)

  abbrev pub execute_insert : Bool → List Row → Table F → Option (Table F)
  execute_insert replace [] t = some t
  execute_insert replace (row ∷ rows) t = insert_tuple replace row t >>= execute_insert replace rows

  module _ (client : Client F) where
    -- What applying the statements would make of the table; none for a duplicate key.
    unfoldable pub settled : RowReplacer → Option (Table F)
    settled rep =
        execute_insert client.supports_replace rep.insert_rows
          (execute_delete rep.delete_keys rep.table)

    pub insert_row : Row → RowReplacer → RowReplacer
    insert_row row rep = record rep {
      insert_rows = rep.insert_rows ++ (row ∷ []);
      rows_changed = rep.rows_changed + 1;
    }

    -- The primary key's clearer comes first, and is left out where there is REPLACE.
    pub replace_row : Row → RowReplacer → RowReplacer
    replace_row row rep = record rep {
      delete_keys =
          if client.supports_replace then rep.delete_keys else rep.delete_keys ++ (key_of row ∷ []);
      insert_rows = rep.insert_rows ++ (row ∷ []);
      rows_changed = rep.rows_changed + 1;
    }

    pub remove_row : Row → RowReplacer → RowReplacer
    remove_row row rep = record rep {
      delete_keys = rep.delete_keys ++ (key_of row ∷ []);
      rows_changed = rep.rows_changed + 1;
    }

    -- A statement without content is not executed, which leaves the table as it is.
    pub apply : RowReplacer → Option RowReplacer
    apply rep = do
      t ←
          execute_insert client.supports_replace rep.insert_rows
            (execute_delete rep.delete_keys rep.table)
      some (record rep { table = t; delete_keys = []; insert_rows = [] })

    -- The count of the deleted rows is the client's.
    pub clear_range : ℕ → ℕ → ℕ → RowReplacer → Option RowReplacer
    unfolding apply
    clear_range deleted prev_key last_key rep = do
      applied ← apply rep
      some (record applied {
        table = delete_where (in_range F prev_key last_key) applied.table;
        rows_changed = applied.rows_changed + deleted;
      })

    abbrev pub max_sensible_insert_statement_size : ℕ
    max_sensible_insert_statement_size = 4 * 1024 * 1024

    abbrev pub max_sensible_delete_statement_size : ℕ
    max_sensible_delete_statement_size = 16 * 1024

    abbrev pub insert_size : RowReplacer → ℕ
    insert_size rep = statement_size 4 client.tuple_size client.insert_prefix_size rep.insert_rows

    abbrev pub delete_size : RowReplacer → ℕ
    delete_size rep =
        statement_size 6 client.condition_size client.delete_prefix_size rep.delete_keys

    pub need_to_apply : RowReplacer → Bool
    need_to_apply rep =
        ltb max_sensible_insert_statement_size (insert_size rep)
        || ltb max_sensible_delete_statement_size (delete_size rep)

    unfoldable pub apply_if : Bool → RowReplacer → Option RowReplacer
    apply_if needed rep = if needed then apply rep else some rep

    -- RowInserter::stream_from_input, for the rows before the empty one.
    pub insert_stream : List Row → RowReplacer → Option RowReplacer
    unfolding insert_row
    insert_stream [] rep = some rep
    insert_stream (row ∷ rows) rep = do
      let inserted = insert_row row rep
      applied ← apply_if (ltb max_sensible_insert_statement_size (insert_size inserted)) inserted
      insert_stream rows applied
