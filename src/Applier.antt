-- ===== src/Applier.antt =====
-- Making a range of the target's rows what the source sent (src/row_range_applier.h).
pub mod Buffer
pub mod Invariant
pub mod Compare
pub mod Check
pub mod Insert
pub mod Receive
pub mod Finish
pub mod Stream
mod Tests
use kitchen_sync.Common.{
  ℕ, zero, suc, ◌+◌, ◌*◌, ◌-◌, ◌≡◌, Bool, true, false, not, ◌&&◌, ◌||◌, Option, none, some, List,
  [], ◌∷◌, ◌==◌, ltb, if◌then◌else◌, ◌>>=◌, length,
}
use kitchen_sync.Table.{RowFormat, retrieve_rows, in_range}
use kitchen_sync.Replacer.{
  Client, RowReplacer, insert_row, replace_row, remove_row, need_to_apply, apply_if, delete_where,
}

abbrev pub max_bytes_to_buffer : ℕ
max_bytes_to_buffer = 16 * 1024 * 1024

abbrev pub max_rows_to_select : ℕ
max_rows_to_select = 10000

pub same_bytes : List ℕ → List ℕ → Bool
same_bytes [] [] = true
same_bytes [] (y ∷ ys) = false
same_bytes (x ∷ xs) [] = false
same_bytes (x ∷ xs) (y ∷ ys) = x == y && same_bytes xs ys

module _ {ℓ} {A : Type ℓ} where
  -- The rows that were received, by their keys.
  abbrev pub find_row : ℕ → List (ℕ × A) → Option A
  find_row key [] = none
  find_row key ((k, row) ∷ rows) = if key == k then some row else find_row key rows

  abbrev pub erase_row : ℕ → List (ℕ × A) → List (ℕ × A)
  erase_row key [] = []
  erase_row key ((k, row) ∷ rows) =
      let rest = erase_row key rows in if key == k then rest else (k, row) ∷ rest

  abbrev pub put_row : ℕ → A → List (ℕ × A) → List (ℕ × A)
  put_row key row rows = (key, row) ∷ erase_row key rows

module _ (F : RowFormat) (client : Client F) where
  open F use {Row, packed, key_of}

  pub record RowRangeApplier : Type 0 where
    pub replacer : RowReplacer F
    pub prev_key : ℕ
    pub curr_key : ℕ
    pub source_rows : List (ℕ × Row)
    pub approx_buffered_bytes : ℕ

  pub new_applier : RowReplacer F → ℕ → RowRangeApplier
  new_applier replacer prev_key = record {
    replacer = replacer;
    prev_key = prev_key;
    curr_key = prev_key;
    source_rows = [];
    approx_buffered_bytes = 0;
  }

  pub same_row : Row → Row → Bool
  unfolding same_bytes
  same_row r s = same_bytes (packed r) (packed s)

  pub compare_with : Option Row → Row → RowRangeApplier → RowRangeApplier
  unfolding same_row
  compare_with none row a = record a {
    prev_key = key_of row;
    replacer = remove_row F client row a.replacer;
  }
  compare_with (some source_row) row a = record a {
    prev_key = key_of row;
    replacer =
        if same_row source_row row then a.replacer else replace_row F client source_row a.replacer;
    source_rows = erase_row (key_of row) a.source_rows;
  }

  -- The callback for each row of the database.
  pub compare_row : Row → RowRangeApplier → RowRangeApplier
  unfolding compare_with
  compare_row row a = compare_with (find_row (key_of row) a.source_rows) row a

  pub compare_rows : List Row → RowRangeApplier → RowRangeApplier
  unfolding compare_row
  compare_rows [] a = a
  compare_rows (row ∷ rows) a = compare_rows rows (compare_row row a)

  pub apply_if_needed : RowRangeApplier → Option RowRangeApplier
  apply_if_needed a = do
    replacer ← apply_if F client (need_to_apply F client a.replacer) a.replacer
    some (record a { replacer = replacer })

  -- After a full batch comes the next one; `Check` shows that the fuel does not run out.
  pub next_batch :
      Bool → (RowRangeApplier → Option RowRangeApplier) → RowRangeApplier → Option RowRangeApplier
  next_batch true next a = next a
  next_batch false next a = some (record a { prev_key = a.curr_key })

  pub check_batches : ℕ → ℕ → RowRangeApplier → Option RowRangeApplier
  unfolding compare_rows apply_if_needed next_batch
  check_batches batch zero a = none
  check_batches batch (suc fuel) a =
      let rows = retrieve_rows F a.replacer.table a.prev_key a.curr_key batch in
      apply_if_needed (compare_rows rows a)
      >>= next_batch (length rows == batch) (check_batches batch fuel)

  pub check_rows_to_curr_key : RowRangeApplier → Option RowRangeApplier
  unfolding check_batches
  check_rows_to_curr_key a = check_batches max_rows_to_select (suc (a.curr_key - a.prev_key)) a

  pub insert_all : List (ℕ × Row) → RowReplacer F → Option (RowReplacer F)
  insert_all [] replacer = some replacer
  insert_all ((key, row) ∷ rows) replacer = do
    let inserted = insert_row F client row replacer
    applied ← apply_if F client (need_to_apply F client inserted) inserted
    insert_all rows applied

  pub insert_remaining_rows : RowRangeApplier → Option RowRangeApplier
  unfolding insert_all
  insert_remaining_rows a = do
    replacer ← insert_all a.source_rows a.replacer
    some (record a { replacer = replacer; source_rows = []; approx_buffered_bytes = 0 })

  pub buffer_row : Row → RowRangeApplier → RowRangeApplier
  buffer_row row a = record a {
    curr_key = key_of row;
    source_rows = put_row (key_of row) row a.source_rows;
    approx_buffered_bytes = a.approx_buffered_bytes + client.row_bytes row;
  }

  pub received_source_row : Row → RowRangeApplier → Option RowRangeApplier
  unfolding buffer_row check_rows_to_curr_key insert_remaining_rows
  received_source_row row a =
      let buffered = buffer_row row a in
      if ltb max_bytes_to_buffer buffered.approx_buffered_bytes
      then (check_rows_to_curr_key buffered >>= insert_remaining_rows)
      else some buffered

  pub delete_range : ℕ → ℕ → RowRangeApplier → RowRangeApplier
  delete_range matched_up_to_key last_not_matching_key a = record a {
    replacer = record a.replacer {
      table = delete_where F (in_range F matched_up_to_key last_not_matching_key) a.replacer.table;
    };
  }

  pub received_all_source_rows : ℕ → RowRangeApplier → Option RowRangeApplier
  unfolding delete_range check_rows_to_curr_key insert_remaining_rows
  received_all_source_rows last_key a =
      let cleared =
        if last_key == 0 || not (a.curr_key == last_key)
        then delete_range a.curr_key last_key a
        else a in
      check_rows_to_curr_key cleared >>= insert_remaining_rows

  -- The rows before the empty one.
  pub stream_from_input : ℕ → List Row → RowRangeApplier → Option RowRangeApplier
  unfolding received_source_row received_all_source_rows
  stream_from_input last_key [] a = received_all_source_rows last_key a
  stream_from_input last_key (row ∷ rows) a =
      received_source_row row a >>= stream_from_input last_key rows
