-- ===== src/Table.antt =====
-- The rows of one table as the two ends query them (src/query_functions.h, src/sql_functions.h and the
-- row receivers of src/row_serialization.h).
--
-- A key is a position in the order that the database gives the primary key; the positions count
-- from 1 and 0 is the empty ColumnValues. A table holds at most one row at each position.
pub mod Scan
pub mod Window
pub mod Query
pub mod Replace
pub mod Ends
pub mod Count
pub mod Examples
use kitchen_sync.Common.{
  ℕ, zero, suc, ◌+◌, ◌-◌, ◌≤◌, max, ◌≡◌, ◌≢◌, Option, none, some, List, [], ◌∷◌, ◌++◌, length, take,
  ◌==◌, ltb, leb, Bool, ◌&&◌, ◌||◌, if◌then◌else◌,
}

-- What the database clients give for a row: `packed` is what `pack_row_into` writes for it, and
-- `key_of` is the position of its primary key. Packed rows are MessagePack arrays, so that one can
-- tell where each of them ends.
pub record RowFormat : Type 1 where
  pub Row : Type 0
  pub packed : Row → List ℕ
  pub key_of : Row → ℕ
  pub self_delimiting :
      (r s : Row) (xs ys : List ℕ) → packed r ++ xs ≡ packed s ++ ys → (r ≡ s) × (xs ≡ ys)
  pub packed_nonempty : (r : Row) → 1 ≤ length (packed r)

module _ (F : RowFormat) where
  open F use {Row, packed, key_of}

  -- No key is greater than `bound`.
  pub record Table : Type 0 where
    pub bound : ℕ
    pub row_at : ℕ → Option Row

  pub record IsTable (t : Table) : Type 0 where
    pub placed : (k : ℕ) (r : Row) → t.row_at k ≡ some r → key_of r ≡ k
    pub within : (k : ℕ) (r : Row) → t.row_at k ≡ some r → k ≤ t.bound
    pub no_empty_key : t.row_at 0 ≡ none

  abbrev pub IsPresent : Table → ℕ → Type 0
  IsPresent t key = (r : Row) × (t.row_at key ≡ some r)

  abbrev pub add_row : Option Row → List Row → List Row
  add_row none rows = rows
  add_row (some r) rows = r ∷ rows

  -- The rows at the `n` positions after `k`, in ascending order.
  unfoldable pub scan : (ℕ → Option Row) → ℕ → ℕ → List Row
  scan f zero k = []
  scan f (suc n) k = add_row (f (suc k)) (scan f n (suc k))

  -- WHERE key > prev_key AND key <= last_key; an empty key leaves its condition out.
  abbrev pub upper : Table → ℕ → ℕ
  upper t last_key = if last_key == 0 then t.bound else last_key

  unfoldable pub rows_in_range : Table → ℕ → ℕ → List Row
  unfolding scan
  rows_in_range t prev_key last_key = scan t.row_at (upper t last_key - prev_key) prev_key

  -- The same with LIMIT.
  unfoldable pub retrieve_rows : Table → ℕ → ℕ → ℕ → List Row
  unfolding rows_in_range
  retrieve_rows t prev_key last_key row_count = take row_count (rows_in_range t prev_key last_key)

  -- RowLastKey keeps the key of the last row that it was given.
  abbrev pub last_key_from : ℕ → List Row → ℕ
  last_key_from k [] = k
  last_key_from k (r ∷ rows) = last_key_from (key_of r) rows

  abbrev pub last_key_of : List Row → ℕ
  last_key_of rows = last_key_from 0 rows

  abbrev pub first_key_of : List Row → ℕ
  first_key_of [] = 0
  first_key_of (r ∷ rows) = key_of r

  -- What RowHasher writes to its hash.
  abbrev pub packed_rows : List Row → List ℕ
  packed_rows [] = []
  packed_rows (r ∷ rows) = packed r ++ packed_rows rows

  -- SELECT key ... ORDER BY key ASC LIMIT 1, and DESC.
  unfoldable pub first_key : Table → ℕ
  unfolding rows_in_range
  first_key t = first_key_of (rows_in_range t 0 0)

  unfoldable pub last_key : Table → ℕ
  unfolding rows_in_range
  last_key t = last_key_of (rows_in_range t 0 0)

  -- WHERE key >= key AND key > prev_key AND key <= last_key ORDER BY key ASC LIMIT 1
  unfoldable pub not_earlier_key : Table → ℕ → ℕ → ℕ → ℕ
  unfolding rows_in_range
  not_earlier_key t key prev_key last_key =
      first_key_of (rows_in_range t (max prev_key (key - 1)) last_key)

  unfoldable pub first_key_not_earlier_than : Table → ℕ → ℕ → ℕ → ℕ
  unfolding not_earlier_key
  first_key_not_earlier_than t key prev_key last_key =
      let result = not_earlier_key t key prev_key last_key in
      if result == 0 then prev_key else result

  -- The condition of where_sql on one key.
  abbrev pub in_range : ℕ → ℕ → ℕ → Bool
  in_range prev_key last_key key =
      (prev_key == 0 || ltb prev_key key) && (last_key == 0 || leb key last_key)

  -- One range of the target's rows replaced by the source's (src/row_range_applier.h).
  unfoldable pub replace_range : Table → Table → ℕ → ℕ → Table
  replace_range source target prev_key last_key = record {
    bound = max source.bound target.bound;
    row_at = λ key. if in_range prev_key last_key key then source.row_at key else target.row_at key;
  }
