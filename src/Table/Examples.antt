-- ===== src/Table/Examples.antt =====
-- Small concrete tables, for the tests.
use kitchen_sync.Common.{ℕ, refl, none, some, [], ◌∷◌, ∷-injective, arith, ◌==◌, if◌then◌else◌}
use kitchen_sync.Table.{RowFormat, Table, IsTable}

-- Rows of a key and a value.
abbrev pub pair_format : RowFormat
pair_format = record {
  Row = ℕ × ℕ;
  packed = λ r. r.0 ∷ r.1 ∷ [];
  key_of = λ r. r.0;
  self_delimiting = λ r s xs ys e.
      let (same_key, rest) = ∷-injective e in
      let (same_value, same_tail) = ∷-injective rest in (cc, same_tail);
  packed_nonempty = λ r. omega arith;
}

-- Three rows, the last two with the given values.
abbrev pub rows_with : ℕ → ℕ → Table pair_format
rows_with x y = record {
  bound = 3;
  row_at = λ k.
      if k == 1
      then some (1, 7)
      else if k == 2
      then some (2, x)
      else if k == 3
      then some (3, y)
      else none;
}

pub rows_with-IsTable : (x y : ℕ) → IsTable pair_format (rows_with x y)
rows_with-IsTable x y = record {
  placed = λ k r e. ground arith;
  within = λ k r e. ground arith;
  no_empty_key = refl;
}

-- The first two rows only.
abbrev pub two_rows : Table pair_format
two_rows = record {
  bound = 2;
  row_at = λ k. if k == 1 then some (1, 7) else if k == 2 then some (2, 5) else none;
}

pub two_rows-IsTable : IsTable pair_format two_rows
two_rows-IsTable = record {
  placed = λ k r e. ground arith;
  within = λ k r e. ground arith;
  no_empty_key = refl;
}
