-- ===== src/Schema/Matcher/Columns/Names.antt =====
-- Which columns a table has after they were matched.
use Prim.Native.String.{String}
use package.text.Mathlib.Text.{◌==◌ as str_eq}
use package.text.Mathlib.TextEquality.{eq_iff}
use kitchen_sync.Common.{
  append-nil, All, ◌≢◌, false, length-append, arith, &&-true, suc, if_both, append_assoc,
  Bool-cases, ℕ, ◌+◌, ◌≡◌, refl, true, not, ◌&&◌, List, [], ◌∷◌, ◌++◌, ◌⊎◌, inl, inr, ◌∙◌, sym, ap,
  length,
}
use kitchen_sync.Schema.{TableSchema, Column, Key}
use kitchen_sync.Schema.Matcher.{key_contains, column_used_in_unique_key, Traits, Statement}
use kitchen_sync.Schema.Matcher.Columns.{
  add_column_clauses, keep_column, is_settable_default, has_index, same_default, alter_default,
  alter_nullability, match_nullability, match_default, drop_column_clauses, ColumnMatch,
  match_existing, add_columns, match_columns, must_recreate,
}

abbrev pub column_names : List Column → List String
column_names [] = []
column_names (c ∷ columns) = c.name ∷ column_names columns

column_names-append :
    (cs ds : List Column) → column_names (cs ++ ds) ≡ column_names cs ++ column_names ds
column_names-append [] ds = refl
column_names-append (c ∷ cs) ds = ap (λ ns. c.name ∷ ns) (column_names-append cs ds)

drop_column_clauses-columns :
    (n : ℕ) (c : Column) (m : ColumnMatch)
    → (drop_column_clauses n c m).to_table.columns ≡ m.to_table.columns
unfolding drop_column_clauses
drop_column_clauses-columns n c m = elim (Bool-cases (has_index n m.to_table.primary_key_columns)) [
  | inl e ↦ rw e refl
  | inr e ↦ rw e refl
]

match_nullability_lem :
    (traits : Traits) (from_table : TableSchema) (n : ℕ) (f c : Column) (m : ColumnMatch)
    → let matched = match_nullability traits from_table n f c m in
      (matched.0.name ≡ c.name) × (matched.1.to_table ≡ m.to_table)
unfolding match_nullability alter_nullability
match_nullability_lem traits from_table n f c m = elim (Bool-cases (f.nullable && not c.nullable)) [
  | inl e ↦ rw e (altered, refl)
  | inr e ↦
      elim (Bool-cases
        (not f.nullable && c.nullable && not (column_used_in_unique_key from_table.keys n))) [
          | inl e' ↦ rw (e, e') (altered, refl)
          | inr e' ↦ rw (e, e') (refl, refl)
        ]
]
  where
    altered : (alter_nullability traits f c).0.name ≡ c.name
    altered = elim (Bool-cases traits.set_nullability) [ inl e ↦ rw e refl | inr e ↦ rw e refl ]

match_default_lem :
    (f : Column) (c : Column) (m : ColumnMatch)
    → let matched = match_default f (c, m) in
      (matched.0.name ≡ c.name) × (matched.1.to_table ≡ m.to_table)
unfolding match_default alter_default
match_default_lem f c m =
    elim (Bool-cases (not (same_default f c) && is_settable_default f.default_type)) [
      | inl e ↦ rw e (refl, refl)
      | inr e ↦ rw e (refl, refl)
    ]

keep_column-names :
    (traits : Traits) (from_table : TableSchema) (n : ℕ) (f c : Column) (m : ColumnMatch)
    → f.name ≡ c.name
    → column_names
        (keep_column
          (match_default f (match_nullability traits from_table n f c m))).to_table.columns
      ≡ column_names m.to_table.columns ++ (f.name ∷ [])
keep_column-names traits from_table n f c m same =
    let (c', m') = match_nullability traits from_table n f c m in
    let (name, table) = match_nullability_lem traits from_table n f c m in
    let (name', table') = match_default_lem f c' m' in
    column_names-append (match_default f (c', m')).1.to_table.columns
      ((match_default f (c', m')).0 ∷ [])
    ∙ rw (table', table, name', name, same) refl

-- The columns that were matched and those that are left are the source's.
match_existing-names :
    (traits : Traits) (from_table : TableSchema) (tos froms : List Column) (n : ℕ) (m : ColumnMatch)
    → let matched = match_existing traits from_table tos froms n m in
      column_names matched.1.to_table.columns ++ column_names matched.0
      ≡ column_names m.to_table.columns ++ column_names froms
unfolding match_existing
match_existing-names traits from_table [] froms n m = refl
match_existing-names traits from_table (c ∷ tos) [] n m =
    match_existing-names traits from_table tos [] n (drop_column_clauses n c m)
    ∙ ap (λ (cs : List Column). column_names cs ++ []) (drop_column_clauses-columns n c m)
match_existing-names traits from_table (c ∷ tos) (f ∷ froms) n m =
    elim (Bool-cases (str_eq c.name f.name)) [
      | inl e ↦
          let same : f.name ≡ c.name = sym ((eq_iff c.name f.name).0 e) in
          let kept = keep_column (match_default f (match_nullability traits from_table n f c m)) in
          rw e (
            match_existing-names traits from_table tos froms (n + 1) kept
            ∙ ap (λ (ns : List String). ns ++ column_names froms)
                (keep_column-names traits from_table n f c m same)
            ∙ append_assoc (column_names m.to_table.columns) (f.name ∷ []) (column_names froms))
      | inr e ↦ rw e (
          match_existing-names traits from_table tos (f ∷ froms) n (drop_column_clauses n c m)
          ∙ ap (λ (cs : List Column). column_names cs ++ column_names (f ∷ froms))
              (drop_column_clauses-columns n c m))
    ]

add_column_clauses-columns :
    (traits : Traits) (c : Column) (m : ColumnMatch)
    → (add_column_clauses traits c m).to_table.columns ≡ m.to_table.columns ++ (c ∷ [])
unfolding add_column_clauses
add_column_clauses-columns traits c m =
    if_both (λ (r : ColumnMatch). r.to_table.columns) _ _ _ _ refl refl

-- No key has a column with the index.
abbrev pub IsUnused : TableSchema → ℕ → Type 0
IsUnused table n = All (λ (key : Key). All (λ m. m ≢ n) key.columns) table.keys

-- A column that may not be NULL, of an index in a key.
abbrev pub IsRequired : TableSchema → ℕ → Column → Type 0
IsRequired table n c = (c.nullable ≡ false) × (¬ IsUnused table n)

abbrev pub NoneRequired : TableSchema → ℕ → List Column → Type 0
NoneRequired table n [] = Unit
NoneRequired table n (c ∷ columns) = (¬ IsRequired table n c) × NoneRequired table (n + 1) columns

abbrev pub GivesUp : TableSchema → ℕ → List Column → Type 0
GivesUp table n columns =
    (columns ≡ [])
    ⊎ ((c : Column) × (rest : List Column) × (columns ≡ c ∷ rest) × IsRequired table n c)

add_zero : (n : ℕ) → n + 0 ≡ n
add_zero n = omega arith

add_one : (n k : ℕ) → (n + 1) + k ≡ n + suc k
add_one n k = omega arith

key_contains-true : (n : ℕ) (ms : List ℕ) → All (λ m. m ≢ n) ms → key_contains n ms ≡ false
key_contains-true n [] h = refl
key_contains-true n (m ∷ ms) (ne, h) = let rest = key_contains-true n ms h in ground arith

key_contains-false : (n : ℕ) (ms : List ℕ) → key_contains n ms ≡ false → All (λ m. m ≢ n) ms
key_contains-false n [] e = tt
key_contains-false n (m ∷ ms) e = (ground arith, key_contains-false n ms (ground arith))

unused-true :
    (n : ℕ) (keys : List Key)
    → All (λ (key : Key). All (λ m. m ≢ n) key.columns) keys
    → column_used_in_unique_key keys n ≡ false
unused-true n [] h = refl
unused-true n (key ∷ keys) (h, hs) =
    rw (key_contains-true n key.columns h, unused-true n keys hs) refl

unused-false :
    (n : ℕ) (keys : List Key)
    → column_used_in_unique_key keys n ≡ false
    → All (λ (key : Key). All (λ m. m ≢ n) key.columns) keys
unused-false n [] e = tt
unused-false n (key ∷ keys) e = elim (Bool-cases (key_contains n key.columns)) [
  | inl t ↦ absurd (let e' = rw t at e in cc)
  | inr f ↦ (key_contains-false n key.columns f, unused-false n keys (rw f at e))
]

must_recreate-true :
    (table : TableSchema) (n : ℕ) (c : Column)
    → must_recreate table n c ≡ true
    → IsRequired table n c
must_recreate-true table n c e =
    let (settled, used) = &&-true (not c.nullable) (column_used_in_unique_key table.keys n) e in
    (ground arith, λ unused. let known = unused-true n table.keys unused in cc)

must_recreate-false :
    (table : TableSchema) (n : ℕ) (c : Column)
    → must_recreate table n c ≡ false
    → ¬ IsRequired table n c
must_recreate-false table n c e (settled, used) =
    elim (Bool-cases (column_used_in_unique_key table.keys n)) [
      | inl t ↦ let known : must_recreate table n c ≡ true = simp (settled, t) refl in cc
      | inr f ↦ used (unused-false n table.keys f)
    ]

add_columns-names :
    (traits : Traits) (from_table : TableSchema) (froms : List Column) (n : ℕ) (m : ColumnMatch)
    → (added left : List Column) × (froms ≡ added ++ left)
      × ((add_columns traits from_table froms n m).1.columns ≡ m.to_table.columns ++ added)
      × NoneRequired from_table n added
      × GivesUp from_table (n + length added) left
unfolding add_columns
add_columns-names traits from_table [] n m =
    ([], [], refl, sym (append-nil m.to_table.columns), tt, inl refl)
add_columns-names traits from_table (c ∷ froms) n m =
    elim (Bool-cases (must_recreate from_table n c)) [
      | inl e ↦ rw e (
        [],
        c ∷ froms,
        refl,
        sym (append-nil m.to_table.columns),
        tt,
        inr (c, froms, refl, rw (add_zero n) (must_recreate-true from_table n c e)),
      )
      | inr e ↦
          let (added, left, whole, columns, none_required, gives_up) =
            add_columns-names traits from_table froms (n + 1) (add_column_clauses traits c m) in
          rw e (
            c ∷ added,
            left,
            ap (λ cs. c ∷ cs) whole,
            columns
                ∙ ap (λ (cs : List Column). cs ++ added) (add_column_clauses-columns traits c m)
                ∙ append_assoc m.to_table.columns (c ∷ []) added,
            (must_recreate-false from_table n c e, none_required),
            rw (← add_one n (length added)) gives_up,
          )
    ]

-- The source's columns that the target does not have in their place, and the target's match so far.
abbrev pub matched_existing :
    Traits → TableSchema → TableSchema → List Statement → List Column × ColumnMatch
matched_existing traits from_table to_table statements =
    match_existing traits from_table to_table.columns from_table.columns 0 record {
      to_table = record to_table { columns = [] };
      alter_statements = statements;
      update_table_clauses = [];
      alter_table_clauses = [];
      second_round_alter_table_clauses = [];
    }

-- After the columns of a table are matched it has columns of the same names as the source's, in the
-- same order, or those before a column that is given up: of those that are missing in the target, as
-- many are added as come before the first that may not be NULL and whose index is in one of the
-- source's keys, and none if it is the first of them.
pub match_columns-names :
    (traits : Traits) (from_table to_table : TableSchema) (statements : List Statement)
    → let (missing, m) = matched_existing traits from_table to_table statements in
      let columns = (match_columns traits from_table (statements, to_table)).1.columns in
      (added left : List Column) × (missing ≡ added ++ left)
      × (columns ≡ m.to_table.columns ++ added)
      × (column_names columns ++ column_names left ≡ column_names from_table.columns)
      × NoneRequired from_table (length m.to_table.columns) added
      × GivesUp from_table (length columns) left
unfolding match_columns
match_columns-names traits from_table to_table statements =
    let (froms, m) = matched_existing traits from_table to_table statements in
    let (added, left, whole, columns, none_required, gives_up) =
      add_columns-names traits from_table froms (length m.to_table.columns) m in
    let names : column_names (m.to_table.columns ++ added) ++ column_names left
        ≡ column_names from_table.columns =
      ap (λ (ns : List String). ns ++ column_names left)
        (column_names-append m.to_table.columns added)
      ∙ append_assoc (column_names m.to_table.columns) (column_names added) (column_names left)
      ∙ ap (λ (ns : List String). column_names m.to_table.columns ++ ns)
          (sym (column_names-append added left) ∙ ap column_names (sym whole))
      ∙ match_existing-names traits from_table to_table.columns from_table.columns 0 _ in
    (
      added,
      left,
      whole,
      columns,
      ap (λ (cs : List Column). column_names cs ++ column_names left) columns ∙ names,
      none_required,
      rw (columns, length-append m.to_table.columns added) gives_up,
    )
