-- ===== src/Schema/Matcher/Tables.antt =====
-- Matching the tables (`match_table` and `match_tables` of src/schema_matcher.h).
use Prim.Native.String.{String}
use kitchen_sync.Common.{
  Bool-cases, ◌≡◌, refl, true, List, [], ◌∷◌, ◌++◌, ◌⊎◌, inl, inr, if◌then◌else◌,
}
use mathlib.Core.Path.{subst}
use kitchen_sync.Schema.{TableSchema, table_eq, table_less, key_less}
use kitchen_sync.Schema.Merge.{sources-merge, MergeAction, sort_by, merge, sources}
use kitchen_sync.Schema.Matcher.{
  match_both, create_missing, drop_table, drop_extra, comment_on, Traits, Statement, match_keys,
  create_table_statements,
}
use kitchen_sync.Schema.Matcher.Columns.{match_columns}

-- Keys are unordered, so both lists are sorted before the tables are compared.
pub sort_keys : TableSchema → TableSchema
sort_keys table = record table { keys = sort_by key_less table.keys }

-- The statements for a table that differs, and the table after them: altered if that makes it equal,
-- else recreated.
pub alter_or_recreate : Traits → TableSchema → TableSchema → List Statement × TableSchema
alter_or_recreate traits from_table to_table =
    let (alter_statements, altered) =
      match_keys from_table (match_columns traits from_table ([], to_table)) in
    if table_eq from_table altered then (alter_statements, altered) else (
      comment_on altered ∷ drop_table altered ∷ create_table_statements traits from_table,
      from_table,
    )

pub match_table : Traits → TableSchema → TableSchema → List Statement × TableSchema
unfolding sort_keys alter_or_recreate
match_table traits from_table to_table =
    if table_eq (sort_keys from_table) (sort_keys to_table)
    then ([], sort_keys to_table)
    else alter_or_recreate traits (sort_keys from_table) (sort_keys to_table)

abbrev append_table :
    List Statement × TableSchema
    → List Statement × List TableSchema
    → List Statement × List TableSchema
append_table (statements, table) (rest, tables) = (statements ++ rest, table ∷ tables)

-- The statements and the target's tables that the steps of the loop lead to.
pub match_actions : Traits → List (MergeAction TableSchema) → List Statement × List TableSchema
unfolding match_table
match_actions traits [] = ([], [])
match_actions traits (drop_extra to_table ∷ actions) =
    let (statements, tables) = match_actions traits actions in
    (drop_table to_table ∷ statements, tables)
match_actions traits (create_missing from_table ∷ actions) =
    append_table (create_table_statements traits from_table, from_table)
      (match_actions traits actions)
match_actions traits (match_both from_table to_table ∷ actions) =
    append_table (match_table traits from_table to_table) (match_actions traits actions)

pub match_tables : Traits → List TableSchema → List TableSchema → List Statement × List TableSchema
unfolding match_actions
match_tables traits from_tables to_tables = match_actions traits (
    merge (λ (t : TableSchema). t.name) (sort_by table_less to_tables)
      (sort_by table_less from_tables))

-- Two tables that the matcher takes for equal, or the same one.
abbrev pub IsMatch : TableSchema → TableSchema → Type 0
IsMatch from_table table =
    (table ≡ from_table)
    ⊎ (table ≡ sort_keys from_table)
    ⊎ (table_eq (sort_keys from_table) table ≡ true)

abbrev pub AreMatches : List TableSchema → List TableSchema → Type 0
AreMatches [] [] = Unit {0}
AreMatches [] (t ∷ tables) = ⊥
AreMatches (f ∷ froms) [] = ⊥
AreMatches (f ∷ froms) (t ∷ tables) = IsMatch f t × AreMatches froms tables

-- Whether it is altered or recreated, a table ends as one that equals the source's.
match_table-IsMatch :
    (traits : Traits) (from_table to_table : TableSchema)
    → IsMatch from_table (match_table traits from_table to_table).1
unfolding match_table alter_or_recreate
match_table-IsMatch traits from_table to_table =
    let from_sorted = sort_keys from_table in
    let to_sorted = sort_keys to_table in
    let altered = (match_keys from_sorted (match_columns traits from_sorted ([], to_sorted))).1 in
    elim (Bool-cases (table_eq from_sorted to_sorted)) [
      | inl e ↦ rw e (inr (inr e))
      | inr e ↦ elim (Bool-cases (table_eq from_sorted altered)) [
        | inl e' ↦ rw (e, e') (inr (inr e'))
        | inr e' ↦ rw (e, e') (inr (inl refl))
      ]
    ]

match_actions-AreMatches :
    (traits : Traits) (actions : List (MergeAction TableSchema))
    → AreMatches (sources (λ (t : TableSchema). t.name) actions) (match_actions traits actions).1
unfolding match_actions
match_actions-AreMatches traits [] = tt
match_actions-AreMatches traits (drop_extra t ∷ actions) = match_actions-AreMatches traits actions
match_actions-AreMatches traits (create_missing f ∷ actions) =
    (inl refl, match_actions-AreMatches traits actions)
match_actions-AreMatches traits (match_both f t ∷ actions) =
    (match_table-IsMatch traits f t, match_actions-AreMatches traits actions)

-- Whatever the tables are and however their names are ordered, matching ends with as many tables as
-- the source has, each of which equals the source's up to the order of its keys.
match_tables-AreMatches :
    (traits : Traits) (from_tables to_tables : List TableSchema)
    → AreMatches (sort_by table_less from_tables) (match_tables traits from_tables to_tables).1
unfolding match_tables
match_tables-AreMatches traits from_tables to_tables =
    let tos = sort_by table_less to_tables in
    let froms = sort_by table_less from_tables in
    let name : TableSchema → String = λ t. t.name in
    let actions = merge name tos froms in
    subst (λ fs. AreMatches fs (match_actions traits actions).1) (sources-merge name tos froms)
      (match_actions-AreMatches traits actions)
