-- ===== src/Sync/Tests.antt =====
-- The theorems of this folder at small tables: the source has three rows; the target has the first of
-- them, another value in the second and no third.
use kitchen_sync.Common.{
  ℕ, zero, suc, none, ◌+◌, ◌/◌, ◌≤◌, ◌<◌, ◌≡◌, refl, ap, ◌⊎◌, true, false, some, List, [], ◌∷◌,
  arith,
}
use text.Mathlib.Text.{◌==◌ as str_eq}
use kitchen_sync.Table.{Table, IsPresent, retrieve_rows, rows_in_range, scan, first_key}
use kitchen_sync.Table.Examples.{
  pair_format, rows_with, rows_with-IsTable, two_rows, two_rows-IsTable,
}
use kitchen_sync.Sync.{
  KeyRangeToCheck, TableJob, HashResult, HashCommand, BlockSizes, err, command_error,
  unknown_row_count, hash_command_of, hash_result_of, handle_hash_command, handle_hash_response,
  hash_matches, bytes_eq,
}
use kitchen_sync.Sync.Coverage.{weight, count_job}
use kitchen_sync.Sync.Answer.{answered_job, answered_job-covers}
use kitchen_sync.Sync.Hashed.{
  IsCheck, IsHashed, hash_result_of-IsHashed, hash_matches-agree, hashed_rows,
}
use kitchen_sync.Sync.Run.{State, Step, Reach, hashing, hash_answered}
use kitchen_sync.Sync.Converge.{Step-Inv}
use kitchen_sync.Sync.Invariant.{Inv}
use kitchen_sync.Sync.Committed.{IsCommitted, Inv-committed}
use kitchen_sync.Sync.Converge.Applied.{StartsAfter}
use kitchen_sync.Sync.Range.Views.{target-IsCommitted, start_sync_table-IsCommitted}
use kitchen_sync.Sync.Correct.{synced_when_finished}
use kitchen_sync.Sync.Range.{start_sync_table}
use kitchen_sync.Sync.Range.Start.{start_sync_table-Inv}
use kitchen_sync.Sync.Range.Named.{start_sync_table-IsNamed, start_sync_table-flight}
use kitchen_sync.Sync.Measure.{work_left, steps, steps_bounded}
use kitchen_sync.Sync.Progress.{IsFinished, Next, progress}
use kitchen_sync.Sync.Finish.{sync_table_finishes}
use kitchen_sync.Sync.Accept.{handle_hash_response_by_id}

-- A hash without collisions.
abbrev whole_digest : List ℕ → List ℕ
whole_digest bytes = bytes

abbrev halfway : ℕ → ℕ → ℕ
halfway a b = (a + b) / 2

abbrev small_blocks : BlockSizes
small_blocks = record { target_minimum_block_size = 2; target_maximum_block_size = 8 }

abbrev source : Table pair_format
source = rows_with 9 1

abbrev idle_job : TableJob
idle_job = record {
  table_name = "items";
  table_id = "items";
  subdividable = true;
  ranges_to_retrieve = [];
  ranges_to_check = [];
  notify_when_work_could_be_shared = false;
  hash_commands = 0;
  hash_commands_completed = 0;
  rows_commands = 0;
}

abbrev start : State pair_format
start = start_sync_table pair_format halfway source idle_job two_rows

abbrev Runs : State pair_format → Type 0
Runs s = Reach pair_format whole_digest halfway small_blocks source two_rows start s

start-Inv : Inv pair_format whole_digest source start.target start
start-Inv =
    start_sync_table-Inv pair_format source two_rows (rows_with-IsTable 9 1) two_rows-IsTable
      whole_digest halfway idle_job (refl, refl)

two_rows-StartsAfter : StartsAfter pair_format source two_rows
unfolding first_key rows_in_range scan
two_rows-StartsAfter zero r e = absurd (let h : none ≡ some r = e in cc)
two_rows-StartsAfter (suc k) r e = (omega arith, omega arith)

-- The target has no row before the source's first, so that other workers may see it as it was.
two_rows-IsCommitted : IsCommitted pair_format source start two_rows
two_rows-IsCommitted =
    target-IsCommitted pair_format source two_rows (rows_with-IsTable 9 1) two_rows-IsTable halfway
      idle_job whole_digest (refl, refl) two_rows-StartsAfter

committed-Inv : Inv pair_format whole_digest source two_rows start
committed-Inv =
    let (landed, _, _) = start_sync_table-flight pair_format halfway source two_rows idle_job in
    Inv-committed pair_format whole_digest source start two_rows start-Inv landed
      two_rows-IsCommitted

-- The writer alone may have had rows before.
start-IsCommitted : IsCommitted pair_format source start start.target
start-IsCommitted =
    start_sync_table-IsCommitted pair_format source two_rows (rows_with-IsTable 9 1)
      two_rows-IsTable halfway idle_job whole_digest (refl, refl)

sync_table_finishes_example :
    (s : State pair_format) × Runs s
    × IsFinished s
    × ((key : ℕ) → s.target.row_at key ≡ source.row_at key)
sync_table_finishes_example =
    sync_table_finishes pair_format whole_digest halfway small_blocks source (rows_with-IsTable 9 1)
      (λ xs ys e. e) two_rows two_rows-IsTable idle_job (refl, refl) refl two_rows
      two_rows-IsCommitted

finished_run : (s : State pair_format) × Runs s × IsFinished s
finished_run =
    let (s, run, done, _) =
      sync_table_finishes pair_format whole_digest halfway small_blocks source
        (rows_with-IsTable 9 1) (λ xs ys e. e) two_rows two_rows-IsTable idle_job (refl, refl) refl
        two_rows two_rows-IsCommitted in
    (s, run, done)

synced_when_finished_example : finished_run.0.target.row_at 2 ≡ some (2, 9)
synced_when_finished_example =
    synced_when_finished pair_format whole_digest halfway small_blocks source two_rows
      (rows_with-IsTable 9 1) two_rows-IsTable (λ xs ys e. e) idle_job finished_run.0 (refl, refl)
      two_rows two_rows-IsCommitted finished_run.1 finished_run.2 2

steps_bounded_example :
    steps pair_format two_rows two_rows-IsTable whole_digest halfway small_blocks source
        finished_run.1
      + work_left pair_format two_rows two_rows-IsTable finished_run.0
    ≤ work_left pair_format two_rows two_rows-IsTable start
steps_bounded_example =
    steps_bounded pair_format two_rows two_rows-IsTable whole_digest halfway small_blocks source
      committed-Inv (rows_with-IsTable 9 1) (λ xs ys e. e) two_rows-StartsAfter finished_run.1

progress_example :
    IsFinished start
    ⊎ Next pair_format whole_digest halfway small_blocks source two_rows two_rows-IsTable start
progress_example =
    progress pair_format whole_digest halfway small_blocks source two_rows two_rows-IsTable start
      committed-Inv (start_sync_table-IsNamed pair_format halfway source two_rows idle_job refl)

start_sync_table-Inv_example : Inv pair_format whole_digest source start.target start
start_sync_table-Inv_example =
    start_sync_table-Inv pair_format source two_rows (rows_with-IsTable 9 1) two_rows-IsTable
      whole_digest halfway idle_job (refl, refl)

-- The check of the target's two rows, the first block being the first of them.
abbrev first_check : KeyRangeToCheck
first_check = record {
  key_range = record { prev_key = 0; last_key = 2 };
  estimated_rows_in_range = unknown_row_count;
  rows_to_hash = 1;
  priority = 0;
}

first_check-IsCheck : IsCheck pair_format two_rows first_check
first_check-IsCheck = record {
  ordered = omega arith;
  ends = ((2, 5), refl);
  some_rows = omega arith;
}

abbrev first_command : HashCommand
first_command = hash_command_of pair_format whole_digest idle_job first_check

abbrev first_result : HashResult
first_result = hash_result_of pair_format whole_digest halfway two_rows idle_job first_check

first_result-IsHashed : IsHashed pair_format whole_digest two_rows first_command first_result
first_result-IsHashed =
    hash_result_of-IsHashed pair_format whole_digest two_rows two_rows-IsTable halfway two_rows
      idle_job first_check two_rows-IsTable first_check-IsCheck (λ k lo hi. refl)

hash_matches-agree_example : source.row_at 1 ≡ two_rows.row_at 1
unfolding hash_matches bytes_eq hash_result_of hash_command_of handle_hash_command retrieve_rows
    rows_in_range scan
hash_matches-agree_example =
    hash_matches-agree pair_format whole_digest two_rows two_rows-IsTable source
      (rows_with-IsTable 9 1) (λ xs ys e. e) first_result-IsHashed refl 1 (omega arith)
      (omega arith)

-- The same table in a schema.
abbrev schema_job : TableJob
schema_job = record idle_job { table_id = "warehouse.items" }

schema_command-IsHashed :
    IsHashed pair_format whole_digest two_rows
      (hash_command_of pair_format whole_digest schema_job first_check)
      (hash_result_of pair_format whole_digest halfway two_rows schema_job first_check)
schema_command-IsHashed =
    hash_result_of-IsHashed pair_format whole_digest two_rows two_rows-IsTable halfway two_rows
      schema_job first_check two_rows-IsTable first_check-IsCheck (λ k lo hi. refl)

handle_hash_response_by_id_example :
    handle_hash_response small_blocks schema_job
      (hash_result_of pair_format whole_digest halfway two_rows schema_job first_check ∷ [])
      (handle_hash_command pair_format whole_digest source
        (hash_command_of pair_format whole_digest schema_job first_check))
    ≡ err command_error
unfolding hash_command_of
handle_hash_response_by_id_example =
    (handle_hash_response_by_id pair_format whole_digest halfway small_blocks source two_rows
        two_rows-IsTable schema_job _ _ schema_command-IsHashed refl).1
      (λ (e : schema_job.table_id ≡ schema_job.table_name).
        let t : false ≡ true = ap (λ name. str_eq name "items") e in cc)

answered_job-covers_example :
    (hash_matches first_result (handle_hash_command pair_format whole_digest source first_command)
        ≡ false)
      × (count_job 2 (
            answered_job small_blocks idle_job first_result
              (handle_hash_command pair_format whole_digest source first_command))
          ≡ weight first_result.prev_key first_result.last_key 2 + count_job 2 idle_job)
    ⊎ (hash_matches first_result (handle_hash_command pair_format whole_digest source first_command)
        ≡ true)
      × (count_job 2 (
              answered_job small_blocks idle_job first_result
                (handle_hash_command pair_format whole_digest source first_command))
            + weight first_result.prev_key first_result.our_last_key 2
          ≡ weight first_result.prev_key first_result.last_key 2 + count_job 2 idle_job)
unfolding handle_hash_command
answered_job-covers_example =
    answered_job-covers pair_format whole_digest two_rows two_rows-IsTable small_blocks
      first_result-IsHashed idle_job _ 2 refl

hashed_rows_example :
    (1 ≤ first_result.our_row_count)
    × (first_result.our_row_count ≤ first_command.rows_to_hash)
    × (first_result.prev_key < first_result.our_last_key)
    × (first_result.our_last_key ≤ first_result.last_key)
    × IsPresent pair_format two_rows first_result.our_last_key
    × (first_result.our_row_count < first_command.rows_to_hash
        → first_result.our_last_key ≡ first_result.last_key)
hashed_rows_example =
    hashed_rows pair_format whole_digest two_rows two_rows-IsTable first_result-IsHashed

-- A hash of the first row is on its way, of three rows whose second differs.
abbrev differing : Table pair_format
differing = rows_with 5 1

abbrev whole_check : KeyRangeToCheck
whole_check = record first_check { key_range = record { prev_key = 0; last_key = 3 } }

whole_result-IsHashed :
    IsHashed pair_format whole_digest differing
      (hash_command_of pair_format whole_digest idle_job whole_check)
      (hash_result_of pair_format whole_digest halfway differing idle_job whole_check)
whole_result-IsHashed =
    hash_result_of-IsHashed pair_format whole_digest differing (rows_with-IsTable 5 1) halfway
      differing idle_job whole_check (rows_with-IsTable 5 1)
      (record { ordered = omega arith; ends = ((3, 1), refl); some_rows = omega arith })
      (λ k lo hi. refl)

abbrev waiting : State pair_format
waiting = record {
  job = idle_job;
  flight =
      hashing (hash_command_of pair_format whole_digest idle_job whole_check)
        (hash_result_of pair_format whole_digest halfway differing idle_job whole_check)
      ∷ [];
  target = differing;
}

differing-StartsAfter : StartsAfter pair_format source differing
unfolding first_key rows_in_range scan
differing-StartsAfter zero r e = absurd (let h : none ≡ some r = e in cc)
differing-StartsAfter (suc k) r e = (omega arith, omega arith)

waiting-Inv : Inv pair_format whole_digest source differing waiting
unfolding hash_result_of
waiting-Inv = record {
  once = λ k. ground arith;
  synced = λ k z. ground arith;
  untouched = λ k z. refl;
  checks = tt;
  retrieves = tt;
  flying = (whole_result-IsHashed, tt);
}

abbrev answered : State pair_format
answered = record {
  job =
      answered_job small_blocks idle_job
        (hash_result_of pair_format whole_digest halfway differing idle_job whole_check)
        (handle_hash_command pair_format whole_digest source
          (hash_command_of pair_format whole_digest idle_job whole_check));
  flight = [];
  target = differing;
}

answer : Step pair_format whole_digest halfway small_blocks source differing waiting answered
unfolding hash_command_of
answer =
    hash_answered [] [] _ _ [] [] _ _ refl
      ((handle_hash_response_by_id pair_format whole_digest halfway small_blocks source differing
          (rows_with-IsTable 5 1) idle_job _ _ whole_result-IsHashed refl).0
        refl)
      refl

Step-Inv_example : Inv pair_format whole_digest source differing answered
Step-Inv_example =
    Step-Inv pair_format whole_digest halfway small_blocks source differing (rows_with-IsTable 9 1)
      (rows_with-IsTable 5 1) (λ xs ys e. e) differing-StartsAfter waiting answered waiting-Inv
      answer

target-IsCommitted_example : IsCommitted pair_format source start two_rows
target-IsCommitted_example =
    target-IsCommitted pair_format source two_rows (rows_with-IsTable 9 1) two_rows-IsTable halfway
      idle_job whole_digest (refl, refl) two_rows-StartsAfter
