-- ===== src/Sync/Accept.antt =====
-- Which hash responses the 'to' end takes (`handle_hash_response` of src/sync_to_algorithm.h), given that the
-- 'from' end echoes the table id of the command (`send_hash_response` of src/sync_from.h).
use kitchen_sync.Common.{ℕ, ◌≡◌, ◌≢◌, refl, ◌∙◌, sym, List, [], ◌∷◌, Bool-cases, inl, inr}
use text.Mathlib.Text.{◌==◌ as str_eq}
use text.Mathlib.TextEquality.{eq_iff}
use kitchen_sync.Table.{RowFormat, Table, IsTable}
use kitchen_sync.Sync.{
  TableJob, HashResult, HashCommand, BlockSizes, ok, err, command_error, handle_hash_command,
  handle_hash_response,
}
use kitchen_sync.Sync.Hashed.{IsHashed}
use kitchen_sync.Sync.Answer.{answered_job}
use kitchen_sync.Sync.Progress.{handle_hash_response-accepted}

module _ (F : RowFormat) (digest : List ℕ → List ℕ) (subdivide : ℕ → ℕ → ℕ) (sizes : BlockSizes)
    (source original : Table F) (wf : IsTable F original) where
  -- For a hash that was taken of our rows and a command with the job's table id: the 'from' end's
  -- answer to it is accepted if the table's id is its name, and is refused with a command error
  -- if it is not, as for a table in a named schema.
  pub handle_hash_response_by_id :
      (job : TableJob) (c : HashCommand) (h : HashResult)
      → IsHashed F digest original c h
      → c.table_id ≡ job.table_id
      → (job.table_id ≡ job.table_name
          → handle_hash_response sizes job (h ∷ []) (handle_hash_command F digest source c)
            ≡ ok (
              answered_job sizes job h (handle_hash_command F digest source c),
              [],
              job.notify_when_work_could_be_shared,
            ))
        × (job.table_id ≢ job.table_name
            → handle_hash_response sizes job (h ∷ []) (handle_hash_command F digest source c)
              ≡ err command_error)
  unfolding handle_hash_response handle_hash_command
  handle_hash_response_by_id job c h v sent = (
    λ same.
        handle_hash_response-accepted F digest subdivide sizes source original wf job c h v
          (sent ∙ same),
    λ other. elim (Bool-cases (str_eq c.table_id job.table_name)) [
      | inl t ↦ absurd (other (sym sent ∙ (eq_iff c.table_id job.table_name).0 t))
      | inr f ↦ rw f refl
    ],
  )
