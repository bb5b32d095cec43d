-- ===== src/Sync/Progress.antt =====
-- There is always a next step until everything is done (the loop of `sync_table` in
-- src/sync_to_algorithm.h).
use kitchen_sync.Common.{
  ℕ, ◌+◌, ◌≤◌, ◌≡◌, refl, ap, sym, ◌∙◌, ◌⊎◌, inl, inr, false, not, ◌||◌, List, [], ◌∷◌, ◌++◌, All,
  All-append, All-middle, arith, le_or_lt, ◌==◌, ==_refl, Bool-cases, List-cases, ltb, ◌&&◌,
}
use text.Mathlib.Text.{◌==◌ as str_eq}
use text.Mathlib.TextPositions.{eq_refl}
use Prim.Native.String.{String}
use kitchen_sync.Table.{RowFormat, Table, IsTable}
use kitchen_sync.Sync.{
  KeyRange, KeyRangeToCheck, TableJob, HashResult, HashCommand, BlockSizes, ok, hash_command_of,
  hash_result_of, handle_hash_command, handle_hash_response, queue_mismatch, hash_matches,
}
use kitchen_sync.Sync.Hashed.{IsCheck, IsHashed, send_hash_command_ok}
use kitchen_sync.Sync.Answer.{answered_job}
use kitchen_sync.Sync.Run.{
  InFlight, hashing, retrieving, State, Step, hash_sent, hash_answered, rows_requested,
  rows_applied, after_send, apply_rows,
}
use kitchen_sync.Sync.Invariant.{IsFlying, Inv}

-- Nothing is left to check, to retrieve or to wait for.
abbrev pub IsFinished : {F : RowFormat} → State F → Type 0
IsFinished s = (s.job.ranges_to_check ≡ []) × (s.job.ranges_to_retrieve ≡ []) × (s.flight ≡ [])

-- The name that the 'from' end echoes is the one that the response is compared with.
abbrev pub NamedAs : String → InFlight → Type 0
NamedAs name (hashing c h) = c.table_id ≡ name
NamedAs name (retrieving r) = Unit

abbrev pub IsNamed : {F : RowFormat} → State F → Type 0
IsNamed s = (s.job.table_id ≡ s.job.table_name) × All (NamedAs s.job.table_name) s.flight

-- A range of the greatest priority.
greatest_priority :
    (x : KeyRangeToCheck) (xs : List KeyRangeToCheck)
    → (before : List KeyRangeToCheck) × (r : KeyRangeToCheck) × (after : List KeyRangeToCheck) × (x
          ∷ xs
        ≡ before ++ (r ∷ after))
      × All (λ y. y.priority ≤ r.priority) (x ∷ xs)
greatest_priority x [] = ([], x, [], refl, (omega arith, tt))
greatest_priority x (y ∷ ys) =
    let (before, r, after, e, top) = greatest_priority y ys in
    elim (le_or_lt x.priority r.priority) [
      | inl le ↦ (x ∷ before, r, after, ap (λ q. x ∷ q) e, (le, top))
      | inr lt ↦ ([], x, y ∷ ys, refl, (omega arith, All_weaken (y ∷ ys) top (omega arith)))
    ]
  where
    All_weaken :
        {a b : ℕ} (zs : List KeyRangeToCheck)
        → All (λ z. z.priority ≤ a) zs
        → a ≤ b
        → All (λ z. z.priority ≤ b) zs
    All_weaken [] h k = tt
    All_weaken (z ∷ zs) (h, hs) k = (omega arith, All_weaken zs hs k)

module _ (F : RowFormat) (digest : List ℕ → List ℕ) (subdivide : ℕ → ℕ → ℕ) (sizes : BlockSizes)
    (source original : Table F) (wf : IsTable F original) where
  abbrev pub Next : State F → Type 0
  Next s = (t : State F) × Step F digest subdivide sizes source original s t × IsNamed t

  -- The 'from' end's answer to a command is accepted.
  pub handle_hash_response-accepted :
      (job : TableJob) (c : HashCommand) (h : HashResult)
      → IsHashed F digest original c h
      → c.table_id ≡ job.table_name
      → handle_hash_response sizes job (h ∷ []) (handle_hash_command F digest source c)
        ≡ ok (
          answered_job sizes job h (handle_hash_command F digest source c),
          [],
          job.notify_when_work_could_be_shared,
        )
  unfolding handle_hash_response handle_hash_command answered_job
  handle_hash_response-accepted job c h v named =
      let same_keys : (not (str_eq c.table_id job.table_name)
            || (not (c.prev_key == h.prev_key) || not (c.last_key == h.last_key)))
          ≡ false =
        simp
          (
            named,
            v.same_prev,
            v.same_last,
            eq_refl job.table_name,
            ==_refl h.prev_key,
            ==_refl h.last_key,
          )
          refl in
      rw same_keys refl

  answered-named :
      (job : TableJob) (c : HashCommand) (h : HashResult)
      → ((answered_job sizes job h (handle_hash_command F digest source c)).table_name
          ≡ job.table_name)
        × ((answered_job sizes job h (handle_hash_command F digest source c)).table_id
            ≡ job.table_id)
  unfolding answered_job queue_mismatch
  answered-named job c h =
      elim (Bool-cases (hash_matches h (handle_hash_command F digest source c))) [
        | inl m ↦ rw m (refl, refl)
        | inr n ↦
            rw n
              (elim (Bool-cases
                (ltb 1 h.our_row_count && ltb sizes.target_minimum_block_size h.our_size)) [
                  | inl t ↦ rw t (refl, refl)
                  | inr f ↦ rw f (refl, refl)
                ])
      ]

  module _ (s : State F) (v : Inv F digest source original s) (named : IsNamed s) where
    answer-Next :
        (c : HashCommand) (h : HashResult) (rest : List InFlight)
        → s.flight ≡ hashing c h ∷ rest
        → Next s
    answer-Next c h rest e =
        let (hashed, _) : All (IsFlying F digest source original) (hashing c h ∷ rest) =
          rw e at v.flying in
        let (name, names) : All (NamedAs s.job.table_name) (hashing c h ∷ rest) = rw e at named.1 in
        let (same_name, same_id) = answered-named s.job c h in
        (
          record s {
            job = answered_job sizes s.job h (handle_hash_command F digest source c);
            flight = rest;
          },
          hash_answered [] rest c h [] [] _ _ e
              (handle_hash_response-accepted s.job c h hashed name) refl,
          (same_id ∙ named.0 ∙ sym same_name, rw same_name names),
        )

    apply-Next : (r : KeyRange) (rest : List InFlight) → s.flight ≡ retrieving r ∷ rest → Next s
    apply-Next r rest e =
        let (_, names) : All (NamedAs s.job.table_name) (retrieving r ∷ rest) = rw e at named.1 in
        (
          record s {
            target = apply_rows F digest subdivide sizes source original s.target r;
            flight = rest;
          },
          rows_applied [] rest r e refl,
          (named.0, names),
        )

    request-Next :
        (r : KeyRange) (rest : List KeyRange) → s.job.ranges_to_retrieve ≡ r ∷ rest → Next s
    request-Next r rest e = (
      record s {
        job = record s.job { ranges_to_retrieve = rest; rows_commands = s.job.rows_commands + 1 };
        flight = s.flight ++ (retrieving r ∷ []);
      },
      rows_requested r rest e refl,
      (named.0, All-append (NamedAs s.job.table_name) s.flight _ named.1 (tt, tt)),
    )

    send-Next :
        (x : KeyRangeToCheck) (xs : List KeyRangeToCheck) → s.job.ranges_to_check ≡ x ∷ xs → Next s
    unfolding hash_command_of
    send-Next x xs e =
        let (before, r, after, d, top) = greatest_priority x xs in
        let waiting = (All-middle (IsCheck F original) before r after (rw (e ∙ d) at v.checks)).0 in
        (
          after_send F digest subdivide sizes source original s (before ++ after)
              (hash_command_of F digest s.job r)
              (hash_result_of F digest subdivide original s.job r),
          hash_sent before after r original _ _ (e ∙ d) (rw e top) wf (λ k lo hi. inl refl)
              (send_hash_command_ok F digest original subdivide original s.job r waiting) refl,
          (named.0, All-append (NamedAs s.job.table_name) s.flight _ named.1 (named.0, tt)),
        )

  -- In a state that satisfies the invariant, of a table whose id is its name and whose commands
  -- in flight carry that name, either nothing is left to do or there is a step, after which the
  -- names still agree.
  pub progress : (s : State F) → Inv F digest source original s → IsNamed s → IsFinished s ⊎ Next s
  progress s v named = elim (List-cases s.flight) [
    | inr (hashing c h, rest, e) ↦ inr (answer-Next s v named c h rest e)
    | inr (retrieving r, rest, e) ↦ inr (apply-Next s v named r rest e)
    | inl landed ↦ elim (List-cases s.job.ranges_to_retrieve) [
      | inr (r, rest, e) ↦ inr (request-Next s v named r rest e)
      | inl retrieved ↦ elim (List-cases s.job.ranges_to_check) [
        | inr (r, rest, e) ↦ inr (send-Next s v named r rest e)
        | inl checked ↦ inl (checked, retrieved, landed)
      ]
    ]
  ]
