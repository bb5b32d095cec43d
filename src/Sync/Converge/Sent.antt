-- ===== src/Sync/Converge/Sent.antt =====
-- Sending a command moves a range from the queues into the pipeline.
use kitchen_sync.Common.{
  ℕ, ◌+◌, ◌≡◌, sym, ap, ◌∙◌, inl, inr, List, [], ◌∷◌, ◌++◌, All-append, All-middle, arith,
}
use kitchen_sync.Table.{RowFormat, Table, IsTable}
use kitchen_sync.Sync.{KeyRange, KeyRangeToCheck, HashResult, HashCommand, BlockSizes}
use kitchen_sync.Sync.Coverage.{weight, count_checks, count_ranges}
use kitchen_sync.Sync.Hashed.{IsCheck, IsHashed, Shows}
use kitchen_sync.Sync.Run.{hashing, retrieving, State, count_flight, pending, Sees, after_send}
use kitchen_sync.Sync.Invariant.{IsFlying, Inv, count_flight-append, count_checks_middle}

module _ (F : RowFormat) (digest : List ℕ → List ℕ) (subdivide : ℕ → ℕ → ℕ) (sizes : BlockSizes)
    (source original : Table F) (wf : IsTable F original) where
  -- A range that waits shows its original rows to every worker.
  pub waiting-Shows :
      (s : State F) (before after : List KeyRangeToCheck) (r : KeyRangeToCheck) (view : Table F)
      → Inv F digest source original s
      → s.job.ranges_to_check ≡ before ++ (r ∷ after)
      → Sees F digest subdivide sizes source original s r view
      → Shows F digest original wf view r.prev_key r.last_key
  waiting-Shows s before after r view v e sees k lo hi = elim (sees k lo hi) [
    | inl same ↦ same
    | inr now ↦
        let covered : weight r.prev_key r.last_key k ≡ 1 = ground arith in
        let whole = ap (count_checks k) e ∙ count_checks_middle k before r after in
        now ∙ v.untouched k (omega (arith, v.once k))
  ]

  pub hash_sent-Inv :
      (s : State F) (before after : List KeyRangeToCheck) (r : KeyRangeToCheck) (c : HashCommand)
      (h : HashResult)
      → Inv F digest source original s
      → s.job.ranges_to_check ≡ before ++ (r ∷ after)
      → IsHashed F digest original c h
      → h.prev_key ≡ r.prev_key
      → h.last_key ≡ r.last_key
      → Inv F digest source original
          (after_send F digest subdivide sizes source original s (before ++ after) c h)
  hash_sent-Inv s before after r c h v e hashed ep el = record {
    once = λ k. rw (same k) (v.once k);
    synced = λ k z. v.synced k (sym (same k) ∙ z);
    untouched = λ k z. v.untouched k (sym (same k) ∙ z);
    checks = (All-middle (IsCheck F original) before r after (rw e at v.checks)).1;
    retrieves = v.retrieves;
    flying = All-append (IsFlying F digest source original) s.flight _ v.flying (hashed, tt);
  }
    where
      same :
          (k : ℕ)
          → pending k (after_send F digest subdivide sizes source original s (before ++ after) c h)
            ≡ pending k s
      same k =
          let whole = ap (count_checks k) e ∙ count_checks_middle k before r after in
          let weights : weight h.prev_key h.last_key k ≡ weight r.prev_key r.last_key k =
            rw (ep, el) in
          omega (arith, count_flight-append k s.flight (hashing c h ∷ []))

  pub rows_requested-Inv :
      (s t : State F) (r : KeyRange) (rest : List KeyRange)
      → Inv F digest source original s
      → s.job.ranges_to_retrieve ≡ r ∷ rest
      → t ≡ record s {
        job = record s.job { ranges_to_retrieve = rest; rows_commands = s.job.rows_commands + 1 };
        flight = s.flight ++ (retrieving r ∷ []);
      }
      → Inv F digest source original t
  rows_requested-Inv s t r rest v e d = rw d (record {
    once = λ k. rw (same k) (v.once k);
    synced = λ k z. v.synced k (sym (same k) ∙ z);
    untouched = λ k z. v.untouched k (sym (same k) ∙ z);
    checks = v.checks;
    retrieves = (rw e at v.retrieves).1;
    flying =
        All-append (IsFlying F digest source original) s.flight _ v.flying
          ((rw e at v.retrieves).0, tt);
  })
    where
      same :
          (k : ℕ)
          → count_checks k s.job.ranges_to_check
              + count_ranges k rest
              + count_flight k (s.flight ++ (retrieving r ∷ []))
            ≡ pending k s
      same k =
          let whole = ap (count_ranges k) e in
          omega (arith, count_flight-append k s.flight (retrieving r ∷ []))
