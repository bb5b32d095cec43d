-- ===== src/Sync/Converge/Answered.antt =====
-- An answered hash drops the part of its range that matched.
use kitchen_sync.Common.{
  ℕ, ◌+◌, ◌≡◌, refl, sym, ap, ◌∙◌, ◌⊎◌, inl, inr, true, false, List, ◌∷◌, ◌++◌, All-middle, arith,
}
use kitchen_sync.Table.{RowFormat, Table, IsTable}
use kitchen_sync.Sync.{
  HashResult, HashCommand, HashResponse, BlockSizes, handle_hash_command, hash_matches,
}
use kitchen_sync.Sync.Coverage.{weight, weight_cases}
use kitchen_sync.Sync.Hashed.{IsHashed, hash_matches-agree}
use kitchen_sync.Sync.Answer.{
  answered_job, answered_job-covers, answered_job-IsCheck, answered_job-IsRetrieve,
}
use kitchen_sync.Sync.Run.{InFlight, hashing, State, count_flight, pending}
use kitchen_sync.Sync.Invariant.{IsFlying, Inv, count_flight_middle}

module _ (F : RowFormat) (digest : List ℕ → List ℕ) (sizes : BlockSizes) (source original : Table F)
    (wf_source : IsTable F source) (wf : IsTable F original)
    (no_collision : (xs ys : List ℕ) → digest xs ≡ digest ys → xs ≡ ys) where
  -- What is left after an accepted response.
  module _ (s : State F) (before after : List InFlight) (c : HashCommand) (h : HashResult)
      (v : Inv F digest source original s) (e : s.flight ≡ before ++ (hashing c h ∷ after)) where
    abbrev pub response : HashResponse
    response = handle_hash_command F digest source c

    abbrev pub answered : State F
    answered = record s { job = answered_job sizes s.job h response; flight = before ++ after }

    hashed : IsHashed F digest original c h
    hashed = (All-middle (IsFlying F digest source original) before _ after (rw e at v.flying)).0

    answered-pending :
        (k : ℕ)
        → ((hash_matches h response ≡ false) × (pending k answered ≡ pending k s))
          ⊎ ((hash_matches h response ≡ true)
              × (pending k answered + weight h.prev_key h.our_last_key k ≡ pending k s))
    unfolding handle_hash_command
    answered-pending k =
        let whole = ap (count_flight k) e ∙ count_flight_middle k before (hashing c h) after in
        elim (answered_job-covers F digest original wf sizes hashed s.job response k refl) [
          | inl (n, same) ↦ inl (n, omega arith)
          | inr (m, fewer) ↦ inr (m, omega arith)
        ]

    pub answered-Inv : Inv F digest source original answered
    unfolding handle_hash_command
    answered-Inv = record {
      once = λ k. elim (answered-pending k) [
        | inl (_, same) ↦ omega (arith, v.once k)
        | inr (_, fewer) ↦ omega (arith, v.once k)
      ];
      synced = λ k z. elim (answered-pending k) [
        | inl (_, same) ↦ v.synced k (sym same ∙ z)
        | inr (m, fewer) ↦ elim (weight_cases h.prev_key h.our_last_key k) [
          | inl w ↦ v.synced k (omega arith)
          | inr (lo, hi, w) ↦
              v.untouched k (omega arith)
              ∙ sym (
                  hash_matches-agree F digest original wf source wf_source no_collision hashed m k
                    lo hi)
        ]
      ];
      untouched = λ k z. elim (answered-pending k) [
        | inl (_, same) ↦ v.untouched k (sym same ∙ z)
        | inr (m, fewer) ↦ v.untouched k (omega (arith, v.once k))
      ];
      checks = answered_job-IsCheck F digest original wf sizes hashed s.job response refl v.checks;
      retrieves =
          answered_job-IsRetrieve F digest original wf sizes hashed s.job response v.retrieves;
      flying = (All-middle (IsFlying F digest source original) before _ after (rw e at v.flying)).1;
    }
