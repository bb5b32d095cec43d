-- ===== src/Sync/Invariant.antt =====
-- What every step keeps: each key that may still differ is in exactly one range that is left to do.
use kitchen_sync.Common.{ℕ, ◌+◌, ◌≤◌, ◌≡◌, List, [], ◌∷◌, ◌++◌, All, arith}
use kitchen_sync.Table.{RowFormat, Table}
use kitchen_sync.Sync.{KeyRangeToCheck}
use kitchen_sync.Sync.Coverage.{weight, count_checks, count_checks-append}
use kitchen_sync.Sync.Hashed.{IsRetrieve, IsCheck, IsHashed}
use kitchen_sync.Sync.Run.{
  InFlight, hashing, retrieving, State, flight_weight, count_flight, pending,
}

module _ (F : RowFormat) (digest : List ℕ → List ℕ) (source original : Table F) where
  abbrev pub IsFlying : InFlight → Type 0
  IsFlying (hashing c h) = IsHashed F digest original c h
  IsFlying (retrieving r) = IsRetrieve F original r

  pub record Inv (s : State F) : Type 0 where
    pub once : (k : ℕ) → pending k s ≤ 1
    pub synced : (k : ℕ) → pending k s ≡ 0 → s.target.row_at k ≡ source.row_at k
    pub untouched : (k : ℕ) → pending k s ≡ 1 → s.target.row_at k ≡ original.row_at k
    pub checks : All (IsCheck F original) s.job.ranges_to_check
    pub retrieves : All (IsRetrieve F original) s.job.ranges_to_retrieve
    pub flying : All IsFlying s.flight

module _ (key : ℕ) where
  pub count_flight-append :
      (xs ys : List InFlight)
      → count_flight key (xs ++ ys) ≡ count_flight key xs + count_flight key ys
  count_flight-append [] ys = omega arith
  count_flight-append (x ∷ xs) ys = omega (arith, count_flight-append xs ys)

  -- Taking a command out of the pipeline takes its range out of what is pending.
  pub count_flight_middle :
      (xs : List InFlight) (y : InFlight) (ys : List InFlight)
      → count_flight key (xs ++ (y ∷ ys)) ≡ flight_weight key y + count_flight key (xs ++ ys)
  count_flight_middle xs y ys =
      omega (arith, count_flight-append xs (y ∷ ys), count_flight-append xs ys)

  pub count_checks_middle :
      (xs : List KeyRangeToCheck) (y : KeyRangeToCheck) (ys : List KeyRangeToCheck)
      → count_checks key (xs ++ (y ∷ ys))
        ≡ weight y.prev_key y.last_key key + count_checks key (xs ++ ys)
  count_checks_middle xs y ys =
      omega (arith, count_checks-append key xs (y ∷ ys), count_checks-append key xs ys)
