-- ===== src/Sync/Coverage.antt =====
-- Which keys a set of ranges covers, counted so that overlaps show.
use kitchen_sync.Common.{
  ℕ, ◌+◌, ◌≤◌, ◌<◌, ◌≡◌, ◌⊎◌, ◌&&◌, List, [], ◌∷◌, ◌++◌, arith, ltb, leb, if◌then◌else◌,
}
use kitchen_sync.Sync.{KeyRange, KeyRangeToCheck, TableJob}

-- 1 if prev < key and key ≤ last, else 0.
abbrev pub weight : ℕ → ℕ → ℕ → ℕ
weight prev last key = if ltb prev key && leb key last then 1 else 0

pub weight_split :
    (prev mid last key : ℕ)
    → prev ≤ mid
    → mid ≤ last
    → weight prev last key ≡ weight prev mid key + weight mid last key
weight_split prev mid last key h k = ground arith

pub weight_cases :
    (prev last key : ℕ)
    → (weight prev last key ≡ 0) ⊎ ((prev < key) × (key ≤ last) × (weight prev last key ≡ 1))
weight_cases prev last key = grind arith

pub weight_empty : (key last : ℕ) → weight last last key ≡ 0
weight_empty key last = ground arith

module _ (key : ℕ) where
  abbrev pub count_checks : List KeyRangeToCheck → ℕ
  count_checks [] = 0
  count_checks (r ∷ rs) = weight r.prev_key r.last_key key + count_checks rs

  abbrev pub count_ranges : List KeyRange → ℕ
  count_ranges [] = 0
  count_ranges (r ∷ rs) = weight r.prev_key r.last_key key + count_ranges rs

  abbrev pub count_job : TableJob → ℕ
  count_job job = count_checks job.ranges_to_check + count_ranges job.ranges_to_retrieve

  pub count_checks-append :
      (xs ys : List KeyRangeToCheck) → count_checks (xs ++ ys) ≡ count_checks xs + count_checks ys
  count_checks-append [] ys = omega arith
  count_checks-append (x ∷ xs) ys = omega (arith, count_checks-append xs ys)

  pub count_ranges-append :
      (xs ys : List KeyRange) → count_ranges (xs ++ ys) ≡ count_ranges xs + count_ranges ys
  count_ranges-append [] ys = omega arith
  count_ranges-append (x ∷ xs) ys = omega (arith, count_ranges-append xs ys)
