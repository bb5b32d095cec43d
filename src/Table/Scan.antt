-- ===== src/Table/Scan.antt =====
-- Which rows a query of a range returns.
use kitchen_sync.Common.{
  ℕ, zero, suc, ◌+◌, ◌≤◌, ◌<◌, ◌≡◌, ◌≢◌, refl, ◌⊎◌, inl, inr, Option, none, some, ◌∷◌, length,
  ℕ_discrete, take, arith, Option-cases,
}
use kitchen_sync.Table.{RowFormat, scan, last_key_from}

module _ (F : RowFormat) (f : ℕ → Option F.Row) where
  open F use {Row, key_of}

  abbrev pub IsPlaced : Type 0
  IsPlaced = (k : ℕ) (r : Row) → f k ≡ some r → key_of r ≡ k

  pub scan_step_none : (n p : ℕ) → f (suc p) ≡ none → scan F f (suc n) p ≡ scan F f n (suc p)
  unfolding scan
  scan_step_none n p e = rw e

  pub scan_step_some :
      (n p : ℕ) {r : Row} → f (suc p) ≡ some r → scan F f (suc n) p ≡ r ∷ scan F f n (suc p)
  unfolding scan
  scan_step_some n p e = rw e

  -- The last key of a limited scan is at most the end of the range, and not before its start.
  pub last_key-scan_bounds :
      (n p m acc : ℕ)
      → IsPlaced
      → acc ≤ p
      → (acc ≤ last_key_from F acc (take m (scan F f n p)))
        × (last_key_from F acc (take m (scan F f n p)) ≤ p + n)
  last_key-scan_bounds n p zero acc placed h = omega arith
  last_key-scan_bounds zero p (suc m) acc placed h = unfold scan in omega arith
  last_key-scan_bounds (suc n) p (suc m) acc placed h = elim (Option-cases (f (suc p))) [
    | inl e ↦
        let ih = last_key-scan_bounds n (suc p) (suc m) acc placed (omega arith) in
        rw (scan_step_none n p e) (omega arith)
    | inr (r, e) ↦
        let k = placed (suc p) r e in
        let ih = last_key-scan_bounds n (suc p) m (key_of r) placed (omega arith) in
        rw (scan_step_some n p e) (omega arith)
  ]

  -- A row in the range makes the result non-empty.
  pub scan_present :
      (n p m k : ℕ) (r : Row)
      → f k ≡ some r
      → p < k
      → k ≤ p + n
      → 1 ≤ m
      → 1 ≤ length (take m (scan F f n p))
  scan_present n p zero k r e lo hi h = absurd (omega arith)
  scan_present zero p (suc m) k r e lo hi h = absurd (omega arith)
  scan_present (suc n) p (suc m) k r e lo hi h = elim (Option-cases (f (suc p))) [
    | inl d ↦
        let ne : suc p ≢ k = λ (q : suc p ≡ k). cc in
        rw (scan_step_none n p d)
          (scan_present n (suc p) (suc m) k r e (omega arith) (omega arith) (omega arith))
    | inr (s, d) ↦ rw (scan_step_some n p d) (omega arith)
  ]

  -- A result that is shorter than its limit has reached every row of the range.
  pub last_key_covers :
      (n p m acc k : ℕ) (r : Row)
      → IsPlaced
      → length (take m (scan F f n p)) < m
      → f k ≡ some r
      → p < k
      → k ≤ p + n
      → k ≤ last_key_from F acc (take m (scan F f n p))
  last_key_covers n p zero acc k r placed short e lo hi = absurd (omega arith)
  last_key_covers zero p (suc m) acc k r placed short e lo hi = absurd (omega arith)
  last_key_covers (suc n) p (suc m) acc k r placed short e lo hi = elim (Option-cases (f (suc p))) [
    | inl d ↦
        let ne : suc p ≢ k = λ (q : suc p ≡ k). cc in
        let short' = rw (scan_step_none n p d) at short in
        rw (scan_step_none n p d)
          (last_key_covers n (suc p) (suc m) acc k r placed short' e (omega arith) (omega arith))
    | inr (s, d) ↦
        let short' = rw (scan_step_some n p d) at short in
        let place = placed (suc p) s d in
        rw (scan_step_some n p d) (elim (ℕ_discrete (suc p) k) [
          | yes q ↦
              let (above, _) = last_key-scan_bounds n (suc p) m (key_of s) placed (omega arith) in
              omega arith
          | no ne ↦
              last_key_covers n (suc p) m (key_of s) k r placed (omega arith) e (omega arith)
                (omega arith)
        ])
  ]

  -- The last key is that of a row of the range, unless nothing was found.
  pub last_key_present :
      (n p m acc : ℕ)
      → IsPlaced
      → ((length (take m (scan F f n p)) ≡ 0) × (last_key_from F acc (take m (scan F f n p)) ≡ acc))
        ⊎ ((r : Row) × (f (last_key_from F acc (take m (scan F f n p))) ≡ some r)
            × (p < last_key_from F acc (take m (scan F f n p))))
  last_key_present n p zero acc placed = inl (refl, refl)
  last_key_present zero p (suc m) acc placed = unfold scan in inl (refl, refl)
  last_key_present (suc n) p (suc m) acc placed = elim (Option-cases (f (suc p))) [
    | inl d ↦ rw (scan_step_none n p d) (elim (last_key_present n (suc p) (suc m) acc placed) [
      | inl none_found ↦ inl none_found
      | inr (r, e, lo) ↦ inr (r, e, omega arith)
    ])
    | inr (s, d) ↦
        let place = placed (suc p) s d in
        rw (scan_step_some n p d) (elim (last_key_present n (suc p) m (key_of s) placed) [
          | inl (_, e) ↦ inr (s, rw (e, place) d, omega arith)
          | inr (r, e, lo) ↦ inr (r, e, omega arith)
        ])
  ]
