-- ===== src/Table/Window.antt =====
-- Two tables compared over a range of keys.
use kitchen_sync.Common.{
  ℕ, zero, suc, ◌+◌, ◌≤◌, ◌<◌, ◌≡◌, ◌≢◌, refl, sym, ap, ◌∙◌, ◌⊎◌, inl, inr, Option, some, List, [],
  ◌∷◌, length, length-append, take, ℕ_discrete, arith, Option-cases, ∷-injective,
}
use kitchen_sync.Table.{RowFormat, scan, last_key_from, first_key_of, packed_rows}
use kitchen_sync.Table.Scan.{IsPlaced, scan_step_none, scan_step_some}

-- Rows that are written to the hash as the same bytes are the same rows.
pub packed_rows-injective :
    (F : RowFormat) (xs ys : List F.Row) → packed_rows F xs ≡ packed_rows F ys → xs ≡ ys
packed_rows-injective F [] [] e = refl
packed_rows-injective F [] (y ∷ ys) e =
    let size = ap length e in
    absurd (omega (arith, length-append (F.packed y) (packed_rows F ys), F.packed_nonempty y))
packed_rows-injective F (x ∷ xs) [] e =
    let size = ap length e in
    absurd (omega (arith, length-append (F.packed x) (packed_rows F xs), F.packed_nonempty x))
packed_rows-injective F (x ∷ xs) (y ∷ ys) e =
    let (head, rest) = F.self_delimiting x y (packed_rows F xs) (packed_rows F ys) e in
    let tail = packed_rows-injective F xs ys rest in cc

pub length-packed_rows : (F : RowFormat) (xs : List F.Row) → length xs ≤ length (packed_rows F xs)
length-packed_rows F [] = omega arith
length-packed_rows F (x ∷ xs) = omega (
  arith,
  length-append (F.packed x) (packed_rows F xs),
  F.packed_nonempty x,
  length-packed_rows F xs,
)

module _ (F : RowFormat) where
  open F use {Row, key_of}

  -- A scan reads only the positions of its range.
  pub scan_local :
      (f g : ℕ → Option Row) (n p : ℕ)
      → ((k : ℕ) → p < k → k ≤ p + n → f k ≡ g k)
      → scan F f n p ≡ scan F g n p
  unfolding scan
  scan_local f g zero p same = refl
  scan_local f g (suc n) p same = rw (
    same (suc p) (omega arith) (omega arith),
    scan_local f g n (suc p) (λ k lo hi. same k (omega arith) (omega arith)),
  )

  -- The first key found is a key of the range.
  pub first_key-scan :
      (f : ℕ → Option Row) (n p : ℕ)
      → IsPlaced F f
      → (first_key_of F (scan F f n p) ≡ 0)
        ⊎ ((r : Row) × (f (first_key_of F (scan F f n p)) ≡ some r)
            × (p < first_key_of F (scan F f n p))
            × (first_key_of F (scan F f n p) ≤ p + n))
  first_key-scan f zero p placed = unfold scan in inl refl
  first_key-scan f (suc n) p placed = elim (Option-cases (f (suc p))) [
    | inl d ↦ rw (scan_step_none F f n p d) (elim (first_key-scan f n (suc p) placed) [
      | inl nothing ↦ inl nothing
      | inr (r, e, lo, hi) ↦ inr (r, e, omega arith, omega arith)
    ])
    | inr (s, d) ↦
        let place = placed (suc p) s d in
        rw (scan_step_some F f n p d) (inr (s, rw place d, omega arith, omega arith))
  ]

  -- A scan that starts with a row at `suc p` is no scan of the positions above `suc p`.
  head_above :
      (g : ℕ → Option Row) (n p m : ℕ) (r : Row) (rows : List Row)
      → IsPlaced F g
      → key_of r ≤ p
      → take m (scan F g n p) ≢ r ∷ rows
  head_above g n p zero r rows placed k e = cc
  head_above g zero p (suc m) r rows placed k e = unfold scan in cc
  head_above g (suc n) p (suc m) r rows placed k e = elim (Option-cases (g (suc p))) [
    | inl d ↦
        head_above g n (suc p) (suc m) r rows placed (omega arith)
          (rw (scan_step_none F g n p d) at e)
    | inr (s, d) ↦
        let place = placed (suc p) s d in
        let e' = rw (scan_step_some F g n p d) at e in ground arith
  ]

  -- Where two limited scans of a range give the same rows, the tables agree up to the last of them.
  pub scan_agree :
      (f g : ℕ → Option Row) (n p m acc k : ℕ)
      → IsPlaced F f
      → IsPlaced F g
      → take m (scan F f n p) ≡ take m (scan F g n p)
      → acc ≤ p
      → p < k
      → k ≤ last_key_from F acc (take m (scan F g n p))
      → f k ≡ g k
  scan_agree f g n p zero acc k pf pg e h lo hi = absurd (omega arith)
  scan_agree f g zero p (suc m) acc k pf pg e h lo hi = unfold scan in absurd (omega arith)
  scan_agree f g (suc n) p (suc m) acc k pf pg e h lo hi = elim (Option-cases (f (suc p))) [
    | inl a ↦ elim (Option-cases (g (suc p))) [
      | inl b ↦
          let e' = rw (scan_step_none F f n p a, scan_step_none F g n p b) at e in
          let hi' = rw (scan_step_none F g n p b) at hi in
          elim (ℕ_discrete (suc p) k) [
            | yes q ↦ rw (← q) (a ∙ sym b)
            | no ne ↦
                scan_agree f g n (suc p) (suc m) acc k pf pg e' (omega arith) (omega arith) hi'
          ]
      | inr (s, b) ↦
          let place = pg (suc p) s b in
          let e' = rw (scan_step_none F f n p a, scan_step_some F g n p b) at e in
          absurd (head_above f n (suc p) (suc m) s _ pf (omega arith) e')
    ]
    | inr (r, a) ↦ elim (Option-cases (g (suc p))) [
      | inl b ↦
          let place = pf (suc p) r a in
          let e' = rw (scan_step_some F f n p a, scan_step_none F g n p b) at e in
          absurd (head_above g n (suc p) (suc m) r _ pg (omega arith) (sym e'))
      | inr (s, b) ↦
          let place = pg (suc p) s b in
          let e' = rw (scan_step_some F f n p a, scan_step_some F g n p b) at e in
          let hi' = rw (scan_step_some F g n p b) at hi in
          elim (ℕ_discrete (suc p) k) [
            | yes q ↦ rw (← q) (a ∙ ap some (∷-injective e').0 ∙ sym b)
            | no ne ↦
                scan_agree f g n (suc p) m (key_of s) k pf pg (∷-injective e').1 (omega arith)
                  (omega arith) hi'
          ]
    ]
  ]
