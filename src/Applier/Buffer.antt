-- ===== src/Applier/Buffer.antt =====
-- Rows kept by their keys.
use kitchen_sync.Common.{
  refl, ==→eq, &&-true, inr, arith, inl, if◌then◌else◌, Bool-cases, ℕ, ◌≡◌, ◌==◌, none, List, [],
  ◌∷◌,
}
use kitchen_sync.Applier.{true, put_row, same_bytes, find_row, erase_row}

module _ {ℓ} {A : Type ℓ} where
  pub find_row-erase_row :
      (k j : ℕ) (rows : List (ℕ × A))
      → find_row k (erase_row j rows) ≡ (if k == j then none else find_row k rows)
  find_row-erase_row k j [] = ground arith
  find_row-erase_row k j ((i, row) ∷ rows) = ground (arith, find_row-erase_row k j rows)

  abbrev pub AreDistinct : List (ℕ × A) → Type ℓ
  AreDistinct [] = Unit {ℓ}
  AreDistinct ((k, row) ∷ rows) = (find_row k rows ≡ none) × AreDistinct rows

  pub AreDistinct-erase_row :
      (j : ℕ) (rows : List (ℕ × A)) → AreDistinct rows → AreDistinct (erase_row j rows)
  AreDistinct-erase_row j [] d = tt
  AreDistinct-erase_row j ((k, row) ∷ rows) (absent, d) = elim (Bool-cases (j == k)) [
    | inl e ↦ rw e (AreDistinct-erase_row j rows d)
    | inr e ↦ rw e (ground (arith, find_row-erase_row k j rows), AreDistinct-erase_row j rows d)
  ]

  pub AreDistinct-put_row :
      (k : ℕ) (row : A) (rows : List (ℕ × A)) → AreDistinct rows → AreDistinct (put_row k row rows)
  AreDistinct-put_row k row rows d =
      (ground (arith, find_row-erase_row k k rows), AreDistinct-erase_row k rows d)

pub same_bytes-eq : (xs ys : List ℕ) → same_bytes xs ys ≡ true → xs ≡ ys
unfolding same_bytes
same_bytes-eq [] [] e = refl
same_bytes-eq [] (y ∷ ys) e = absurd (ground arith)
same_bytes-eq (x ∷ xs) [] e = absurd (ground arith)
same_bytes-eq (x ∷ xs) (y ∷ ys) e =
    let (head, tail) = &&-true (x == y) (same_bytes xs ys) e in
    let same = ==→eq x y head in let rest = same_bytes-eq xs ys tail in cc
