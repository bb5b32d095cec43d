-- ===== src/Schema/Ids.antt =====
-- What the table ids tell apart.
use package.text.Mathlib.Text.{◌==◌ as str_eq}
use kitchen_sync.Common.{
  List-cases, ∷-injective, ◌≢◌, Bool-cases, ℕ, ◌≡◌, refl, ap, sym, ◌∙◌, true, false, ◌&&◌, List, [],
  ◌∷◌, ◌==◌, arith, inl, inr,
}
use kitchen_sync.Schema.{
  starts_with_backslash, TableSchema, codes, escape_name_for_id, id_from_name,
}

escape_step_true :
    (c : ℕ) (rest : List ℕ)
    → (c == 46 && starts_with_backslash rest) ≡ true
    → escape_name_for_id (c ∷ rest) ≡ 92 ∷ c ∷ escape_name_for_id rest
unfolding escape_name_for_id
escape_step_true c rest e = rw e refl

escape_step_false :
    (c : ℕ) (rest : List ℕ)
    → (c == 46 && starts_with_backslash rest) ≡ false
    → escape_name_for_id (c ∷ rest) ≡ c ∷ escape_name_for_id rest
unfolding escape_name_for_id
escape_step_false c rest e = rw e refl

-- An escaped text and a plain one that start alike: what follows the dot is the same, so that both or
-- neither were to be escaped.
mixed :
    (c d e : ℕ) (xs zs : List ℕ)
    → (c == 46 && starts_with_backslash xs) ≡ true
    → (escape_name_for_id zs ≡ escape_name_for_id xs → zs ≡ xs)
    → escape_name_for_id (c ∷ xs) ≢ d ∷ escape_name_for_id (e ∷ zs)
mixed c d e xs zs escaped ih same = elim (Bool-cases (e == 46 && starts_with_backslash zs)) [
  | inl t ↦
      let same' = rw (escape_step_true c xs escaped, escape_step_true e zs t) at same in
      ground arith
  | inr f ↦
      let same' : 92 ∷ c ∷ escape_name_for_id xs ≡ d ∷ e ∷ escape_name_for_id zs =
        rw (escape_step_true c xs escaped, escape_step_false e zs f) at same in
      let heads : c ≡ e = cc in
      let rest : escape_name_for_id zs ≡ escape_name_for_id xs = cc in
      let tails = ih rest in
      let escaped' : (e == 46 && starts_with_backslash zs) ≡ true = rw (← heads, tails) escaped in
      ground arith
]

not_empty : (c : ℕ) (rest : List ℕ) → escape_name_for_id (c ∷ rest) ≢ []
unfolding escape_name_for_id
not_empty c rest same = ground arith

-- A plain text is no escaped one, if the texts behind its first dot are told apart.
plain-escaped :
    (c d : ℕ) (xs ys : List ℕ)
    → (c == 46 && starts_with_backslash xs) ≡ true
    → (d == 46 && starts_with_backslash ys) ≡ false
    → ((e : ℕ) (zs : List ℕ)
        → ys ≡ e ∷ zs
        → escape_name_for_id zs ≡ escape_name_for_id xs
        → zs ≡ xs)
    → escape_name_for_id (c ∷ xs) ≢ escape_name_for_id (d ∷ ys)
unfolding escape_name_for_id
plain-escaped c d xs ys t g ih same =
    let same' : escape_name_for_id (c ∷ xs) ≡ d ∷ escape_name_for_id ys =
      same ∙ escape_step_false d ys g in
    elim (List-cases ys) [
      | inl none_left ↦
          let short : 92 ∷ c ∷ escape_name_for_id xs ≡ d ∷ [] =
            sym (escape_step_true c xs t)
            ∙ same'
            ∙ ap (λ zs. d ∷ escape_name_for_id zs) none_left
            ∙ ends in
          absurd (ground arith)
      | inr (e, zs, q) ↦
          mixed c d e xs zs t (ih e zs q) (same' ∙ ap (λ ws. d ∷ escape_name_for_id ws) q)
    ]
  where
    ends : (d ∷ escape_name_for_id []) ≡ d ∷ []
    ends = refl

heads :
    (c d : ℕ) (xs ys : List ℕ)
    → (escape_name_for_id xs ≡ escape_name_for_id ys → xs ≡ ys)
    → ((e : ℕ) (zs : List ℕ)
        → ys ≡ e ∷ zs
        → escape_name_for_id zs ≡ escape_name_for_id xs
        → zs ≡ xs)
    → ((e : ℕ) (zs : List ℕ)
        → xs ≡ e ∷ zs
        → escape_name_for_id zs ≡ escape_name_for_id ys
        → zs ≡ ys)
    → escape_name_for_id (c ∷ xs) ≡ escape_name_for_id (d ∷ ys)
    → c ∷ xs ≡ d ∷ ys
heads c d xs ys ih left right same = elim (Bool-cases (c == 46 && starts_with_backslash xs)) [
  | inl t ↦ elim (Bool-cases (d == 46 && starts_with_backslash ys)) [
    | inl u ↦
        let same' : 92 ∷ c ∷ escape_name_for_id xs ≡ 92 ∷ d ∷ escape_name_for_id ys =
          rw (escape_step_true c xs t, escape_step_true d ys u) at same in
        let rest : escape_name_for_id xs ≡ escape_name_for_id ys = cc in let tails = ih rest in cc
    | inr g ↦ absurd (plain-escaped c d xs ys t g left same)
  ]
  | inr f ↦ elim (Bool-cases (d == 46 && starts_with_backslash ys)) [
    | inl u ↦ absurd (plain-escaped d c ys xs u f right (sym same))
    | inr g ↦
        let same' : c ∷ escape_name_for_id xs ≡ d ∷ escape_name_for_id ys =
          rw (escape_step_false c xs f, escape_step_false d ys g) at same in
        let rest : escape_name_for_id xs ≡ escape_name_for_id ys = cc in let tails = ih rest in cc
  ]
]

escape_name_for_id-injective :
    (xs ys : List ℕ) → escape_name_for_id xs ≡ escape_name_for_id ys → xs ≡ ys
unfolding escape_name_for_id
escape_name_for_id-injective [] [] same = refl
escape_name_for_id-injective [] (d ∷ ys) same = absurd (not_empty d ys (sym same))
escape_name_for_id-injective (c ∷ xs) [] same = absurd (not_empty c xs same)
escape_name_for_id-injective (c ∷ []) (d ∷ ys) same =
    heads c d [] ys (λ q. escape_name_for_id-injective [] ys q)
      (λ e zs q r. sym (escape_name_for_id-injective [] zs (sym r)))
      (λ e zs q r. absurd (ground (arith, q))) same
escape_name_for_id-injective (c ∷ b ∷ xs) (d ∷ ys) same =
    heads c d (b ∷ xs) ys (λ q. escape_name_for_id-injective (b ∷ xs) ys q)
      (λ e zs q r. sym (escape_name_for_id-injective (b ∷ xs) zs (sym r)))
      (λ e zs q r.
        let tails : zs ≡ xs = sym (∷-injective q).1 in
        tails ∙ escape_name_for_id-injective xs ys (ap escape_name_for_id (sym tails) ∙ r))
      same

-- Tables of the default schema have the same id only if they have the same name.
id_from_name-injective :
    (t u : TableSchema)
    → str_eq t.schema_name "" ≡ true
    → str_eq u.schema_name "" ≡ true
    → id_from_name t ≡ id_from_name u
    → codes t.name ≡ codes u.name
unfolding id_from_name
id_from_name-injective t u et eu same =
    escape_name_for_id-injective (codes t.name) (codes u.name) (rw (et, eu) at same)
