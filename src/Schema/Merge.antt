-- ===== src/Schema/Merge.antt =====
-- Two lists gone through side by side by their names, as the schema matcher does with tables and with
-- keys (src/schema_matcher.h).
use Prim.Native.String.{String}
use kitchen_sync.Common.{Bool-cases, ◌≡◌, refl, ap, Bool, List, [], ◌∷◌, if◌then◌else◌, inl, inr}
use kitchen_sync.Schema.{str_less}

module _ {A : Type 0} where
  -- std::sort, of which the order of equal elements is not relied on.
  abbrev insert_sorted : (A → A → Bool) → A → List A → List A
  insert_sorted less x [] = x ∷ []
  insert_sorted less x (y ∷ ys) =
      let rest = insert_sorted less x ys in if less y x then y ∷ rest else x ∷ y ∷ ys

  abbrev pub sort_by : (A → A → Bool) → List A → List A
  sort_by less [] = []
  sort_by less (x ∷ xs) = insert_sorted less x (sort_by less xs)

-- What a step of the loop finds: an element that only the target has, one that only the source has, or
-- one of each with the same name.
pub data MergeAction (A : Type 0) : Type 0 where
  drop_extra create_missing : A → MergeAction A
  match_both : A → A → MergeAction A

module _ {A : Type 0} (name_of : A → String) where
  -- The steps until the target's next element is dealt with; `rest` is the loop after it.
  abbrev merge_from : A → (List A → List (MergeAction A)) → List A → List (MergeAction A)
  merge_from to rest [] = drop_extra to ∷ rest []
  merge_from to rest (from ∷ froms) =
      let created = create_missing from ∷ merge_from to rest froms in
      if str_less (name_of to) (name_of from)
      then drop_extra to ∷ rest (from ∷ froms)
      else if str_less (name_of from) (name_of to)
      then created
      else match_both from to ∷ rest froms

  abbrev create_all : List A → List (MergeAction A)
  create_all [] = []
  create_all (from ∷ froms) = create_missing from ∷ create_all froms

  unfoldable pub merge : List A → List A → List (MergeAction A)
  merge [] froms = create_all froms
  merge (to ∷ tos) froms = merge_from to (merge tos) froms

  -- The source's elements in the steps.
  abbrev pub sources : List (MergeAction A) → List A
  sources [] = []
  sources (drop_extra to ∷ actions) = sources actions
  sources (create_missing from ∷ actions) = from ∷ sources actions
  sources (match_both from to ∷ actions) = from ∷ sources actions

  abbrev pub targets : List (MergeAction A) → List A
  targets [] = []
  targets (drop_extra to ∷ actions) = to ∷ targets actions
  targets (create_missing from ∷ actions) = targets actions
  targets (match_both from to ∷ actions) = to ∷ targets actions

  -- Each of the source's elements is dealt with once and in order, however the names are ordered.
  sources-merge_from :
      (to : A) (rest : List A → List (MergeAction A)) (froms : List A)
      → ((fs : List A) → sources (rest fs) ≡ fs)
      → sources (merge_from to rest froms) ≡ froms
  sources-merge_from to rest [] ih = ih []
  sources-merge_from to rest (from ∷ froms) ih =
      elim (Bool-cases (str_less (name_of to) (name_of from))) [
        | inl e ↦ rw e (ih (from ∷ froms))
        | inr e ↦ elim (Bool-cases (str_less (name_of from) (name_of to))) [
          | inl e' ↦ rw (e, e') (ap (λ fs. from ∷ fs) (sources-merge_from to rest froms ih))
          | inr e' ↦ rw (e, e') (ap (λ fs. from ∷ fs) (ih froms))
        ]
      ]

  sources-create_all : (froms : List A) → sources (create_all froms) ≡ froms
  sources-create_all [] = refl
  sources-create_all (from ∷ froms) = ap (λ fs. from ∷ fs) (sources-create_all froms)

  pub sources-merge : (tos froms : List A) → sources (merge tos froms) ≡ froms
  unfolding merge
  sources-merge [] froms = sources-create_all froms
  sources-merge (to ∷ tos) froms =
      sources-merge_from to (merge tos) froms (λ fs. sources-merge tos fs)

  targets-merge_from :
      (to : A) (rest : List A → List (MergeAction A)) (tos froms : List A)
      → ((fs : List A) → targets (rest fs) ≡ tos)
      → targets (merge_from to rest froms) ≡ to ∷ tos
  targets-merge_from to rest tos [] ih = ap (λ ts. to ∷ ts) (ih [])
  targets-merge_from to rest tos (from ∷ froms) ih =
      elim (Bool-cases (str_less (name_of to) (name_of from))) [
        | inl e ↦ rw e (ap (λ ts. to ∷ ts) (ih (from ∷ froms)))
        | inr e ↦ elim (Bool-cases (str_less (name_of from) (name_of to))) [
          | inl e' ↦ rw (e, e') (targets-merge_from to rest tos froms ih)
          | inr e' ↦ rw (e, e') (ap (λ ts. to ∷ ts) (ih froms))
        ]
      ]

  targets-create_all : (froms : List A) → targets (create_all froms) ≡ []
  targets-create_all [] = refl
  targets-create_all (from ∷ froms) = targets-create_all froms

  pub targets-merge : (tos froms : List A) → targets (merge tos froms) ≡ tos
  unfolding merge
  targets-merge [] froms = targets-create_all froms
  targets-merge (to ∷ tos) froms =
      targets-merge_from to (merge tos) tos froms (λ fs. targets-merge tos fs)
