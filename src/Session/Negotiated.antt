-- ===== src/Session/Negotiated.antt =====
-- What the two ends agree on.
use kitchen_sync.Common.{
  ◌||◌, ltb, Bool-cases, min, max, ℕ, ◌≤◌, ◌≡◌, refl, ◌⊎◌, inl, inr, none, some, arith,
}
use kitchen_sync.Session.{Versions, negotiate_protocol_version}

abbrev pub Supports : Versions → ℕ → Type 0
Supports v version = (v.earliest ≤ version) × (version ≤ v.latest)

-- For two builds, each of which supports some versions: either they agree on the highest version that
-- both support, or the 'to' end gives up and there is no version that both support.
pub negotiate_protocol_version_lem :
    (to from : Versions)
    → to.earliest ≤ to.latest
    → from.earliest ≤ from.latest
    → ((version : ℕ) × (negotiate_protocol_version to from ≡ some version)
        × Supports to version
        × Supports from version
        × ((other : ℕ) → Supports to other → Supports from other → other ≤ version))
      ⊎ ((negotiate_protocol_version to from ≡ none)
          × ((other : ℕ) → Supports to other → ¬ Supports from other))
unfolding negotiate_protocol_version
negotiate_protocol_version_lem to from h k =
    let selected = max from.earliest (min from.latest to.latest) in
    elim (Bool-cases (ltb selected to.earliest || ltb to.latest selected)) [
      | inl e ↦ inr (rw e refl, λ other (lo, hi) (lo', hi'). ground arith)
      | inr e ↦
          let low : to.earliest ≤ selected = ground arith in
          let high : selected ≤ to.latest = ground arith in
          inl (
            selected,
            rw e refl,
            (low, high),
            (omega arith, omega arith),
            λ other (lo, hi) (lo', hi'). omega arith,
          )
    ]
