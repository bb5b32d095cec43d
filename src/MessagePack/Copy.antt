-- ===== src/MessagePack/Copy.antt =====
-- Copying one object (src/message_pack/copy_packed.h) ends, whatever the stream holds.
use kitchen_sync.Common.{
  ℕ, zero, suc, ◌*◌, ◌<◌, ◌≤◌, ◌≡◌, ◌≢◌, ap, inl, inr, List, [], ◌∷◌, ◌++◌, length, length-append,
  arith,
}
use kitchen_sync.MessagePack.{
  Outcome, read, failed, out_of_fuel, from_big_endian, read_bytes, Payload, nothing, unknown_type,
  fixed_bytes, sized_bytes, fixed_objects, sized_objects, copy_payload, copy_body, copy_object_with,
  copy_objects, copy_object,
}
use kitchen_sync.MessagePack.Bytes.{read_bytes-fuel, and_then-failed, and_then-read, read_bytes-inv}
use kitchen_sync.MessagePack.Objects.{copy_objects-Exact, copy_object_with-nonempty}

-- The members of an object lie behind its leader, so that they need less fuel.
copy_body-fuel :
    (members : ℕ → List ℕ → Outcome (List ℕ × List ℕ)) (p : Payload) (s : List ℕ)
    → ((n : ℕ) (t : List ℕ) → length t ≤ length s → members n t ≢ failed out_of_fuel)
    → copy_body members p s ≢ failed out_of_fuel
unfolding copy_body
copy_body-fuel members nothing s enough e = cc
copy_body-fuel members unknown_type s enough e = cc
copy_body-fuel members (fixed_bytes n) s enough e = read_bytes-fuel n s e
copy_body-fuel members (sized_bytes width) s enough e =
    elim (and_then-failed (read_bytes width s) _ e) [
      | inl d ↦ read_bytes-fuel width s d
      | inr (size, d, e') ↦
          elim (and_then-failed (read_bytes (from_big_endian 0 size.0) size.1) _ e') [
            | inl d' ↦ read_bytes-fuel (from_big_endian 0 size.0) size.1 d'
            | inr (r, d', f) ↦ cc
          ]
    ]
copy_body-fuel members (fixed_objects n) s enough e = enough n s (omega arith) e
copy_body-fuel members (sized_objects each width) s enough e =
    elim (and_then-failed (read_bytes width s) _ e) [
      | inl d ↦ read_bytes-fuel width s d
      | inr (size, d, e') ↦
          let (same, _) = read_bytes-inv width s size.0 size.1 d in
          let shorter : length size.1 ≤ length s =
            omega (arith, ap length same, length-append size.0 size.1) in
          elim (and_then-failed (members (each * from_big_endian 0 size.0) size.1) _ e') [
            | inl d' ↦ enough (each * from_big_endian 0 size.0) size.1 shorter d'
            | inr (r, d', f) ↦ cc
          ]
    ]

copy_object_with-fuel :
    (members : ℕ → List ℕ → Outcome (List ℕ × List ℕ)) (s : List ℕ)
    → ((n : ℕ) (t : List ℕ) → length t < length s → members n t ≢ failed out_of_fuel)
    → copy_object_with members s ≢ failed out_of_fuel
unfolding copy_object_with
copy_object_with-fuel members [] enough e = cc
copy_object_with-fuel members (leader ∷ s) enough e =
    elim (and_then-failed (copy_body members (copy_payload leader) s) _ e) [
      | inl d ↦
          copy_body-fuel members (copy_payload leader) s (λ n t le. enough n t (omega arith)) d
      | inr (q, d, f) ↦ cc
    ]

pub copy_objects-fuel :
    (fuel n : ℕ) (s : List ℕ) → length s < fuel → copy_objects fuel n s ≢ failed out_of_fuel
unfolding copy_objects
copy_objects-fuel fuel zero s h = λ e. cc
copy_objects-fuel zero (suc n) s h = absurd (omega arith)
copy_objects-fuel (suc fuel) (suc n) s h = λ e.
    elim (and_then-failed (copy_object_with (copy_objects fuel) s) _ e) [
      | inl d ↦
          copy_object_with-fuel (copy_objects fuel) s
            (λ m u lt. copy_objects-fuel fuel m u (omega arith)) d
      | inr (r, d, e') ↦
          let shorter =
            copy_object_with-nonempty (copy_objects fuel) s r.0 r.1 (copy_objects-Exact fuel) d in
          elim (and_then-failed (copy_objects fuel n r.1) _ e') [
            | inl d' ↦ copy_objects-fuel fuel n r.1 (omega arith) d'
            | inr (q, d', f) ↦ cc
          ]
    ]

-- More fuel gives the same result.
abbrev Extends : (members members' : ℕ → List ℕ → Outcome (List ℕ × List ℕ)) → Type 0
Extends members members' =
    (n : ℕ) (s : List ℕ) (r : List ℕ × List ℕ) → members n s ≡ read r → members' n s ≡ read r

copy_body-Extends :
    (members members' : ℕ → List ℕ → Outcome (List ℕ × List ℕ)) (p : Payload) (s : List ℕ)
    (r : List ℕ × List ℕ)
    → Extends members members'
    → copy_body members p s ≡ read r
    → copy_body members' p s ≡ read r
unfolding copy_body
copy_body-Extends members members' nothing s r more e = e
copy_body-Extends members members' unknown_type s r more e = e
copy_body-Extends members members' (fixed_bytes n) s r more e = e
copy_body-Extends members members' (sized_bytes width) s r more e = e
copy_body-Extends members members' (fixed_objects n) s r more e = more n s r e
copy_body-Extends members members' (sized_objects each width) s r more e =
    let (size, d, e') = and_then-read (read_bytes width s) _ e in
    let (q, k, f) = and_then-read (members (each * from_big_endian 0 size.0) size.1) _ e' in
    rw d (rw (more (each * from_big_endian 0 size.0) size.1 q k) f)

copy_object_with-Extends :
    (members members' : ℕ → List ℕ → Outcome (List ℕ × List ℕ)) (s : List ℕ) (r : List ℕ × List ℕ)
    → Extends members members'
    → copy_object_with members s ≡ read r
    → copy_object_with members' s ≡ read r
unfolding copy_object_with
copy_object_with-Extends members members' [] r more e = e
copy_object_with-Extends members members' (leader ∷ s) r more e =
    let (q, d, f) = and_then-read (copy_body members (copy_payload leader) s) _ e in
    rw (copy_body-Extends members members' (copy_payload leader) s q more d) f

pub copy_objects-Extends :
    (fuel fuel' : ℕ) → fuel ≤ fuel' → Extends (copy_objects fuel) (copy_objects fuel')
unfolding copy_objects
copy_objects-Extends fuel fuel' h zero s r e = e
copy_objects-Extends zero fuel' h (suc n) s r e = absurd (cc)
copy_objects-Extends (suc fuel) zero h (suc n) s r e = absurd (omega arith)
copy_objects-Extends (suc fuel) (suc fuel') h (suc n) s r e =
    let (first, d, e') = and_then-read (copy_object_with (copy_objects fuel) s) _ e in
    let (others, k, f) = and_then-read (copy_objects fuel n first.1) _ e' in
    let more : Extends (copy_objects fuel) (copy_objects fuel') =
      copy_objects-Extends fuel fuel' (omega arith) in
    rw (copy_object_with-Extends (copy_objects fuel) (copy_objects fuel') s first more d)
      (rw (more n first.1 others k) f)

copy_objects-one :
    (fuel : ℕ) (s c rest : List ℕ)
    → copy_objects (suc fuel) 1 s ≡ read (c, rest)
    → s ≡ c ++ rest
    → 1 ≤ length c
unfolding copy_objects
copy_objects-one fuel s c rest e same =
    let (first, d, e') = and_then-read (copy_object_with (copy_objects fuel) s) _ e in
    let shorter =
      copy_object_with-nonempty (copy_objects fuel) s first.0 first.1 (copy_objects-Exact fuel) d in
    let left : rest ≡ first.1 = cc in
    omega (arith, ap length same, ap length left, length-append c rest)

-- Copying one object ends; when it succeeds, the bytes copied and the bytes left are the stream, some
-- were copied, and the same object is copied whatever comes behind it.
pub copy_object_lem :
    (s : List ℕ)
    → (copy_object s ≢ failed out_of_fuel)
      × ((c rest : List ℕ)
          → copy_object s ≡ read (c, rest)
          → (s ≡ c ++ rest)
            × (1 ≤ length c)
            × ((t : List ℕ) → copy_object (s ++ t) ≡ read (c, rest ++ t)))
unfolding copy_object
copy_object_lem s = (
  copy_objects-fuel (suc (length s)) 1 s (omega arith),
  λ c rest e.
      let (same, longer) = copy_objects-Exact (suc (length s)) 1 s c rest e in
      (
        same,
        copy_objects-one (length s) s c rest e same,
        λ t.
            copy_objects-Extends (suc (length s)) (suc (length (s ++ t)))
              (omega (arith, length-append s t)) 1 (s ++ t) (c, rest ++ t) (longer t),
      ),
)
