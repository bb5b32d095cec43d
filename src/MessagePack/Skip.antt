-- ===== src/MessagePack/Skip.antt =====
-- Skipping an object (`Unpacker::skip` of src/message_pack/unpack.h) reads what copying it would
-- (`copy_object` of src/message_pack/copy_packed.h); the two test the leaders in different orders.
use kitchen_sync.Common.{
  ℕ, zero, suc, ◌*◌, ◌≡◌, refl, List, [], ◌∷◌, length, arith, ap, ◌<◌, ◌≤◌, ◌%◌, ◌^◌, length-append,
}
use kitchen_sync.MessagePack.{
  Outcome, read, skip_bytes, from_big_endian, read_bytes, Payload, nothing, unknown_type,
  fixed_bytes, sized_bytes, fixed_objects, sized_objects, copy_payload, skip_payload, copy_body,
  skip_body, copy_object_with, skip_object_with, copy_objects, skip_objects, copy_object, skip,
}
use kitchen_sync.MessagePack.Bytes.{and_then-read, read_bytes-inv, skip_bytes-read_bytes}
use kitchen_sync.MessagePack.Objects.{copy_object_with-nonempty, copy_objects-Exact}

-- Both read the same payload after each leader.
pub skip_payload-copy_payload : (leader : ℕ) → skip_payload leader ≡ copy_payload leader
unfolding skip_payload copy_payload
skip_payload-copy_payload leader = ground arith

-- Where the copy of some members succeeds, skipping them ends at the same place, for streams that are
-- not too long; and there are no more members than bytes.
abbrev Follows : (ℕ → List ℕ → Outcome (List ℕ × List ℕ)) → (ℕ → List ℕ → Outcome (List ℕ)) → Type 0
Follows copy_members skip_members =
    (n : ℕ) (t : List ℕ) (r : List ℕ × List ℕ)
    → length t < 2 ^ 32
    → copy_members n t ≡ read r
    → (skip_members n t ≡ read r.1) × (n ≤ length t)

skip_bytes-follows :
    (n : ℕ) (s : List ℕ) (r : List ℕ × List ℕ) → read_bytes n s ≡ read r → skip_bytes n s ≡ read r.1
skip_bytes-follows n s r e = rw (skip_bytes-read_bytes n s, e) refl

small_rem : (n : ℕ) → n < 2 ^ 32 → n % 2 ^ 32 ≡ n
small_rem n h = omega arith

skip_body-copy_body :
    (copy_members : ℕ → List ℕ → Outcome (List ℕ × List ℕ))
    (skip_members : ℕ → List ℕ → Outcome (List ℕ)) (p : Payload) (s : List ℕ) (r : List ℕ × List ℕ)
    → Follows copy_members skip_members
    → length s < 2 ^ 32
    → copy_body copy_members p s ≡ read r
    → skip_body skip_members p s ≡ read r.1
unfolding skip_body copy_body
skip_body-copy_body copy_members skip_members nothing s r follows h e =
    let left : ([], s) ≡ r = cc in rw (← left) refl
skip_body-copy_body copy_members skip_members unknown_type s r follows h e = absurd (cc)
skip_body-copy_body copy_members skip_members (fixed_bytes n) s r follows h e =
    skip_bytes-follows n s r e
skip_body-copy_body copy_members skip_members (sized_bytes width) s r follows h e =
    let (size, d, e') = and_then-read (read_bytes width s) _ e in
    let (q, k, f) = and_then-read (read_bytes (from_big_endian 0 size.0) size.1) _ e' in
    let left : r.1 ≡ q.1 = cc in
    rw (d, left) (skip_bytes-follows (from_big_endian 0 size.0) size.1 q k)
skip_body-copy_body copy_members skip_members (fixed_objects n) s r follows h e =
    (follows n s r h e).0
skip_body-copy_body copy_members skip_members (sized_objects each width) s r follows h e =
    let (size, d, e') = and_then-read (read_bytes width s) _ e in
    let (q, k, f) = and_then-read (copy_members (each * from_big_endian 0 size.0) size.1) _ e' in
    let left : r.1 ≡ q.1 = cc in
    let (same, _) = read_bytes-inv width s size.0 size.1 d in
    let shorter : length size.1 < 2 ^ 32 =
      omega (arith, ap length same, length-append size.0 size.1) in
    let (skipped, few) = follows (each * from_big_endian 0 size.0) size.1 q shorter k in
    let small : each * from_big_endian 0 size.0 % 2 ^ 32 ≡ each * from_big_endian 0 size.0 =
      small_rem (each * from_big_endian 0 size.0) (omega arith) in
    rw (d, left, small) skipped

skip_object_with-copy_object_with :
    (copy_members : ℕ → List ℕ → Outcome (List ℕ × List ℕ))
    (skip_members : ℕ → List ℕ → Outcome (List ℕ)) (s : List ℕ) (r : List ℕ × List ℕ)
    → Follows copy_members skip_members
    → length s < 2 ^ 32
    → copy_object_with copy_members s ≡ read r
    → skip_object_with skip_members s ≡ read r.1
unfolding skip_object_with copy_object_with
skip_object_with-copy_object_with copy_members skip_members [] r follows h e = absurd (cc)
skip_object_with-copy_object_with copy_members skip_members (leader ∷ s) r follows h e =
    let (q, d, f) = and_then-read (copy_body copy_members (copy_payload leader) s) _ e in
    let left : r.1 ≡ q.1 = cc in
    rw (skip_payload-copy_payload leader, left)
      (skip_body-copy_body copy_members skip_members (copy_payload leader) s q follows (omega arith)
        d)

skip_objects-copy_objects : (fuel : ℕ) → Follows (copy_objects fuel) (skip_objects fuel)
unfolding skip_objects copy_objects
skip_objects-copy_objects fuel zero s r h e =
    let left : ([], s) ≡ r = cc in (rw (← left) refl, omega arith)
skip_objects-copy_objects zero (suc n) s r h e = absurd (cc)
skip_objects-copy_objects (suc fuel) (suc n) s r h e =
    let (first, d, e') = and_then-read (copy_object_with (copy_objects fuel) s) _ e in
    let (others, k, f) = and_then-read (copy_objects fuel n first.1) _ e' in
    let left : r.1 ≡ others.1 = cc in
    let shorter =
      copy_object_with-nonempty (copy_objects fuel) s first.0 first.1 (copy_objects-Exact fuel) d in
    let object =
      skip_object_with-copy_object_with (copy_objects fuel) (skip_objects fuel) s first
        (skip_objects-copy_objects fuel) h d in
    let (skipped, few) = skip_objects-copy_objects fuel n first.1 others (omega arith) k in
    (rw (object, left) skipped, omega arith)

-- Of a stream of fewer than 2 ^ 32 bytes: if an object can be copied, skipping it leaves the stream where
-- copying it does.
pub skip-copy_object :
    (s c rest : List ℕ) → length s < 2 ^ 32 → copy_object s ≡ read (c, rest) → skip s ≡ read rest
unfolding skip copy_object
skip-copy_object s c rest h e = (skip_objects-copy_objects (suc (length s)) 1 s (c, rest) h e).0
