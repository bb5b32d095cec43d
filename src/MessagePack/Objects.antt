-- ===== src/MessagePack/Objects.antt =====
-- Copying objects (src/message_pack/copy_packed.h): what is copied is the start of what was read, and
-- more behind it changes nothing.
use kitchen_sync.Common.{
  ℕ, zero, suc, ◌*◌, ◌<◌, ◌≡◌, refl, ap, sym, List, [], ◌∷◌, ◌++◌, length, length-append,
  append_assoc, arith,
}
use kitchen_sync.MessagePack.{
  Outcome, read, and_then, from_big_endian, read_bytes, Payload, nothing, unknown_type, fixed_bytes,
  sized_bytes, fixed_objects, sized_objects, copy_payload, copy_body, copy_object_with,
  copy_objects,
}
use kitchen_sync.MessagePack.Bytes.{and_then-read, read_bytes-inv, read_bytes-longer}

-- What is copied is the start of the stream, and whatever follows it makes no difference.
abbrev pub Exact :
    Outcome (List ℕ × List ℕ) → (List ℕ → Outcome (List ℕ × List ℕ)) → List ℕ → Type 0
Exact m more s =
    (c rest : List ℕ)
    → m ≡ read (c, rest)
    → (s ≡ c ++ rest) × ((t : List ℕ) → more (s ++ t) ≡ read (c, rest ++ t))

read_bytes-Exact : (n : ℕ) (s : List ℕ) → Exact (read_bytes n s) (read_bytes n) s
read_bytes-Exact n s c rest e =
    ((read_bytes-inv n s c rest e).0, λ t. read_bytes-longer n s t c rest e)

-- Two exact reads, one after the other.
and_then-Exact :
    (m : List ℕ → Outcome (List ℕ × List ℕ)) (f : List ℕ → List ℕ → Outcome (List ℕ × List ℕ))
    (s : List ℕ)
    → Exact (m s) m s
    → ((size rest : List ℕ) → Exact (f size rest) (f size) rest)
    → Exact
        (and_then (m s) (λ size. and_then (f size.0 size.1) (λ r. read (size.0 ++ r.0, r.1))))
        (λ t. and_then (m t) (λ size. and_then (f size.0 size.1) (λ r. read (size.0 ++ r.0, r.1))))
        s
and_then-Exact m f s first second c rest e =
    let (size, d, e') = and_then-read (m s) _ e in
    let (r, k, e'') = and_then-read (f size.0 size.1) _ e' in
    let (start, start_longer) = first size.0 size.1 d in
    let (end, end_longer) = second size.0 size.1 r.0 r.1 k in
    let copied : c ≡ size.0 ++ r.0 = cc in
    let left : rest ≡ r.1 = cc in
    (
      rw (copied, left, start, end) (sym (append_assoc size.0 r.0 r.1)),
      λ t. rw (start_longer t) (rw (end_longer t) (rw (copied, left) refl)),
    )

abbrev pub ExactMembers : (ℕ → List ℕ → Outcome (List ℕ × List ℕ)) → Type 0
ExactMembers members = (n : ℕ) (s : List ℕ) → Exact (members n s) (members n) s

pub copy_body-Exact :
    (members : ℕ → List ℕ → Outcome (List ℕ × List ℕ)) (p : Payload) (s : List ℕ)
    → ExactMembers members
    → Exact (copy_body members p s) (copy_body members p) s
unfolding copy_body
copy_body-Exact members nothing s exact = λ c rest e.
    let none_read : c ≡ [] = cc in
    let all_left : s ≡ rest = cc in rw (none_read, all_left) (refl, λ t. refl)
copy_body-Exact members unknown_type s exact = λ c rest e. absurd (cc)
copy_body-Exact members (fixed_bytes n) s exact = read_bytes-Exact n s
copy_body-Exact members (sized_bytes width) s exact =
    and_then-Exact (read_bytes width) (λ size. read_bytes (from_big_endian 0 size)) s
      (read_bytes-Exact width s) (λ size. read_bytes-Exact (from_big_endian 0 size))
copy_body-Exact members (fixed_objects n) s exact = exact n s
copy_body-Exact members (sized_objects each width) s exact =
    and_then-Exact (read_bytes width) (λ size. members (each * from_big_endian 0 size)) s
      (read_bytes-Exact width s) (λ size. exact (each * from_big_endian 0 size))

pub copy_object_with-Exact :
    (members : ℕ → List ℕ → Outcome (List ℕ × List ℕ)) (s : List ℕ)
    → ExactMembers members
    → Exact (copy_object_with members s) (copy_object_with members) s
unfolding copy_object_with
copy_object_with-Exact members [] exact c rest e = absurd (cc)
copy_object_with-Exact members (leader ∷ s) exact c rest e =
    let (r, d, f) = and_then-read (copy_body members (copy_payload leader) s) _ e in
    let (start, longer) = copy_body-Exact members (copy_payload leader) s exact r.0 r.1 d in
    let copied : c ≡ leader ∷ r.0 = cc in
    let left : rest ≡ r.1 = cc in
    (rw (copied, left) (ap (λ q. leader ∷ q) start), λ t. rw (longer t) (rw (copied, left) refl))

-- An object has its leader at least.
pub copy_object_with-nonempty :
    (members : ℕ → List ℕ → Outcome (List ℕ × List ℕ)) (s c rest : List ℕ)
    → ExactMembers members
    → copy_object_with members s ≡ read (c, rest)
    → length rest < length s
unfolding copy_object_with
copy_object_with-nonempty members [] c rest exact e = absurd (cc)
copy_object_with-nonempty members (leader ∷ s) c rest exact e =
    let (r, d, f) = and_then-read (copy_body members (copy_payload leader) s) _ e in
    let (start, _) = copy_body-Exact members (copy_payload leader) s exact r.0 r.1 d in
    let left : rest ≡ r.1 = cc in rw left (omega (arith, ap length start, length-append r.0 r.1))

pub copy_objects-Exact :
    (fuel n : ℕ) (s : List ℕ) → Exact (copy_objects fuel n s) (copy_objects fuel n) s
unfolding copy_objects
copy_objects-Exact fuel zero s = λ c rest e.
    let none_read : c ≡ [] = cc in
    let all_left : s ≡ rest = cc in rw (none_read, all_left) (refl, λ t. refl)
copy_objects-Exact zero (suc n) s = λ c rest e. absurd (cc)
copy_objects-Exact (suc fuel) (suc n) s =
    and_then-Exact (copy_object_with (copy_objects fuel)) (λ first. copy_objects fuel n) s
      (copy_object_with-Exact (copy_objects fuel) s (copy_objects-Exact fuel))
      (λ first. copy_objects-Exact fuel n)
