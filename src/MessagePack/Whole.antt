-- ===== src/MessagePack/Whole.antt =====
-- What is packed (src/message_pack/pack.h) is one object to `copy_object` (src/message_pack/copy_packed.h).
use kitchen_sync.Common.{
  ℕ, suc, ◌+◌, ◌-◌, ◌^◌, ◌<◌, ◌≤◌, ◌≡◌, refl, ap, sym, ◌∙◌, inl, inr, some, List, [], ◌∷◌, ◌++◌,
  length, le_or_lt, ℤ, pos, negsuc, arith, append_assoc, append-nil,
}
use kitchen_sync.MessagePack.{
  read, big_endian, from_big_endian, read_bytes, nothing, fixed_bytes, sized_bytes, copy_payload,
  copy_body, copy_object_with, copy_objects, copy_object,
}
use kitchen_sync.MessagePack.Bytes.{
  from_big_endian-big_endian, length-big_endian, read_bytes-append,
}
use kitchen_sync.MessagePack.Pack.{pack_unsigned, pack_signed, pack_raw_length, pack_raw}

abbrev IsWhole : List ℕ → Type 0
IsWhole packed = (s : List ℕ) → copy_object (packed ++ s) ≡ read (packed, s)

leader-IsWhole : (leader : ℕ) → copy_payload leader ≡ nothing → IsWhole (leader ∷ [])
unfolding copy_object copy_objects copy_object_with copy_body
leader-IsWhole leader e s = rw e refl

fixed-IsWhole :
    (leader : ℕ) (body : List ℕ)
    → copy_payload leader ≡ fixed_bytes (length body)
    → IsWhole (leader ∷ body)
unfolding copy_object copy_objects copy_object_with copy_body
fixed-IsWhole leader body e s =
    rw (e, read_bytes-append body s) (ap (λ c. read (leader ∷ c, s)) (append-nil body))

sized-IsWhole :
    (leader width : ℕ) (bytes : List ℕ)
    → copy_payload leader ≡ sized_bytes width
    → length bytes < 256 ^ width
    → IsWhole (leader ∷ big_endian width (length bytes) [] ++ bytes)
unfolding copy_object copy_objects copy_object_with copy_body
sized-IsWhole leader width bytes e h s =
    let size = big_endian width (length bytes) [] in
    let many : length size ≡ width = omega (arith, length-big_endian width (length bytes) []) in
    let number : from_big_endian 0 size ≡ length bytes =
      from_big_endian-big_endian width (length bytes) [] h ∙ unfold from_big_endian in refl in
    let first : read_bytes width (size ++ (bytes ++ s)) ≡ read (size, bytes ++ s) =
      ap (λ w. read_bytes w (size ++ (bytes ++ s))) (sym many)
      ∙ read_bytes-append size (bytes ++ s) in
    rw (e, append_assoc size bytes s, first, number, read_bytes-append bytes s)
      (ap (λ c. read (leader ∷ c, s)) (append-nil (size ++ bytes)))

-- A leader and a number of a fixed size.
number-IsWhole :
    (leader width n : ℕ)
    → copy_payload leader ≡ fixed_bytes width
    → IsWhole (leader ∷ big_endian width n [])
number-IsWhole leader width n e =
    let many : length (big_endian width n []) ≡ width =
      omega (arith, length-big_endian width n []) in
    fixed-IsWhole leader (big_endian width n []) (e ∙ ap fixed_bytes (sym many))

-- A packed unsigned number is one object: copied, with anything behind it, it is what was packed.
pub pack_unsigned-IsWhole :
    (n : ℕ) (s : List ℕ) → copy_object (pack_unsigned n ++ s) ≡ read (pack_unsigned n, s)
unfolding pack_unsigned copy_payload
pack_unsigned-IsWhole n s = elim (le_or_lt n 0x7f) [
  | inl a ↦ ground (arith, leader-IsWhole n (ground arith) s)
  | inr a ↦ elim (le_or_lt n 0xff) [
    | inl b ↦ ground (arith, fixed-IsWhole 0xcc (n ∷ []) refl s)
    | inr b ↦ elim (le_or_lt n 0xffff) [
      | inl c ↦ ground (arith, number-IsWhole 0xcd 2 n refl s)
      | inr c ↦ elim (le_or_lt n 0xffffffff) [
        | inl d ↦ ground (arith, number-IsWhole 0xce 4 n refl s)
        | inr d ↦ ground (arith, number-IsWhole 0xcf 8 n refl s)
      ]
    ]
  ]
]

-- A packed signed number is one object: copied, with anything behind it, it is what was packed.
pub pack_signed-IsWhole :
    (z : ℤ) (s : List ℕ) → copy_object (pack_signed z ++ s) ≡ read (pack_signed z, s)
unfolding pack_signed pack_unsigned copy_payload
pack_signed-IsWhole (pos n) s = pack_unsigned-IsWhole n s
pack_signed-IsWhole (negsuc m) s = elim (le_or_lt m 31) [
  | inl a ↦ ground (arith, leader-IsWhole (256 - suc m) (ground arith) s)
  | inr a ↦ ground (arith, number-IsWhole 0xd3 8 (2 ^ 64 - suc m) refl s)
]

-- A negative number below -32 takes nine bytes, however small: of the narrower types for it none is
-- ever written.
pub length-pack_signed : (m : ℕ) → 32 ≤ m → length (pack_signed (negsuc m)) ≡ 9
unfolding pack_signed
length-pack_signed m h = ground (arith, length-big_endian 8 (2 ^ 64 - suc m) [])

-- A packed string, if it is not too large to pack, is one object: copied, with anything behind
-- it, it is what was packed.
pub pack_raw-IsWhole :
    (bytes packed s : List ℕ)
    → pack_raw bytes ≡ some packed
    → copy_object (packed ++ s) ≡ read (packed, s)
unfolding pack_raw pack_raw_length copy_payload
pack_raw-IsWhole bytes packed s e = elim (le_or_lt (length bytes) 0x1f) [
  | inl a ↦ ground (arith, fixed-IsWhole (0xa0 + length bytes) bytes (ground arith) s)
  | inr a ↦ elim (le_or_lt (length bytes) 0xffff) [
    | inl b ↦ ground (arith, sized-IsWhole 0xda 2 bytes refl (omega arith) s)
    | inr b ↦ elim (le_or_lt (length bytes) 0xffffffff) [
      | inl c ↦ ground (arith, sized-IsWhole 0xdb 4 bytes refl (omega arith) s)
      | inr c ↦ absurd (ground arith)
    ]
  ]
]
