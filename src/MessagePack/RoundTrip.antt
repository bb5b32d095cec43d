-- ===== src/MessagePack/RoundTrip.antt =====
-- What is packed (src/message_pack/pack.h) is unpacked (src/message_pack/unpack.h).
use kitchen_sync.Common.{
  ◌>>=◌, Option, none, Option-cases, ℕ, zero, suc, ◌-◌, ◌/◌, ◌%◌, ◌^◌, ◌<◌, ◌≡◌, refl, ap, sym, ◌∙◌,
  inl, inr, some, List, [], ◌∷◌, ◌++◌, length, le_or_lt, ℤ, pos, negsuc, arith, append_assoc,
}
use kitchen_sync.MessagePack.{Outcome, read, big_endian, from_big_endian, read_bytes}
use kitchen_sync.MessagePack.Bytes.{
  from_big_endian-big_endian, length-big_endian, read_bytes-append,
}
use kitchen_sync.MessagePack.Pack.{
  pack_unsigned, pack_signed, word_of, pack_raw_length, pack_raw, pack_array_length,
  pack_map_length, pack_items, pack_vector,
}
use kitchen_sync.MessagePack.Unpack.{
  read_word, unpack_number, raw_length, unpack_raw, next_array_length, next_map_length,
  unpack_items, unpack_vector,
}

big_endian-append :
    (width n : ℕ) (xs ys : List ℕ) → big_endian width n (xs ++ ys) ≡ big_endian width n xs ++ ys
unfolding big_endian
big_endian-append zero n xs ys = refl
big_endian-append (suc width) n xs ys = big_endian-append width (n / 256) (n % 256 ∷ xs) ys

pub read_word-big_endian :
    (width n : ℕ) (s : List ℕ)
    → n < 256 ^ width
    → read_word width (big_endian width n [] ++ s) ≡ read (n, s)
unfolding read_word
read_word-big_endian width n s h =
    let many : length (big_endian width n []) ≡ width =
      omega (arith, length-big_endian width n []) in
    let whole : read_bytes width (big_endian width n [] ++ s) ≡ read (big_endian width n [], s) =
      ap (λ w. read_bytes w (big_endian width n [] ++ s)) (sym many)
      ∙ read_bytes-append (big_endian width n []) s in
    rw (whole, from_big_endian-big_endian width n [] h) (unfold from_big_endian in refl)

read_word-byte : (b : ℕ) (s : List ℕ) → read_word 1 (b ∷ s) ≡ read (b, s)
unfolding read_word read_bytes from_big_endian
read_word-byte b s = ap (λ n. read (n, s)) (omega arith)

-- The values of a `long long`.
abbrev pub IsInt64 : ℤ → Type 0
IsInt64 (pos n) = n < 2 ^ 63
IsInt64 (negsuc m) = m < 2 ^ 63

module _ (from_float from_double : ℕ → ℕ) where
  -- An unsigned 64-bit number is read back.
  pub unpack_number-pack_unsigned :
      (n : ℕ) (s : List ℕ)
      → n < 2 ^ 64
      → unpack_number from_float from_double (pack_unsigned n ++ s) ≡ read (n, s)
  unfolding unpack_number pack_unsigned
  unpack_number-pack_unsigned n s h = elim (le_or_lt n 0x7f) [
    | inl a ↦ ground arith
    | inr a ↦ elim (le_or_lt n 0xff) [
      | inl b ↦ ground (arith, read_word-byte n s)
      | inr b ↦ elim (le_or_lt n 0xffff) [
        | inl c ↦ ground (arith, read_word-big_endian 2 n s (omega arith))
        | inr c ↦ elim (le_or_lt n 0xffffffff) [
          | inl d ↦ ground (arith, read_word-big_endian 4 n s (omega arith))
          | inr d ↦ ground (arith, read_word-big_endian 8 n s (omega arith))
        ]
      ]
    ]
  ]

  -- A signed number of 64 bits is read back, in two's complement.
  pub unpack_number-pack_signed :
      (z : ℤ) (s : List ℕ)
      → IsInt64 z
      → unpack_number from_float from_double (pack_signed z ++ s) ≡ read (word_of z, s)
  unfolding unpack_number pack_signed pack_unsigned
  unpack_number-pack_signed (pos n) s h = unpack_number-pack_unsigned n s (omega arith)
  unpack_number-pack_signed (negsuc m) s h = elim (le_or_lt m 31) [
    | inl a ↦ ground arith
    | inr a ↦
        let large : 2 ^ 64 - suc m < 2 ^ 64 = omega arith in
        ground (arith, read_word-big_endian 8 (2 ^ 64 - suc m) s large)
  ]

pub raw_length-pack_raw_length :
    (size : ℕ) (header s : List ℕ)
    → pack_raw_length size ≡ some header
    → raw_length (header ++ s) ≡ read (size, s)
unfolding pack_raw_length raw_length
raw_length-pack_raw_length size header s e = elim (le_or_lt size 0x1f) [
  | inl a ↦ ground arith
  | inr a ↦ elim (le_or_lt size 0xffff) [
    | inl b ↦ ground (arith, read_word-big_endian 2 size s (omega arith))
    | inr b ↦ elim (le_or_lt size 0xffffffff) [
      | inl c ↦ ground (arith, read_word-big_endian 4 size s (omega arith))
      | inr c ↦ absurd (ground arith)
    ]
  ]
]

-- A string that is not too large to pack is read back.
pub unpack_raw-pack_raw :
    (bytes packed s : List ℕ)
    → pack_raw bytes ≡ some packed
    → unpack_raw (packed ++ s) ≡ read (bytes, s)
unfolding pack_raw unpack_raw
unpack_raw-pack_raw bytes packed s e = elim (Option-cases (pack_raw_length (length bytes))) [
  | inl z ↦ let e' = rw z at e in absurd (cc)
  | inr (header, z) ↦
      let e' = rw z at e in
      let whole : packed ≡ header ++ bytes = cc in
      let size = raw_length-pack_raw_length (length bytes) header (bytes ++ s) z in
      rw (whole, append_assoc header bytes s, size) (read_bytes-append bytes s)
]

pub next_array_length-pack_array_length :
    (size : ℕ) (header s : List ℕ)
    → pack_array_length size ≡ some header
    → next_array_length (header ++ s) ≡ read (size, s)
unfolding pack_array_length next_array_length
next_array_length-pack_array_length size header s e = elim (le_or_lt size 0xf) [
  | inl a ↦ ground arith
  | inr a ↦ elim (le_or_lt size 0xffff) [
    | inl b ↦ ground (arith, read_word-big_endian 2 size s (omega arith))
    | inr b ↦ elim (le_or_lt size 0xffffffff) [
      | inl c ↦ ground (arith, read_word-big_endian 4 size s (omega arith))
      | inr c ↦ absurd (ground arith)
    ]
  ]
]

-- The length of a map is read back.
pub next_map_length-pack_map_length :
    (size : ℕ) (header s : List ℕ)
    → pack_map_length size ≡ some header
    → next_map_length (header ++ s) ≡ read (size, s)
unfolding pack_map_length next_map_length
next_map_length-pack_map_length size header s e = elim (le_or_lt size 0xf) [
  | inl a ↦ ground arith
  | inr a ↦ elim (le_or_lt size 0xffff) [
    | inl b ↦ ground (arith, read_word-big_endian 2 size s (omega arith))
    | inr b ↦ elim (le_or_lt size 0xffffffff) [
      | inl c ↦ ground (arith, read_word-big_endian 4 size s (omega arith))
      | inr c ↦ absurd (ground arith)
    ]
  ]
]

bind_some {ℓ κ} :
    {A : Type ℓ} {B : Type κ} (m : Option A) (f : A → Option B) (b : B)
    → (m >>= f) ≡ some b
    → (a : A) × (m ≡ some a) × (f a ≡ some b)
bind_some none f b e = absurd (cc)
bind_some (some a) f b e = (a, refl, e)

module _ {ℓ} {A : Type ℓ} (pack_item : A → Option (List ℕ)) (next : List ℕ → Outcome (A × List ℕ))
    (round_trip : (x : A) (packed s : List ℕ)
      → pack_item x ≡ some packed
      → next (packed ++ s) ≡ read (x, s)) where
  unpack_items-pack_items :
      (xs : List A) (packed s : List ℕ)
      → pack_items pack_item xs ≡ some packed
      → unpack_items next (length xs) (packed ++ s) ≡ read (xs, s)
  unfolding unpack_items pack_items
  unpack_items-pack_items [] packed s e = let empty : packed ≡ [] = cc in rw empty refl
  unpack_items-pack_items (x ∷ xs) packed s e =
      let (item, d, e') = bind_some (pack_item x) _ packed e in
      let (others, k, f) = bind_some (pack_items pack_item xs) _ packed e' in
      let whole : packed ≡ item ++ others = cc in
      rw
        (
          whole,
          append_assoc item others s,
          round_trip x item (others ++ s) d,
          unpack_items-pack_items xs others s k,
        )
        refl

  -- A vector that can be packed is read back, if each item that can be packed is, whatever follows it.
  pub unpack_vector-pack_vector :
      (xs : List A) (packed s : List ℕ)
      → pack_vector pack_item xs ≡ some packed
      → unpack_vector next (packed ++ s) ≡ read (xs, s)
  unfolding pack_vector unpack_vector
  unpack_vector-pack_vector xs packed s e =
      let (header, d, e') = bind_some (pack_array_length (length xs)) _ packed e in
      let (items, k, f) = bind_some (pack_items pack_item xs) _ packed e' in
      let whole : packed ≡ header ++ items = cc in
      let size = next_array_length-pack_array_length (length xs) header (items ++ s) d in
      rw (whole, append_assoc header items s, size) (unpack_items-pack_items xs items s k)
