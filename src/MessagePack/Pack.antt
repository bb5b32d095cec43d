-- ===== src/MessagePack/Pack.antt =====
-- Writing values (src/message_pack/pack.h).
use kitchen_sync.Common.{
  ℕ, suc, ◌+◌, ◌-◌, ◌^◌, Option, some, none, List, [], ◌∷◌, ◌++◌, length, leb, ltb, if◌then◌else◌,
  ℤ, pos, negsuc, ◌>>=◌,
}
use kitchen_sync.MessagePack.{big_endian}

-- The operator for `unsigned long long`.
unfoldable pub pack_unsigned : ℕ → List ℕ
pack_unsigned n =
    if ltb 0xffffffff n
    then 0xcf ∷ big_endian 8 n []
    else (if ltb 0xffff n
        then 0xce ∷ big_endian 4 n []
        else (if ltb 0xff n
            then 0xcd ∷ big_endian 2 n []
            else (if ltb 0x7f n then 0xcc ∷ n ∷ [] else n ∷ [])))

-- The two's complement of a `long long`.
abbrev pub word_of : ℤ → ℕ
word_of (pos n) = n
word_of (negsuc m) = 2 ^ 64 - suc m

-- The operator for `long long`. The bounds of the INT8, INT16 and INT32 cases are those of the source:
-- (int8_t) 0xff, (int16_t) 0xffff and (int32_t) 0xffffffff are -1.
unfoldable pub pack_signed : ℤ → List ℕ
pack_signed (pos n) =
    if ltb 0xffffffff n
    then 0xcf ∷ big_endian 8 n []
    else (if ltb 0xffff n
        then 0xce ∷ big_endian 4 n []
        else (if ltb 0xff n
            then 0xcd ∷ big_endian 2 n []
            else (if ltb 0x7f n then 0xcc ∷ n ∷ [] else n ∷ [])))
pack_signed (negsuc m) =
    if leb (suc m) 32
    then (256 - suc m) ∷ []
    else (if leb (suc m) 1
        then 0xd0 ∷ (256 - suc m) ∷ []
        else (if leb (suc m) 1
            then 0xd1 ∷ big_endian 2 (2 ^ 16 - suc m) []
            else (if leb (suc m) 1
                then 0xd2 ∷ big_endian 4 (2 ^ 32 - suc m) []
                else 0xd3 ∷ big_endian 8 (2 ^ 64 - suc m) [])))

-- `none` is the runtime_error for what is too large.
unfoldable pub pack_raw_length : ℕ → Option (List ℕ)
pack_raw_length size =
    if leb size 0x1f
    then some ((0xa0 + size) ∷ [])
    else (if leb size 0xffff
        then some (0xda ∷ big_endian 2 size [])
        else (if leb size 0xffffffff then some (0xdb ∷ big_endian 4 size []) else none))

abbrev followed_by : List ℕ → Option (List ℕ) → Option (List ℕ)
followed_by bytes none = none
followed_by bytes (some header) = some (header ++ bytes)

unfoldable pub pack_raw : List ℕ → Option (List ℕ)
unfolding pack_raw_length
pack_raw bytes = followed_by bytes (pack_raw_length (length bytes))

unfoldable pub pack_array_length : ℕ → Option (List ℕ)
pack_array_length size =
    if leb size 0xf
    then some ((0x90 + size) ∷ [])
    else (if leb size 0xffff
        then some (0xdc ∷ big_endian 2 size [])
        else (if leb size 0xffffffff then some (0xdd ∷ big_endian 4 size []) else none))

unfoldable pub pack_map_length : ℕ → Option (List ℕ)
pack_map_length size =
    if leb size 0xf
    then some ((0x80 + size) ∷ [])
    else (if leb size 0xffff
        then some (0xde ∷ big_endian 2 size [])
        else (if leb size 0xffffffff then some (0xdf ∷ big_endian 4 size []) else none))

-- An item that cannot be packed is an error of the whole.
module _ {ℓ} {A : Type ℓ} (pack_item : A → Option (List ℕ)) where
  unfoldable pub pack_items : List A → Option (List ℕ)
  pack_items [] = some []
  pack_items (x ∷ xs) =
      pack_item x >>= λ packed. pack_items xs >>= λ others. some (packed ++ others)

  unfoldable pub pack_vector : List A → Option (List ℕ)
  unfolding pack_array_length pack_items
  pack_vector xs =
      pack_array_length (length xs) >>= λ header. pack_items xs >>= λ items. some (header ++ items)
