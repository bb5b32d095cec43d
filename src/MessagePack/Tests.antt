-- ===== src/MessagePack/Tests.antt =====
-- The theorems of this folder on small streams.
use kitchen_sync.Common.{ℕ, ◌-◌, ◌^◌, ◌≤◌, ◌≡◌, refl, List, [], ◌∷◌, ◌++◌, length, negsuc, arith}
use kitchen_sync.MessagePack.{
  read_bytes, copy_payload, copy_body, copy_object_with, copy_objects, read, failed, stream_closed,
  copy_object, skip, skip_objects, skip_object_with, skip_body, skip_payload, from_big_endian,
}
use kitchen_sync.MessagePack.Copy.{copy_object_lem}
use kitchen_sync.MessagePack.Skip.{skip-copy_object}
use kitchen_sync.MessagePack.Pack.{
  pack_array_length, pack_items, pack_raw_length, pack_signed, pack_raw, pack_vector,
}
use kitchen_sync.MessagePack.Unpack.{unpack_number, unpack_raw, unpack_vector}
use kitchen_sync.MessagePack.RoundTrip.{
  unpack_number-pack_signed, unpack_raw-pack_raw, unpack_vector-pack_vector,
}
use kitchen_sync.MessagePack.Whole.{pack_signed-IsWhole, pack_raw-IsWhole, length-pack_signed}

-- An array of 1 and "a", and another byte.
abbrev stream : List ℕ
stream = 0x92 ∷ 0x01 ∷ 0xa1 ∷ 0x61 ∷ 0xff ∷ []

copy_object-stream : copy_object stream ≡ read (0x92 ∷ 0x01 ∷ 0xa1 ∷ 0x61 ∷ [], 0xff ∷ [])
unfolding copy_object copy_objects copy_object_with copy_body copy_payload read_bytes
copy_object-stream = refl

copy_object_lem_example :
    (stream ≡ (0x92 ∷ 0x01 ∷ 0xa1 ∷ 0x61 ∷ []) ++ (0xff ∷ []))
    × (1 ≤ 4)
    × ((t : List ℕ)
        → copy_object (stream ++ t) ≡ read (0x92 ∷ 0x01 ∷ 0xa1 ∷ 0x61 ∷ [], (0xff ∷ []) ++ t))
copy_object_lem_example = (copy_object_lem stream).1 _ _ copy_object-stream

skip-copy_object_example : skip stream ≡ read (0xff ∷ [])
skip-copy_object_example = skip-copy_object stream _ (0xff ∷ []) (omega arith) copy_object-stream

-- A map said to have 2 ^ 31 members is skipped as an empty one, and copying it fails.
abbrev large_map : List ℕ
large_map = 0xdf ∷ 0x80 ∷ 0 ∷ 0 ∷ 0 ∷ []

skip-large_map : skip large_map ≡ read []
unfolding skip skip_objects skip_object_with skip_body skip_payload read_bytes from_big_endian
skip-large_map = refl

copy_object-large_map : copy_object large_map ≡ failed stream_closed
unfolding copy_object copy_objects copy_object_with copy_body copy_payload read_bytes
    from_big_endian
copy_object-large_map = refl

abbrev no_floats : ℕ → ℕ
no_floats bits = 0

unpack_number-pack_signed_example :
    unpack_number no_floats no_floats (pack_signed (negsuc 299) ++ (0xff ∷ []))
    ≡ read (2 ^ 64 - 300, 0xff ∷ [])
unpack_number-pack_signed_example =
    unpack_number-pack_signed no_floats no_floats (negsuc 299) (0xff ∷ []) (omega arith)

unpack_raw-pack_raw_example : unpack_raw (0xa2 ∷ 1 ∷ 2 ∷ [] ++ (7 ∷ [])) ≡ read (1 ∷ 2 ∷ [], 7 ∷ [])
unfolding pack_raw pack_raw_length
unpack_raw-pack_raw_example = unpack_raw-pack_raw (1 ∷ 2 ∷ []) (0xa2 ∷ 1 ∷ 2 ∷ []) (7 ∷ []) refl

-- A vector of strings.
unpack_vector-pack_vector_example :
    unpack_vector unpack_raw (0x92 ∷ 0xa2 ∷ 1 ∷ 2 ∷ 0xa1 ∷ 3 ∷ [] ++ (7 ∷ []))
    ≡ read ((1 ∷ 2 ∷ []) ∷ (3 ∷ []) ∷ [], 7 ∷ [])
unfolding pack_vector pack_items pack_array_length pack_raw pack_raw_length
unpack_vector-pack_vector_example =
    unpack_vector-pack_vector pack_raw unpack_raw unpack_raw-pack_raw ((1 ∷ 2 ∷ []) ∷ (3 ∷ []) ∷ [])
      (0x92 ∷ 0xa2 ∷ 1 ∷ 2 ∷ 0xa1 ∷ 3 ∷ []) (7 ∷ []) refl

pack_signed-IsWhole_example :
    copy_object (pack_signed (negsuc 299) ++ (1 ∷ [])) ≡ read (pack_signed (negsuc 299), 1 ∷ [])
pack_signed-IsWhole_example = pack_signed-IsWhole (negsuc 299) (1 ∷ [])

pack_raw-IsWhole_example :
    copy_object (0xa2 ∷ 1 ∷ 2 ∷ [] ++ (7 ∷ [])) ≡ read (0xa2 ∷ 1 ∷ 2 ∷ [], 7 ∷ [])
unfolding pack_raw pack_raw_length
pack_raw-IsWhole_example = pack_raw-IsWhole (1 ∷ 2 ∷ []) (0xa2 ∷ 1 ∷ 2 ∷ []) (7 ∷ []) refl

length-pack_signed_example : length (pack_signed (negsuc 32)) ≡ 9
length-pack_signed_example = length-pack_signed 32 (omega arith)
