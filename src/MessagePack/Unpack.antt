-- ===== src/MessagePack/Unpack.antt =====
-- Reading values of a known type (src/message_pack/unpack.h).
use kitchen_sync.Common.{
  ℕ, zero, suc, ◌+◌, ◌-◌, ◌%◌, ◌^◌, ◌&&◌, ◌||◌, List, [], ◌∷◌, leb, ltb, ◌==◌, if◌then◌else◌,
}
use kitchen_sync.MessagePack.{
  Outcome, read, failed, stream_closed, unpacker_error, and_then, from_big_endian, read_bytes,
}

unfoldable pub read_word : ℕ → List ℕ → Outcome (ℕ × List ℕ)
unfolding read_bytes from_big_endian
read_word width s = and_then (read_bytes width s) (λ r. read (from_big_endian 0 r.0, r.1))

-- An int8_t widened to 64 bits.
abbrev pub sign_extended : ℕ → ℕ
sign_extended b = if ltb b 0x80 then b else b + (2 ^ 64 - 0x100)

-- The operator for a 64-bit integer type, whose values are given in two's complement. Casts from
-- `float` and `double` are parameters. The INT16 and INT32 cases do not extend the sign: ntohs and
-- ntohl return unsigned types.
module _ (from_float from_double : ℕ → ℕ) where
  unfoldable pub unpack_number : List ℕ → Outcome (ℕ × List ℕ)
  unfolding read_word
  unpack_number [] = failed stream_closed
  unpack_number (leader ∷ s) =
      if leb leader 0x7f
      then read (leader, s)
      else (if leb 0xe0 leader && leb leader 0xff
          then read (sign_extended leader, s)
          else (if leader == 0xc2
              then read (0, s)
              else (if leader == 0xc3
                  then read (1, s)
                  else (if leader == 0xcc
                      then read_word 1 s
                      else (if leader == 0xcd
                          then read_word 2 s
                          else (if leader == 0xce
                              then read_word 4 s
                              else (if leader == 0xcf
                                  then read_word 8 s
                                  else (if leader == 0xd0
                                      then and_then (read_word 1 s)
                                          (λ (r : ℕ × List ℕ). read (sign_extended r.0, r.1))
                                      else (if leader == 0xd1
                                          then read_word 2 s
                                          else (if leader == 0xd2
                                              then read_word 4 s
                                              else (if leader == 0xd3
                                                  then read_word 8 s
                                                  else (if leader == 0xca
                                                      then and_then (read_word 4 s)
                                                          (λ (r : ℕ × List ℕ).
                                                            read (from_float r.0, r.1))
                                                      else (if leader == 0xcb
                                                          then and_then (read_word 8 s)
                                                            (λ (r : ℕ × List ℕ).
                                                            read (from_double r.0, r.1))
                                                          else failed unpacker_error)))))))))))))

unfoldable pub raw_length : List ℕ → Outcome (ℕ × List ℕ)
unfolding read_word
raw_length [] = failed stream_closed
raw_length (leader ∷ s) =
    if leb 0xa0 leader && leb leader 0xbf
    then read (leader % 32, s)
    else (if leader == 0xd9 || leader == 0xc4
        then read_word 1 s
        else (if leader == 0xda || leader == 0xc5
            then read_word 2 s
            else (if leader == 0xdb || leader == 0xc6
                then read_word 4 s
                else failed unpacker_error)))

-- The operator for `string`.
unfoldable pub unpack_raw : List ℕ → Outcome (List ℕ × List ℕ)
unfolding raw_length read_bytes
unpack_raw s = and_then (raw_length s) (λ size. read_bytes size.0 size.1)

unfoldable pub next_array_length : List ℕ → Outcome (ℕ × List ℕ)
unfolding read_word
next_array_length [] = failed stream_closed
next_array_length (leader ∷ s) =
    if leb 0x90 leader && leb leader 0x9f
    then read (leader % 16, s)
    else (if leader == 0xdc
        then read_word 2 s
        else (if leader == 0xdd then read_word 4 s else failed unpacker_error))

unfoldable pub next_map_length : List ℕ → Outcome (ℕ × List ℕ)
unfolding read_word
next_map_length [] = failed stream_closed
next_map_length (leader ∷ s) =
    if leb 0x80 leader && leb leader 0x8f
    then read (leader % 16, s)
    else (if leader == 0xde
        then read_word 2 s
        else (if leader == 0xdf then read_word 4 s else failed unpacker_error))

module _ {ℓ} {A : Type ℓ} (next : List ℕ → Outcome (A × List ℕ)) where
  unfoldable pub unpack_items : ℕ → List ℕ → Outcome (List A × List ℕ)
  unpack_items zero s = read ([], s)
  unpack_items (suc n) s =
      and_then (next s)
        (λ item. and_then (unpack_items n item.1) (λ others. read (item.0 ∷ others.0, others.1)))

  -- The operator for `vector`.
  unfoldable pub unpack_vector : List ℕ → Outcome (List A × List ℕ)
  unfolding next_array_length unpack_items
  unpack_vector s = and_then (next_array_length s) (λ size. unpack_items size.0 size.1)
