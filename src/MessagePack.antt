-- ===== src/MessagePack.antt =====
-- MessagePack as the two ends speak it (src/message_pack): reading bytes, the leaders of objects,
-- copying one object whole (copy_packed.h) and skipping one (unpack.h). A byte is a number below 256.
pub mod Bytes
pub mod Objects
pub mod Copy
pub mod Skip
pub mod Pack
pub mod Unpack
pub mod RoundTrip
pub mod Whole
mod Tests
use kitchen_sync.Common.{
  ◌^◌, ℕ, zero, suc, ◌+◌, ◌-◌, ◌*◌, ◌/◌, ◌%◌, Bool, ◌&&◌, ◌||◌, List, [], ◌∷◌, ◌++◌, length, ◌==◌,
  ltb, leb, if◌then◌else◌,
}

-- `out_of_fuel` is of the model; see `Copy` for why it does not occur.
pub data ReadError : Type 0 where
  stream_closed unpacker_error out_of_fuel : ReadError

pub data Outcome {ℓ} (A : Type ℓ) : Type ℓ where
  read : A → Outcome A
  failed : ReadError → Outcome A

abbrev pub and_then {ℓ κ} : {A : Type ℓ} {B : Type κ} → Outcome A → (A → Outcome B) → Outcome B
and_then (read a) f = f a
and_then (failed e) f = failed e

-- Big-endian, in `width` bytes, before `rest`.
pub big_endian : ℕ → ℕ → List ℕ → List ℕ
big_endian zero n rest = rest
big_endian (suc width) n rest = big_endian width (n / 256) (n % 256 ∷ rest)

pub from_big_endian : ℕ → List ℕ → ℕ
from_big_endian acc [] = acc
from_big_endian acc (b ∷ bs) = from_big_endian (acc * 256 + b) bs

-- The bytes and what is left of the stream.
pub read_bytes : ℕ → List ℕ → Outcome (List ℕ × List ℕ)
read_bytes zero s = read ([], s)
read_bytes (suc n) [] = failed stream_closed
read_bytes (suc n) (b ∷ s) = and_then (read_bytes n s) (λ r. read (b ∷ r.0, r.1))

pub skip_bytes : ℕ → List ℕ → Outcome (List ℕ)
skip_bytes zero s = read s
skip_bytes (suc n) [] = failed stream_closed
skip_bytes (suc n) (b ∷ s) = skip_bytes n s

-- What follows a leader: bytes, or other objects; as many as it says, or as the number after it says.
pub data Payload : Type 0 where
  nothing unknown_type : Payload
  fixed_bytes sized_bytes fixed_objects : ℕ → Payload
  sized_objects : ℕ → ℕ → Payload

abbrev between : ℕ → ℕ → ℕ → Bool
between low high leader = leb low leader && leb leader high

-- The number types, which `skip` and `copy_object` read by their sizes.
abbrev number_payload : ℕ → Payload → Payload
number_payload leader other =
    if leader == 0xca || leader == 0xce || leader == 0xd2
    then fixed_bytes 4
    else (if leader == 0xcb || leader == 0xcf || leader == 0xd3
        then fixed_bytes 8
        else (if leader == 0xcc || leader == 0xd0
            then fixed_bytes 1
            else (if leader == 0xcd || leader == 0xd1 then fixed_bytes 2 else other)))

-- The cases of `copy_object`, in its order.
pub copy_payload : ℕ → Payload
copy_payload leader =
    if (leader == 0xc0 || leader == 0xc2 || leader == 0xc3)
      || (between 0x00 0x7f leader || between 0xe0 0xff leader)
    then nothing
    else (if between 0xa0 0xbf leader
        then fixed_bytes (leader % 32)
        else (if between 0x90 0x9f leader
            then fixed_objects (leader % 16)
            else (if between 0x80 0x8f leader
                then fixed_objects (2 * (leader % 16))
                else number_payload leader (switch_payload leader))))
  where
    switch_payload : ℕ → Payload
    switch_payload leader =
        if leader == 0xc4 || leader == 0xd9
        then sized_bytes 1
        else (if leader == 0xda || leader == 0xc5
            then sized_bytes 2
            else (if leader == 0xdb || leader == 0xc6
                then sized_bytes 4
                else (if leader == 0xdc
                    then sized_objects 1 2
                    else (if leader == 0xdd
                        then sized_objects 1 4
                        else (if leader == 0xde
                            then sized_objects 2 2
                            else (if leader == 0xdf then sized_objects 2 4 else unknown_type))))))

-- The cases of `Unpacker::skip`, in its order.
pub skip_payload : ℕ → Payload
skip_payload leader =
    if between 0x00 0x7f leader
      || between 0xe0 0xff leader
      || (leader == 0xc2 || leader == 0xc3 || leader == 0xc0)
    then nothing
    else (if between 0xa0 0xbf leader
        then fixed_bytes (leader % 32)
        else (if leader == 0xd9 || leader == 0xc4
            then sized_bytes 1
            else (if leader == 0xda || leader == 0xc5
                then sized_bytes 2
                else (if leader == 0xdb || leader == 0xc6
                    then sized_bytes 4
                    else array_payload leader))))
  where
    map_payload : ℕ → Payload
    map_payload leader =
        if between 0x80 0x8f leader
        then fixed_objects (2 * (leader % 16))
        else (if leader == 0xde
            then sized_objects 2 2
            else (if leader == 0xdf then sized_objects 2 4 else number_payload leader unknown_type))

    array_payload : ℕ → Payload
    array_payload leader =
        if between 0x90 0x9f leader
        then fixed_objects (leader % 16)
        else (if leader == 0xdc
            then sized_objects 1 2
            else (if leader == 0xdd then sized_objects 1 4 else map_payload leader))

-- What follows a leader, given how members are copied: the bytes copied and what is left.
pub copy_body :
    (ℕ → List ℕ → Outcome (List ℕ × List ℕ)) → Payload → List ℕ → Outcome (List ℕ × List ℕ)
copy_body copy_members nothing s = read ([], s)
copy_body copy_members unknown_type s = failed unpacker_error
copy_body copy_members (fixed_bytes n) s = read_bytes n s
copy_body copy_members (sized_bytes width) s = and_then (read_bytes width s) (λ size.
    and_then (read_bytes (from_big_endian 0 size.0) size.1) (λ r. read (size.0 ++ r.0, r.1)))
copy_body copy_members (fixed_objects n) s = copy_members n s
copy_body copy_members (sized_objects each width) s = and_then (read_bytes width s) (λ size.
    and_then (copy_members (each * from_big_endian 0 size.0) size.1)
      (λ r. read (size.0 ++ r.0, r.1)))

pub copy_object_with : (ℕ → List ℕ → Outcome (List ℕ × List ℕ)) → List ℕ → Outcome (List ℕ × List ℕ)
copy_object_with copy_members [] = failed stream_closed
copy_object_with copy_members (leader ∷ s) =
    and_then (copy_body copy_members (copy_payload leader) s) (λ r. read (leader ∷ r.0, r.1))

-- `copy_array_members` and `copy_map_members`: that many objects, one after the other.
pub copy_objects : ℕ → ℕ → List ℕ → Outcome (List ℕ × List ℕ)
unfolding copy_object_with
copy_objects fuel zero s = read ([], s)
copy_objects zero (suc n) s = failed out_of_fuel
copy_objects (suc fuel) (suc n) s = and_then (copy_object_with (copy_objects fuel) s) (λ first.
    and_then (copy_objects fuel n first.1) (λ others. read (first.0 ++ others.0, others.1)))

-- An object has no more objects in it than bytes, so that the length of the stream is fuel enough.
pub copy_object : List ℕ → Outcome (List ℕ × List ℕ)
unfolding copy_objects
copy_object s = copy_objects (suc (length s)) 1 s

-- The number of a map's keys and values is computed in 32 bits.
pub skip_body : (ℕ → List ℕ → Outcome (List ℕ)) → Payload → List ℕ → Outcome (List ℕ)
skip_body skip_members nothing s = read s
skip_body skip_members unknown_type s = failed unpacker_error
skip_body skip_members (fixed_bytes n) s = skip_bytes n s
skip_body skip_members (sized_bytes width) s =
    and_then (read_bytes width s) (λ size. skip_bytes (from_big_endian 0 size.0) size.1)
skip_body skip_members (fixed_objects n) s = skip_members n s
skip_body skip_members (sized_objects each width) s =
    and_then (read_bytes width s)
      (λ size. skip_members (each * from_big_endian 0 size.0 % 2 ^ 32) size.1)

pub skip_object_with : (ℕ → List ℕ → Outcome (List ℕ)) → List ℕ → Outcome (List ℕ)
skip_object_with skip_members [] = failed stream_closed
skip_object_with skip_members (leader ∷ s) = skip_body skip_members (skip_payload leader) s

pub skip_objects : ℕ → ℕ → List ℕ → Outcome (List ℕ)
unfolding skip_object_with
skip_objects fuel zero s = read s
skip_objects zero (suc n) s = failed out_of_fuel
skip_objects (suc fuel) (suc n) s =
    and_then (skip_object_with (skip_objects fuel) s) (λ rest. skip_objects fuel n rest)

pub skip : List ℕ → Outcome (List ℕ)
unfolding skip_objects
skip s = skip_objects (suc (length s)) 1 s
