-- ===== src/Subdivision.antt =====
-- The estimate of a key halfway between two keys (src/subdivision.cpp), and the 128-bit numbers that it
-- needs for UUIDs (src/basic_uint128_t.h). Text is a list of character codes.
pub mod Words
pub mod Midpoint
pub mod Uuid
mod Tests
use kitchen_sync.Common.{
  ℕ, zero, suc, ◌+◌, ◌-◌, ◌*◌, ◌/◌, ◌%◌, ◌^◌, Bool, true, false, not, ◌&&◌, ◌||◌, Option, some,
  none, List, [], ◌∷◌, ◌++◌, length, take, drop, ltb, leb, ◌==◌, if◌then◌else◌, ℤ, pos, negsuc,
}

pub record Uint128 : Type 0 where
  pub h : ℕ
  pub l : ℕ

abbrev pub word : ℕ
word = 2 ^ 64

abbrev as_number : Bool → ℕ
as_number b = if b then 1 else 0

pub add : Uint128 → Uint128 → Uint128
add u other =
    let low = (u.l + other.l) % word in
    record { h = (u.h + other.h + as_number (ltb low u.l)) % word; l = low }

-- Unsigned subtraction wraps.
pub sub : Uint128 → Uint128 → Uint128
sub u other =
    let low = (u.l + word - other.l) % word in
    record { h = (u.h + word + word - other.h - as_number (ltb u.l low)) % word; l = low }

-- The two parts of the lower word have no bit in common, so that their `|` is their sum. A shift by 0
-- shifts by 64 bits in the source, which is undefined; it is not used.
pub shift_right : Uint128 → ℕ → Uint128
shift_right u n =
    if leb 64 n
    then record { h = 0; l = u.h / 2 ^ (n - 64) }
    else record { h = u.h / 2 ^ n; l = u.l / 2 ^ n + u.h * 2 ^ (64 - n) % word }

-- uprev + ((ulast - uprev) >> 1)
pub uuid_midpoint : Uint128 → Uint128 → Uint128
unfolding add sub shift_right
uuid_midpoint prev last = add prev (shift_right (sub last prev) 1)

-- `subdivide_integer_range` for an unsigned type of `width` bits.
pub unsigned_midpoint : ℕ → ℕ → ℕ → ℕ
unsigned_midpoint width prev last =
    if ltb prev last then (prev + (last - prev) / 2) % 2 ^ width else prev

-- For a signed type; `none` is an overflow of `last - prev`, which is undefined.
abbrev pub less : ℤ → ℤ → Bool
less (pos a) (pos b) = ltb a b
less (pos a) (negsuc b) = false
less (negsuc a) (pos b) = true
less (negsuc a) (negsuc b) = ltb b a

abbrev pub distance : ℤ → ℤ → ℕ
distance (pos a) (pos b) = b - a
distance (pos a) (negsuc b) = 0
distance (negsuc a) (pos b) = suc (a + b)
distance (negsuc a) (negsuc b) = a - b

abbrev pub advance : ℤ → ℕ → ℤ
advance (pos a) d = pos (a + d)
advance (negsuc a) d = if leb d a then negsuc (a - d) else pos (d - suc a)

pub signed_midpoint : ℕ → ℤ → ℤ → Option ℤ
signed_midpoint width prev last =
    if less prev last
    then (if ltb (distance prev last) (2 ^ (width - 1))
        then some (advance prev (distance prev last / 2))
        else none)
    else some prev

-- Lower-case hexadecimal digits, the last `width` of them, before `rest`.
abbrev pub hex_digit : ℕ → ℕ
hex_digit d = if ltb d 10 then 48 + d else 87 + d

pub hex : ℕ → ℕ → List ℕ → List ℕ
hex zero n rest = rest
hex (suc width) n rest = hex width (n / 16) (hex_digit (n % 16) ∷ rest)

abbrev pub hex_value : ℕ → Option ℕ
hex_value c =
    if leb 48 c && leb c 57
    then some (c - 48)
    else (if leb 97 c && leb c 102
        then some (c - 87)
        else (if leb 65 c && leb c 70 then some (c - 55) else none))

pub parse_hex : ℕ → List ℕ → ℕ
parse_hex acc [] = acc
parse_hex acc (c ∷ cs) = elim (hex_value c) [ none ↦ acc | some d ↦ parse_hex (acc * 16 + d) cs ]

-- Reading hexadecimal digits from a stream, with no space or sign before them: whether there was one,
-- and the number, 0 if there was none.
pub parse_uint64_t : List ℕ → Bool × ℕ
unfolding parse_hex
parse_uint64_t [] = (false, 0)
parse_uint64_t (c ∷ cs) = elim (hex_value c) [
  | none ↦ (false, 0)
  | some d ↦ (true, parse_hex 0 (c ∷ cs))
]

abbrev substr : ℕ → ℕ → List ℕ → List ℕ
substr start count s = take count (drop start s)

abbrev is_hyphen_at : ℕ → List ℕ → Bool
is_hyphen_at n s = elim (drop n s) [ [] ↦ false | c ∷ cs ↦ c == 45 ]

-- Whether a UUID was read, and `out` with what was assigned to it.
pub parse_uuid : List ℕ → Uint128 → Bool × Uint128
unfolding parse_uint64_t
parse_uuid str out =
    if not (length str == 36)
      || (not (is_hyphen_at 8 str)
          || (not (is_hyphen_at 13 str)
              || (not (is_hyphen_at 18 str) || not (is_hyphen_at 23 str))))
    then (false, out)
    else (let high = parse_uint64_t (substr 0 8 str ++ substr 9 4 str ++ substr 14 4 str) in
        let low = parse_uint64_t (substr 19 4 str ++ substr 24 12 str) in
        if high.0
        then (true, record { h = high.1; l = out.l })
        else (low.0, record { h = high.1; l = low.1 }))

pub format_uuid : Uint128 → List ℕ
unfolding hex
format_uuid u = hex 8 (u.h / 2 ^ 32) (
    45
    ∷ hex 4 (u.h / 2 ^ 16 % 2 ^ 16)
        (45 ∷ hex 4 (u.h % 2 ^ 16) (45 ∷ hex 4 (u.l / 2 ^ 48) (45 ∷ hex 12 (u.l % 2 ^ 48) []))))
