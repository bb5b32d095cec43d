-- ===== src/Subdivision/Tests.antt =====
-- The theorems of this folder at small numbers.
use kitchen_sync.Common.{◌+◌, ◌-◌, ◌/◌, ◌^◌, ◌<◌, ◌≤◌, ◌≡◌, refl, true, none, arith, pos, negsuc}
use kitchen_sync.Subdivision.{
  Uint128, uuid_midpoint, unsigned_midpoint, signed_midpoint, parse_uuid, format_uuid,
}
use kitchen_sync.Subdivision.Words.{value}
use kitchen_sync.Subdivision.Midpoint.{value-uuid_midpoint, unsigned_midpoint_bounds}
use kitchen_sync.Subdivision.Uuid.{parse_uuid-format_uuid}

abbrev low_key : Uint128
low_key = record { h = 1; l = 2 ^ 64 - 1 }

abbrev high_key : Uint128
high_key = record { h = 4; l = 3 }

value-uuid_midpoint_example :
    value (uuid_midpoint low_key high_key) ≡ value low_key + (value high_key - value low_key) / 2
value-uuid_midpoint_example =
    value-uuid_midpoint low_key high_key (omega arith, omega arith) (omega arith, omega arith)
      (omega arith)

unsigned_midpoint_bounds_example :
    (5 < 12 → (5 ≤ unsigned_midpoint 32 5 12) × (unsigned_midpoint 32 5 12 < 12))
    × (12 ≤ 5 → unsigned_midpoint 32 5 12 ≡ 5)
unsigned_midpoint_bounds_example = unsigned_midpoint_bounds 32 5 12 (omega arith)

-- Keys of a signed 32-bit type for which the source overflows.
signed_midpoint_overflow : signed_midpoint 32 (negsuc 1999999999) (pos 2000000000) ≡ none
unfolding signed_midpoint
signed_midpoint_overflow = refl

parse_uuid-format_uuid_example :
    parse_uuid (format_uuid low_key) high_key ≡ (true, record { h = 1; l = 3 })
parse_uuid-format_uuid_example = parse_uuid-format_uuid low_key high_key (omega arith, omega arith)
