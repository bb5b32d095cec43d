-- ===== src/Subdivision/Midpoint.antt =====
-- The midpoint lies in the range.
use kitchen_sync.Common.{ℕ, ◌+◌, ◌-◌, ◌/◌, ◌^◌, ◌<◌, ◌≤◌, ◌≡◌, false, arith, ℤ}
use native.Mathlib.Nat.{mod-eq_of_lt}
use kitchen_sync.Subdivision.{Uint128, uuid_midpoint, unsigned_midpoint, less, sub, shift_right}
use kitchen_sync.Subdivision.Words.{IsUint128, value, value-add, value-sub, value-shift_right}

-- Of two 128-bit numbers in order, the midpoint is the first plus half their distance, rounded
-- down.
pub value-uuid_midpoint :
    (prev last : Uint128)
    → IsUint128 prev
    → IsUint128 last
    → value prev ≤ value last
    → value (uuid_midpoint prev last) ≡ value prev + (value last - value prev) / 2
unfolding uuid_midpoint
value-uuid_midpoint prev last a b h =
    let (c, d) = value-sub last prev b a h in
    let (e, f) = value-shift_right (sub last prev) c in
    let (g, k) = value-add prev (shift_right (sub last prev) 1) a e in omega arith

-- Of two numbers of an unsigned type, in order and different, the midpoint is at least the first
-- and before the second; if the second is not greater, it is the first.
pub unsigned_midpoint_bounds :
    (width prev last : ℕ)
    → last < 2 ^ width
    → (prev < last
        → (prev ≤ unsigned_midpoint width prev last) × (unsigned_midpoint width prev last < last))
      × (last ≤ prev → unsigned_midpoint width prev last ≡ prev)
unfolding unsigned_midpoint
unsigned_midpoint_bounds width prev last h = (
  λ lt.
      let half : prev + (last - prev) / 2 < 2 ^ width = omega arith in
      ground (arith, mod-eq_of_lt half),
  λ le. ground arith,
)

-- The order that `less` decides.
abbrev pub AtMost : ℤ → ℤ → Type 0
AtMost a b = less b a ≡ false
