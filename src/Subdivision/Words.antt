-- ===== src/Subdivision/Words.antt =====
-- Arithmetic on pairs of words is arithmetic on 128-bit numbers.
use kitchen_sync.Common.{ℕ, ◌+◌, ◌-◌, ◌*◌, ◌/◌, ◌%◌, ◌^◌, ◌<◌, ◌≤◌, ◌≡◌, arith}
use kitchen_sync.Subdivision.{Uint128, word, add, sub, shift_right}

abbrev pub IsUint128 : Uint128 → Type 0
IsUint128 u = (u.h < word) × (u.l < word)

abbrev pub value : Uint128 → ℕ
value u = u.h * word + u.l

-- Addition is addition modulo 2 ^ 128.
pub value-add :
    (u v : Uint128)
    → IsUint128 u
    → IsUint128 v
    → IsUint128 (add u v) × (value (add u v) ≡ (value u + value v) % 2 ^ 128)
unfolding add
value-add u v a b = ground arith

-- Subtraction of what is not greater is subtraction.
pub value-sub :
    (u v : Uint128)
    → IsUint128 u
    → IsUint128 v
    → value v ≤ value u
    → IsUint128 (sub u v) × (value (sub u v) ≡ value u - value v)
unfolding sub
value-sub u v a b h = ground arith

-- A shift by one bit is division by two.
pub value-shift_right :
    (u : Uint128)
    → IsUint128 u
    → IsUint128 (shift_right u 1) × (value (shift_right u 1) ≡ value u / 2)
unfolding shift_right
value-shift_right u a = ground arith
