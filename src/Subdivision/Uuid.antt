-- ===== src/Subdivision/Uuid.antt =====
-- Reading and writing UUIDs (`parse_uuid` and `format_uuid` of src/subdivision.cpp).
use kitchen_sync.Common.{
  Bool, sym, ℕ, zero, suc, ◌+◌, ◌*◌, ◌/◌, ◌%◌, ◌^◌, ◌<◌, ◌≡◌, refl, ap, ◌∙◌, true, some, List, [],
  ◌∷◌, arith, if◌then◌else◌,
}
use native.Mathlib.Nat.{pow-suc, mul_assoc, mul_comm}
use kitchen_sync.Subdivision.{
  Uint128, hex_digit, hex, hex_value, parse_hex, parse_uint64_t, parse_uuid, format_uuid,
}
use kitchen_sync.Subdivision.Words.{IsUint128}

hex_value-hex_digit : (d : ℕ) → d < 16 → hex_value (hex_digit d) ≡ some d
hex_value-hex_digit d h = ground arith

parse_hex-digit :
    (acc d : ℕ) (cs : List ℕ)
    → d < 16
    → parse_hex acc (hex_digit d ∷ cs) ≡ parse_hex (acc * 16 + d) cs
unfolding parse_hex
parse_hex-digit acc d cs h = rw (parse_hex, hex_value-hex_digit d h) refl

parse_hex-hex :
    (width acc n : ℕ) (cs : List ℕ)
    → n < 16 ^ width
    → parse_hex acc (hex width n cs) ≡ parse_hex (acc * 16 ^ width + n) cs
unfolding hex
parse_hex-hex zero acc n cs h = ap (λ m. parse_hex m cs) (omega arith)
parse_hex-hex (suc width) acc n cs h =
    parse_hex-hex width acc (n / 16) (hex_digit (n % 16) ∷ cs) (omega arith)
    ∙ parse_hex-digit (acc * 16 ^ width + n / 16) (n % 16) cs (omega arith)
    ∙ ap (λ m. parse_hex m cs) (omega (arith, scaled))
  where
    scaled : acc * 16 ^ suc width ≡ 16 * (acc * 16 ^ width)
    scaled =
        ap (λ m. acc * m) (pow-suc 16 width)
        ∙ sym (mul_assoc acc (16 ^ width) 16)
        ∙ mul_comm (acc * 16 ^ width) 16

parse_uint64_t-digit :
    (d : ℕ) (cs : List ℕ)
    → d < 16
    → parse_uint64_t (hex_digit d ∷ cs) ≡ (true, parse_hex 0 (hex_digit d ∷ cs))
unfolding parse_uint64_t parse_hex
parse_uint64_t-digit d cs h = rw (parse_uint64_t, hex_value-hex_digit d h) refl

-- Three groups of digits are read as one number.
parse_hex-groups :
    (a b c : ℕ)
    → a < 2 ^ 32
    → b < 2 ^ 16
    → c < 2 ^ 16
    → parse_hex 0 (hex 8 a (hex 4 b (hex 4 c []))) ≡ a * 2 ^ 32 + b * 2 ^ 16 + c
parse_hex-groups a b c ha hb hc =
    parse_hex-hex 8 0 a (hex 4 b (hex 4 c [])) (omega arith)
    ∙ parse_hex-hex 4 (0 * 16 ^ 8 + a) b (hex 4 c []) (omega arith)
    ∙ parse_hex-hex 4 ((0 * 16 ^ 8 + a) * 16 ^ 4 + b) c [] (omega arith)
    ∙ unfold parse_hex in omega arith

parse_uint64_t-groups :
    (a b c : ℕ)
    → a < 2 ^ 32
    → b < 2 ^ 16
    → c < 2 ^ 16
    → parse_uint64_t (hex 8 a (hex 4 b (hex 4 c []))) ≡ (true, a * 2 ^ 32 + b * 2 ^ 16 + c)
unfolding hex
parse_uint64_t-groups a b c ha hb hc =
    parse_uint64_t-digit (a / 16 / 16 / 16 / 16 / 16 / 16 / 16 % 16) _ (omega arith)
    ∙ ap (λ n. (true, n)) (parse_hex-groups a b c ha hb hc)

-- A UUID that `format_uuid` wrote is read, but only its higher word: the lower word of the result is
-- whatever was there before.
pub parse_uuid-format_uuid :
    (u out : Uint128)
    → IsUint128 u
    → parse_uuid (format_uuid u) out ≡ (true, record { h = u.h; l = out.l })
unfolding parse_uuid format_uuid hex
parse_uuid-format_uuid u out v =
    let high =
      parse_uint64_t-groups (u.h / 2 ^ 32) (u.h / 2 ^ 16 % 2 ^ 16) (u.h % 2 ^ 16) (omega arith)
        (omega arith) (omega arith) in
    let whole : u.h / 2 ^ 32 * 2 ^ 32 + u.h / 2 ^ 16 % 2 ^ 16 * 2 ^ 16 + u.h % 2 ^ 16 ≡ u.h =
      omega arith in
    let low : Bool × ℕ = parse_uint64_t (hex 4 (u.l / 2 ^ 48) (hex 12 (u.l % 2 ^ 48) [])) in
    let outcome : Bool × ℕ → Bool × Uint128 = λ p.
      if p.0
      then (true, record { h = p.1; l = out.l })
      else (low.0, record { h = p.1; l = low.1 }) in
    ap outcome (high ∙ ap (λ n. (true, n)) whole)
