-- ===== src/DbUrl/Escape.antt =====
-- Escaping a text and reading it back.
use kitchen_sync.Common.{
  ◌∙◌, ap, arith, inr, inl, Bool-cases, le_or_lt, ℕ, ◌+◌, ◌-◌, ◌*◌, ◌/◌, ◌%◌, ◌<◌, ◌≡◌, refl, Bool,
  true, false, ◌||◌, some, List, [], ◌∷◌, ◌==◌, ltb, if◌then◌else◌, ◌>>=◌, All,
}
use kitchen_sync.DbUrl.{after_digits, after_digit, from_hex, percent, urldecode, decode_second}

abbrev pub hex_digit : ℕ → ℕ
hex_digit n = if ltb n 10 then b'0' + n else b'A' - 10 + n

-- The characters that part a URL, and the percent sign.
abbrev pub reserved : ℕ → Bool
reserved ch = ch == b':' || ch == b'/' || ch == b'@' || ch == b'[' || ch == percent

abbrev pub urlencode : List ℕ → List ℕ
urlencode [] = []
urlencode (ch ∷ str) =
    let rest = urlencode str in
    if reserved ch then percent ∷ hex_digit (ch / 16) ∷ hex_digit (ch % 16) ∷ rest else ch ∷ rest

from_hex-hex_digit : (n : ℕ) → n < 16 → from_hex (hex_digit n) ≡ some n
unfolding from_hex
from_hex-hex_digit n h = elim (le_or_lt n 9) [ inl le ↦ ground arith | inr lt ↦ ground arith ]

abbrev pub AreBytes : List ℕ → Type 0
AreBytes = All (λ ch. ch < 256)

urldecode-plain :
    (ch : ℕ) (str : List ℕ)
    → (ch == percent) ≡ false
    → urldecode (ch ∷ str) ≡ (urldecode str >>= λ rest. some (ch ∷ rest))
unfolding urldecode
urldecode-plain ch str e = rw e refl

urldecode-escape :
    (ch1 ch2 digit1 digit2 : ℕ) (str : List ℕ)
    → from_hex ch1 ≡ some digit1
    → from_hex ch2 ≡ some digit2
    → urldecode (percent ∷ ch1 ∷ ch2 ∷ str)
      ≡ (urldecode str >>= λ rest. some ((digit1 * 16 + digit2) ∷ rest))
unfolding urldecode
urldecode-escape ch1 ch2 digit1 digit2 str e1 e2 =
    let copied = urldecode (ch2 ∷ str) >>= λ rest. some (percent ∷ ch1 ∷ rest) in
    let copied2 = urldecode (ch2 ∷ str) in
    ap (λ o. after_digit o copied (λ d. decode_second d ch1 (ch2 ∷ str))) e1
    ∙ ap (λ o. after_digits o digit1 ch1 copied2 (urldecode str)) e2

urlencode-reserved :
    (ch : ℕ) (str : List ℕ)
    → reserved ch ≡ true
    → urlencode (ch ∷ str) ≡ percent ∷ hex_digit (ch / 16) ∷ hex_digit (ch % 16) ∷ urlencode str
urlencode-reserved ch str e = rw e refl

urlencode-plain :
    (ch : ℕ) (str : List ℕ) → reserved ch ≡ false → urlencode (ch ∷ str) ≡ ch ∷ urlencode str
urlencode-plain ch str e = rw e refl

pub urldecode-urlencode : (str : List ℕ) → AreBytes str → urldecode (urlencode str) ≡ some str
unfolding urldecode
urldecode-urlencode [] bytes = refl
urldecode-urlencode (ch ∷ str) (byte, bytes) = elim (Bool-cases (reserved ch)) [
  | inl e ↦
      let digits : (ch / 16) * 16 + ch % 16 ≡ ch = omega arith in
      ap urldecode (urlencode-reserved ch str e)
      ∙ urldecode-escape (hex_digit (ch / 16)) (hex_digit (ch % 16)) (ch / 16) (ch % 16)
          (urlencode str) (from_hex-hex_digit (ch / 16) (omega arith))
          (from_hex-hex_digit (ch % 16) (omega arith))
      ∙ ap (λ o. o >>= λ rest. some (((ch / 16) * 16 + ch % 16) ∷ rest))
          (urldecode-urlencode str bytes)
      ∙ ap (λ c. some (c ∷ str)) digits
  | inr e ↦
      let plain : (ch == percent) ≡ false = ground (arith, e) in
      ap urldecode (urlencode-plain ch str e)
      ∙ urldecode-plain ch (urlencode str) plain
      ∙ ap (λ o. o >>= λ rest. some (ch ∷ rest)) (urldecode-urlencode str bytes)
]

-- No character of a set that holds only ones that are reserved is in an escaped text.
abbrev pub FreeOf : ℕ → List ℕ → Type 0
FreeOf separator str = All (λ ch. (separator == ch) ≡ false) str

pub urlencode-FreeOf :
    (separator : ℕ) (str : List ℕ)
    → AreBytes str
    → reserved separator ≡ true
    → (separator == percent) ≡ false
    → FreeOf separator (urlencode str)
urlencode-FreeOf separator [] bytes e p = tt
urlencode-FreeOf separator (ch ∷ str) (byte, bytes) e p = elim (Bool-cases (reserved ch)) [
  | inl r ↦ rw r (
    p,
    (
      not_digit (ch / 16) (omega arith),
      (not_digit (ch % 16) (omega arith), urlencode-FreeOf separator str bytes e p),
    ),
  )
  | inr r ↦ rw r (differs r, urlencode-FreeOf separator str bytes e p)
]
  where
    not_digit : (n : ℕ) → n < 16 → (separator == hex_digit n) ≡ false
    not_digit n h = ground (arith, e, p)

    differs : (reserved ch ≡ false) → (separator == ch) ≡ false
    differs r = ground (arith, e, r)
