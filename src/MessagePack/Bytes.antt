-- ===== src/MessagePack/Bytes.antt =====
-- Reading bytes and numbers of several bytes.
use kitchen_sync.Common.{
  ◌≢◌, append_assoc, sym, ◌∙◌, ℕ, zero, suc, ◌+◌, ◌/◌, ◌%◌, ◌^◌, ◌<◌, ◌≡◌, refl, ap, ◌⊎◌, inl, inr,
  List, [], ◌∷◌, ◌++◌, length, arith,
}
use kitchen_sync.MessagePack.{
  out_of_fuel, Outcome, read, failed, ReadError, and_then, big_endian, from_big_endian, read_bytes,
  skip_bytes,
}

pub Outcome-cases {ℓ} :
    {A : Type ℓ} (m : Outcome A) → ((a : A) × (m ≡ read a)) ⊎ ((e : ReadError) × (m ≡ failed e))
Outcome-cases (read a) = inl (a, refl)
Outcome-cases (failed e) = inr (e, refl)

-- What a successful chain of two reads is made of.
pub and_then-read {ℓ κ} :
    {A : Type ℓ} {B : Type κ} (m : Outcome A) (f : A → Outcome B) {b : B}
    → and_then m f ≡ read b
    → (a : A) × (m ≡ read a) × (f a ≡ read b)
and_then-read (read a) f e = (a, refl, e)
and_then-read (failed x) f e = absurd (cc)

pub and_then-failed {ℓ κ} :
    {A : Type ℓ} {B : Type κ} (m : Outcome A) (f : A → Outcome B) {x : ReadError}
    → and_then m f ≡ failed x
    → (m ≡ failed x) ⊎ ((a : A) × (m ≡ read a) × (f a ≡ failed x))
and_then-failed (read a) f e = inr (a, refl, e)
and_then-failed (failed y) f e = inl cc

pub from_big_endian-big_endian :
    (width n : ℕ) (rest : List ℕ)
    → n < 256 ^ width
    → from_big_endian 0 (big_endian width n rest) ≡ from_big_endian n rest
unfolding big_endian from_big_endian
from_big_endian-big_endian zero n rest h = ap (λ m. from_big_endian m rest) (omega arith)
from_big_endian-big_endian (suc width) n rest h =
    from_big_endian-big_endian width (n / 256) (n % 256 ∷ rest) (omega arith)
    ∙ ap (λ m. from_big_endian m rest) (omega arith)

pub length-big_endian :
    (width n : ℕ) (rest : List ℕ) → length (big_endian width n rest) ≡ width + length rest
unfolding big_endian
length-big_endian zero n rest = omega arith
length-big_endian (suc width) n rest =
    omega (arith, length-big_endian width (n / 256) (n % 256 ∷ rest))

-- Exactly the first bytes of the stream are read.
pub read_bytes-append : (xs ys : List ℕ) → read_bytes (length xs) (xs ++ ys) ≡ read (xs, ys)
unfolding read_bytes
read_bytes-append [] ys = refl
read_bytes-append (x ∷ xs) ys = rw (read_bytes-append xs ys) refl

pub read_bytes-inv :
    (n : ℕ) (s c rest : List ℕ) → read_bytes n s ≡ read (c, rest) → (s ≡ c ++ rest) × (length c ≡ n)
unfolding read_bytes
read_bytes-inv zero s c rest e =
    let none_read : c ≡ [] = cc in let all_left : s ≡ rest = cc in rw none_read (all_left, refl)
read_bytes-inv (suc n) [] c rest e = absurd (cc)
read_bytes-inv (suc n) (b ∷ s) c rest e =
    let (r, d, f) = and_then-read (read_bytes n s) _ e in
    let (same, many) = read_bytes-inv n s r.0 r.1 d in
    let read_first : c ≡ b ∷ r.0 = cc in
    let left : rest ≡ r.1 = cc in rw (read_first, left) (ap (λ t. b ∷ t) same, omega arith)

-- Skipping reads as many bytes, and keeps none.
pub skip_bytes-read_bytes :
    (n : ℕ) (s : List ℕ) → skip_bytes n s ≡ and_then (read_bytes n s) (λ r. read r.1)
unfolding skip_bytes read_bytes
skip_bytes-read_bytes zero s = refl
skip_bytes-read_bytes (suc n) [] = refl
skip_bytes-read_bytes (suc n) (b ∷ s) = elim (Outcome-cases (read_bytes n s)) [
  | inl (r, e) ↦ rw (skip_bytes-read_bytes n s, e) refl
  | inr (x, e) ↦ rw (skip_bytes-read_bytes n s, e) refl
]

-- More behind the stream changes nothing.
pub read_bytes-longer :
    (n : ℕ) (s t c rest : List ℕ)
    → read_bytes n s ≡ read (c, rest)
    → read_bytes n (s ++ t) ≡ read (c, rest ++ t)
read_bytes-longer n s t c rest e =
    let (same, many) = read_bytes-inv n s c rest e in
    rw (same, sym many) (rw (append_assoc c rest t) (read_bytes-append c (rest ++ t)))

-- A stream that is too short is closed, which is another error than a lack of fuel.
pub read_bytes-fuel : (n : ℕ) (s : List ℕ) → read_bytes n s ≢ failed out_of_fuel
unfolding read_bytes
read_bytes-fuel zero s e = cc
read_bytes-fuel (suc n) [] e = cc
read_bytes-fuel (suc n) (b ∷ s) e = elim (and_then-failed (read_bytes n s) _ e) [
  | inl d ↦ read_bytes-fuel n s d
  | inr (r, d, f) ↦ cc
]
