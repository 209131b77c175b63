-- ===== src/Hex.antt =====
-- Hexadecimal output as the streams of C++ format it, for server/uint128.cpp and `convbytes` of
-- server/device_mgr.c, and reading the digits back.
pub mod Dump
use native.Mathlib.Nat.{pow-succ'}
use native.Mathlib.Decide.{dec_lt}
use p4runtime_grpcpp.Base.{
  ◌≢◌, ap₂, ℕ, zero, suc, ◌+◌, ◌-◌, ◌*◌, ◌/◌, ◌%◌, ◌^◌, ◌≤◌, ◌<◌, ◌≡◌, refl, ap, sym, ◌∙◌, true,
  false, [], ◌∷◌, ◌++◌, Bytes, codes, length, length-append, replicate, take, drop, ltb, ◌==◌,
  if◌then◌else◌, arith, List, All,
}

-- The digits of `std::hex`, in ASCII.
abbrev pub digit : ℕ → ℕ
digit d = if ltb d 10 then 48 + d else 87 + d

-- `std::hex` of a number of at most `n` digits.
unfoldable pub hex_from : ℕ → ℕ → Bytes
hex_from zero a = []
hex_from (suc n) a = elim (ltb a 16) [
  | true ↦ digit a ∷ []
  | false ↦ hex_from n (a / 16) ++ digit (a % 16) ∷ []
]

-- A `uint64_t` has at most 16 digits.
unfoldable pub hex : ℕ → Bytes
hex a = hex_from 16 a

-- `std::setfill('0') << std::setw(width)`.
unfoldable pub padded : ℕ → Bytes → Bytes
padded width digits = replicate (width - length digits) 48 ++ digits

abbrev pub digit_value : ℕ → ℕ
digit_value c = if ltb c 58 then c - 48 else c - 87

-- The number that the digits say, behind `a`.
unfoldable pub read_hex : ℕ → Bytes → ℕ
read_hex a [] = a
read_hex a (c ∷ cs) = read_hex (a * 16 + digit_value c) cs

digit_value-digit : (d : ℕ) → d < 16 → digit_value (digit d) ≡ d
digit_value-digit d lt = ground arith

pub read_hex-append : (xs ys : Bytes) (a : ℕ) → read_hex a (xs ++ ys) ≡ read_hex (read_hex a xs) ys
unfolding read_hex
read_hex-append [] ys a = refl
read_hex-append (c ∷ xs) ys a = read_hex-append xs ys (a * 16 + digit_value c)

hex_from_small : (n a : ℕ) → a < 16 → hex_from (suc n) a ≡ digit a ∷ []
unfolding hex_from
hex_from_small n a lt = ground arith

hex_from_large :
    (n a : ℕ) → 16 ≤ a → hex_from (suc n) a ≡ hex_from n (a / 16) ++ digit (a % 16) ∷ []
unfolding hex_from
hex_from_large n a le = ground arith

read_hex-hex_from : (n a : ℕ) → a < 16 ^ suc n → read_hex 0 (hex_from (suc n) a) ≡ a
unfolding read_hex
read_hex-hex_from zero a lt =
    ap (read_hex 0) (hex_from_small 0 a (omega arith))
    ∙ omega (arith, digit_value-digit a (omega arith))
read_hex-hex_from (suc n) a lt = elim (dec_lt a 16) [
  | yes small ↦
      ap (read_hex 0) (hex_from_small (suc n) a small) ∙ omega (arith, digit_value-digit a small)
  | no large ↦
      let ih = read_hex-hex_from n (a / 16) (omega arith) in
      let last = digit_value-digit (a % 16) (omega arith) in
      ap (read_hex 0) (hex_from_large (suc n) a (omega arith))
      ∙ read_hex-append (hex_from (suc n) (a / 16)) (digit (a % 16) ∷ []) 0
      ∙ omega (arith, ih, last)
]

shift_one : (a d p r : ℕ) → (a * 16 + d) * p + r ≡ a * (16 * p) + ((0 * 16 + d) * p + r)
shift_one a d p r = omega arith

read_hex-shift : (xs : Bytes) (a : ℕ) → read_hex a xs ≡ a * 16 ^ length xs + read_hex 0 xs
unfolding read_hex
read_hex-shift [] a = ground arith
read_hex-shift (c ∷ xs) a =
    let d : ℕ = digit_value c in
    read_hex-shift xs (a * 16 + d)
    ∙ shift_one a d (16 ^ length xs) (read_hex 0 xs)
    ∙ ap₂ ◌+◌ (ap (◌*◌ a) (sym (pow-succ' 16 (length xs)))) (sym (read_hex-shift xs (0 * 16 + d)))

length-hex_from-lt : (n k a : ℕ) → a < 16 ^ suc k → length (hex_from n a) ≤ suc k
length-hex_from-lt zero k a lt = unfold hex_from in omega arith
length-hex_from-lt (suc n) zero a lt = omega (arith, ap length (hex_from_small n a (omega arith)))
length-hex_from-lt (suc n) (suc k) a lt = elim (dec_lt a 16) [
  | yes small ↦ omega (arith, ap length (hex_from_small n a small))
  | no large ↦ omega (
    arith,
    ap length (hex_from_large n a (omega arith)),
    length-append (hex_from n (a / 16)) (digit (a % 16) ∷ []),
    length-hex_from-lt n k (a / 16) (omega arith),
  )
]

read_hex-zeros : (n : ℕ) (xs : Bytes) → read_hex 0 (replicate n 48 ++ xs) ≡ read_hex 0 xs
unfolding read_hex
read_hex-zeros zero xs = refl
read_hex-zeros (suc n) xs = read_hex-zeros n xs

length-replicate {ℓ} : {A : Type ℓ} (n : ℕ) (x : A) → length (replicate n x) ≡ n
length-replicate zero x = refl
length-replicate (suc n) x = ap suc (length-replicate n x)

pub length-padded :
    (width : ℕ) (digits : Bytes) → length digits ≤ width → length (padded width digits) ≡ width
unfolding padded
length-padded width digits fits =
    let n : ℕ = width - length digits in
    let fill_char : ℕ = 48 in
    omega (arith, length-append (replicate n fill_char) digits, length-replicate n fill_char)

-- Padding is nothing to the number, and moves what stands before it by the width.
pub read_hex-padded :
    (width : ℕ) (digits : Bytes) (a : ℕ)
    → length digits ≤ width
    → read_hex a (padded width digits) ≡ a * 16 ^ width + read_hex 0 digits
read_hex-padded width digits a fits =
    read_hex-shift (padded width digits) a
    ∙ ap₂ (λ l r. a * 16 ^ l + r) (length-padded width digits fits)
        (unfold padded in read_hex-zeros (width - length digits) digits)

pub read_hex-hex : (a : ℕ) → a < 2 ^ 64 → read_hex 0 (hex a) ≡ a
unfolding hex
read_hex-hex a lt = read_hex-hex_from 15 a (omega arith)

-- A number below `16 ^ (k + 1)` has at most `k + 1` digits.
pub length-hex-le : (k a : ℕ) → a < 16 ^ suc k → length (hex a) ≤ suc k
unfolding hex
length-hex-le k a lt = length-hex_from-lt 16 k a lt
