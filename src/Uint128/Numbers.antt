-- ===== src/Uint128/Numbers.antt =====
-- server/uint128.h: the integers whose halves fit 64 bits are the numbers below 2 ^ 128, and its
-- operations are those of the numbers.
use mathlib.Core.HLevel.{Σ_prop_path}
use mathlib.Core.Path.{PathP}
use native.Mathlib.Bridge.{le_prop}
use std.Equiv.{Iso, ◌≃◌, iso_to_equiv}
use std.Univalence.{ua, ua-glue_op₂, ua-glue_path}
use p4runtime_grpcpp.Base.{
  ℕ, ◌+◌, ◌-◌, ◌/◌, ◌%◌, ◌^◌, ◌<◌, ◌≡◌, refl, Bool, ltb, leb, ◌==◌, not, arith,
}
use p4runtime_grpcpp.Uint128.Value.{IsUint128, value, value-add_assign, value-sub_assign}
use p4runtime_grpcpp.Uint128.{Uint128, add_assign, sub_assign, eq, ne, lt, le, gt, ge}

-- An integer whose halves fit 64 bits.
abbrev Word : Type 0
Word = (n : Uint128) × IsUint128 n

abbrev Below : Type 0
Below = (k : ℕ) × (k < 2 ^ 128)

value_small : (n : Uint128) → IsUint128 n → value n < 2 ^ 128
value_small n fits = omega (arith, fits.high, fits.low)

abbrev number : Word → Below
number (n, fits) = (value n, value_small n fits)

abbrev halves : ℕ → Uint128
halves k = record { high = k / 2 ^ 64; low = k % 2 ^ 64 }

halves-IsUint128 : (k : ℕ) → k < 2 ^ 128 → IsUint128 (halves k)
halves-IsUint128 k small = record { high = omega arith; low = omega arith }

abbrev word : Below → Word
word (k, small) = (halves k, halves-IsUint128 k small)

IsUint128-prop : (n : Uint128) → IsProp (IsUint128 n)
IsUint128-prop n a b = λ i. record { high = le_prop a.high b.high i; low = le_prop a.low b.low i }

number-word : (b : Below) → number (word b) ≡ b
number-word (k, small) = Σ_prop_path (λ k. le_prop) (omega arith)

word-number : (w : Word) → word (number w) ≡ w
word-number (n, fits) = Σ_prop_path IsUint128-prop (ground (arith, fits.high, fits.low))

abbrev Word-Iso-Below : Iso Word Below
Word-Iso-Below = record { fun = number; inv = word; rinv = number-word; linv = word-number }

abbrev Word≃Below : Word ≃ Below
Word≃Below = iso_to_equiv Word-Iso-Below

-- The operations on integers that fit, with the proofs that their results fit.
abbrev add : Word → Word → Word
add (a, ha) (b, hb) = (add_assign a b, (value-add_assign a b ha hb).1)

abbrev sub : Word → Word → Word
sub (a, ha) (b, hb) = (sub_assign a b, (value-sub_assign a b ha hb).1)

mod_small : (k : ℕ) → k % 2 ^ 128 < 2 ^ 128
mod_small k = omega arith

abbrev add_mod : Below → Below → Below
add_mod (j, _) (k, _) = ((j + k) % 2 ^ 128, mod_small (j + k))

abbrev sub_mod : Below → Below → Below
sub_mod (j, _) (k, _) = ((j + 2 ^ 128 - k) % 2 ^ 128, mod_small (j + 2 ^ 128 - k))

number-add : (a b : Word) → number (add a b) ≡ add_mod (number a) (number b)
number-add (a, ha) (b, hb) = Σ_prop_path (λ k. le_prop) (value-add_assign a b ha hb).0

number-sub : (a b : Word) → number (sub a b) ≡ sub_mod (number a) (number b)
number-sub (a, ha) (b, hb) = Σ_prop_path (λ k. le_prop) (value-sub_assign a b ha hb).0

-- A test over `ua e`, from a proof that `e` keeps it.
ua-glue_test :
    {A B C : Type 0} (e : A ≃ B) {f : A → A → C} {g : B → B → C}
    → ((x y : A) → f x y ≡ g (e.0 x) (e.0 y))
    → PathP (λ i. ua e i → ua e i → C) f g
ua-glue_test e {f = f} {g = g} h =
    λ i a b. hcom 1 0 (g (vproj i a e) (vproj i b e)) [ i = 0 ↦ j. h a b j | i = 1 ↦ _. g a b ]

compare-number :
    (a b : Word)
    → (lt a.0 b.0 ≡ ltb (value a.0) (value b.0))
      × (le a.0 b.0 ≡ leb (value a.0) (value b.0))
      × (eq a.0 b.0 ≡ (value a.0 == value b.0))
      × (gt a.0 b.0 ≡ ltb (value b.0) (value a.0))
      × (ge a.0 b.0 ≡ leb (value b.0) (value a.0))
      × (ne a.0 b.0 ≡ not (value a.0 == value b.0))
unfolding lt le eq gt ge ne
compare-number (a, ha) (b, hb) = (
  ground (arith, ha, hb),
  ground (arith, ha, hb),
  ground (arith, ha, hb),
  ground (arith, ha, hb),
  ground (arith, ha, hb),
  ground (arith, ha, hb),
)

-- The integers that fit as the numbers below 2 ^ 128.
abbrev same : Word ≡ Below
same = ua Word≃Below

-- The type of the integers whose halves fit 64 bits equals that of the numbers below 2 ^ 128: along
-- the equality an integer is its value, `+=` and `-=` are addition and subtraction modulo 2 ^ 128,
-- and `<`, `<=`, `==`, `>`, `>=` and `!=` are the tests of the numbers.
Word-eq-Below :
    PathP (λ i. same i → same i → same i) add add_mod
    × PathP (λ i. same i → same i → same i) sub sub_mod
    × PathP (λ i. same i → same i → Bool) (λ a b. lt a.0 b.0) (λ j k. ltb j.0 k.0)
    × PathP (λ i. same i → same i → Bool) (λ a b. le a.0 b.0) (λ j k. leb j.0 k.0)
    × PathP (λ i. same i → same i → Bool) (λ a b. eq a.0 b.0) (λ j k. j.0 == k.0)
    × PathP (λ i. same i → same i → Bool) (λ a b. gt a.0 b.0) (λ j k. ltb k.0 j.0)
    × PathP (λ i. same i → same i → Bool) (λ a b. ge a.0 b.0) (λ j k. leb k.0 j.0)
    × PathP (λ i. same i → same i → Bool) (λ a b. ne a.0 b.0) (λ j k. not (j.0 == k.0))
    × ((w : Word) → PathP (λ i. same i) w (number w))
Word-eq-Below = (
  ua-glue_op₂ Word≃Below number-add,
  ua-glue_op₂ Word≃Below number-sub,
  ua-glue_test Word≃Below (λ a b. (compare-number a b).0),
  ua-glue_test Word≃Below (λ a b. (compare-number a b).1),
  ua-glue_test Word≃Below (λ a b. (compare-number a b).2),
  ua-glue_test Word≃Below (λ a b. (compare-number a b).3),
  ua-glue_test Word≃Below (λ a b. (compare-number a b).4),
  ua-glue_test Word≃Below (λ a b. (compare-number a b).5),
  λ w. ua-glue_path Word≃Below refl,
)
