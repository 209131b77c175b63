-- ===== src/Uint128/Value.antt =====
-- The operations of server/uint128.h against the numbers that the two halves stand for.
use p4runtime_grpcpp.Base.{ℕ, ◌+◌, ◌-◌, ◌*◌, ◌%◌, ◌^◌, ◌≤◌, ◌<◌, ◌≡◌, ◌↔◌, true, arith}
use p4runtime_grpcpp.Uint128.{
  Uint128, uint64_mod, add_assign, sub_assign, increment, decrement, post_increment, post_decrement,
  eq, ne, lt, le, gt, ge,
}

-- Both halves fit 64 bits.
pub record IsUint128 (n : Uint128) : Type 0 where
  pub high : n.high < uint64_mod
  pub low : n.low < uint64_mod

abbrev pub value : Uint128 → ℕ
value n = n.high * 2 ^ 64 + n.low

-- On integers whose halves fit 64 bits, addition is that of the values modulo 2 ^ 128, and the
-- halves still fit.
pub value-add_assign :
    (a b : Uint128)
    → IsUint128 a
    → IsUint128 b
    → (value (add_assign a b) ≡ (value a + value b) % 2 ^ 128) × IsUint128 (add_assign a b)
unfolding add_assign
value-add_assign a b ha hb = ground arith

-- On integers whose halves fit 64 bits, subtraction is that of the values modulo 2 ^ 128, and the
-- halves still fit.
pub value-sub_assign :
    (a b : Uint128)
    → IsUint128 a
    → IsUint128 b
    → (value (sub_assign a b) ≡ (value a + 2 ^ 128 - value b) % 2 ^ 128)
      × IsUint128 (sub_assign a b)
unfolding sub_assign
value-sub_assign a b ha hb = ground arith

-- Subtraction undoes addition.
sub_assign-add_assign :
    (a b : Uint128) → IsUint128 a → IsUint128 b → sub_assign (add_assign a b) b ≡ a
unfolding add_assign sub_assign
sub_assign-add_assign a b ha hb = ground arith

-- On integers whose halves fit 64 bits, each comparison decides the comparison of the values.
compare_values :
    (a b : Uint128)
    → IsUint128 a
    → IsUint128 b
    → ((lt a b ≡ true) ↔ (value a < value b))
      × ((le a b ≡ true) ↔ (value a ≤ value b))
      × ((gt a b ≡ true) ↔ (value b < value a))
      × ((ge a b ≡ true) ↔ (value b ≤ value a))
      × ((eq a b ≡ true) ↔ (value a ≡ value b))
      × ((ne a b ≡ true) ↔ (¬ (value a ≡ value b)))
unfolding lt le gt ge eq ne
compare_values a b ha hb = ground arith

-- On integers whose halves fit 64 bits, `++` and `--` step by one around 2 ^ 128, in the prefix and
-- the postfix form, and undo one another.
value-increment :
    (a : Uint128)
    → IsUint128 a
    → (value (increment a) ≡ (value a + 1) % 2 ^ 128)
      × (value (decrement a) ≡ (value a + 2 ^ 128 - 1) % 2 ^ 128)
      × (post_increment a ≡ (a, increment a))
      × (post_decrement a ≡ (a, decrement a))
      × (decrement (increment a) ≡ a)
      × (increment (decrement a) ≡ a)
unfolding increment decrement post_increment post_decrement
value-increment a ha = ground arith
