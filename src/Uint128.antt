-- ===== src/Uint128.antt =====
-- server/uint128.h: unsigned 128-bit numbers as two 64-bit halves. A 64-bit operation wraps.
pub mod Value
pub mod Numbers
pub mod Print
pub mod Output
use p4runtime_grpcpp.Base.{
  ℕ, ◌+◌, ◌-◌, ◌*◌, ◌%◌, ◌^◌, ◌<◌, Bool, not, ◌&&◌, ◌||◌, ltb, leb, ◌==◌, if◌then◌else◌,
}

abbrev pub uint64_mod : ℕ
uint64_mod = 2 ^ 64

abbrev pub add64 : ℕ → ℕ → ℕ
add64 a b = (a + b) % uint64_mod

abbrev pub sub64 : ℕ → ℕ → ℕ
sub64 a b = (a + uint64_mod - b) % uint64_mod

pub record Uint128 : Type 0 where
  pub high : ℕ
  pub low : ℕ

-- The constructor from an integer of at most 64 bits.
abbrev pub of_uint64 : ℕ → Uint128
of_uint64 i = record { high = 0; low = i }

-- `operator+=`: a new low half that is smaller than the old one tells of a carry.
unfoldable pub add_assign : Uint128 → Uint128 → Uint128
add_assign n other =
    let high = add64 n.high other.high in
    let new_low = add64 n.low other.low in
    record { high = if ltb new_low n.low then add64 high 1 else high; low = new_low }

-- `operator-=`: a new low half that is larger than the old one tells of a borrow.
unfoldable pub sub_assign : Uint128 → Uint128 → Uint128
sub_assign n other =
    let high = sub64 n.high other.high in
    let new_low = sub64 n.low other.low in
    record { high = if ltb n.low new_low then sub64 high 1 else high; low = new_low }

-- `++n` and `--n`.
unfoldable pub increment : Uint128 → Uint128
unfolding add_assign
increment n = add_assign n (of_uint64 1)

unfoldable pub decrement : Uint128 → Uint128
unfolding sub_assign
decrement n = sub_assign n (of_uint64 1)

-- `n++` and `n--`: the old value, and what `n` holds afterwards.
unfoldable pub post_increment : Uint128 → Uint128 × Uint128
unfolding add_assign
post_increment n = (n, add_assign n (of_uint64 1))

unfoldable pub post_decrement : Uint128 → Uint128 × Uint128
unfolding sub_assign
post_decrement n = (n, sub_assign n (of_uint64 1))

unfoldable pub eq : Uint128 → Uint128 → Bool
eq a b = a.high == b.high && a.low == b.low

unfoldable pub ne : Uint128 → Uint128 → Bool
unfolding eq
ne a b = not (eq a b)

unfoldable pub lt : Uint128 → Uint128 → Bool
lt a b = ltb a.high b.high || (a.high == b.high && ltb a.low b.low)

unfoldable pub le : Uint128 → Uint128 → Bool
le a b = ltb a.high b.high || (a.high == b.high && leb a.low b.low)

unfoldable pub gt : Uint128 → Uint128 → Bool
unfolding le
gt a b = not (le a b)

unfoldable pub ge : Uint128 → Uint128 → Bool
unfolding lt
ge a b = not (lt a b)
