-- ===== src/Uint128/Print.antt =====
-- server/uint128.cpp: the output operator, and reading its digits back.
use native.Mathlib.Decide.{ℕ_discrete}
use p4runtime_grpcpp.Base.{
  ◌≢◌, ◌≡◌, refl, ap, ◌∙◌, ◌++◌, Bytes, codes, take, drop, ◌==◌, if◌then◌else◌, arith,
}
use p4runtime_grpcpp.Hex.{
  hex, padded, read_hex, read_hex-append, read_hex-hex, read_hex-padded, length-hex-le,
}
use p4runtime_grpcpp.Uint128.Value.{IsUint128, value}
use p4runtime_grpcpp.Uint128.{Uint128}

-- `operator<<`.
unfoldable pub print : Uint128 → Bytes
print n = codes "0x" ++ (if n.high == 0 then hex n.low else hex n.high ++ padded 16 (hex n.low))

print_small : (n : Uint128) → n.high ≡ 0 → drop 2 (print n) ≡ hex n.low
unfolding print
print_small n small = ground arith

print_large : (n : Uint128) → n.high ≢ 0 → drop 2 (print n) ≡ hex n.high ++ padded 16 (hex n.low)
unfolding print
print_large n large = ground arith

-- What is printed of an integer whose halves fit 64 bits begins with `0x`, and the digits behind
-- say the value.
pub read_hex-print :
    (n : Uint128)
    → IsUint128 n
    → (take 2 (print n) ≡ codes "0x") × (read_hex 0 (drop 2 (print n)) ≡ value n)
unfolding print
read_hex-print n fits = (
  refl,
  elim (ℕ_discrete n.high 0) [
    | yes small ↦
        ap (read_hex 0) (print_small n small)
        ∙ read_hex-hex n.low (omega (arith, fits.low))
        ∙ omega (arith, small)
    | no large ↦
        let high = read_hex-hex n.high (omega (arith, fits.high)) in
        let low = read_hex-hex n.low (omega (arith, fits.low)) in
        ap (read_hex 0) (print_large n large)
        ∙ read_hex-append (hex n.high) (padded 16 (hex n.low)) 0
        ∙ read_hex-padded 16 (hex n.low) _ (length-hex-le 15 n.low (omega (arith, fits.low)))
        ∙ omega (arith, high, low)
  ],
)
