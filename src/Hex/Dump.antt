-- ===== src/Hex/Dump.antt =====
-- `convbytes` of server/device_mgr.c, the text of a log line.
use p4runtime_grpcpp.Base.{
  ap₂, ℕ, ◌%◌, ◌<◌, ◌≡◌, refl, ap, sym, ◌∙◌, [], ◌∷◌, ◌++◌, Bytes, length, arith, All,
}
use p4runtime_grpcpp.Hex.{
  hex, padded, read_hex, read_hex-hex, read_hex-padded, length-padded, length-hex-le,
}

-- Each byte as two digits and a blank.
unfoldable pub convbytes : Bytes → Bytes
convbytes [] = []
convbytes (b ∷ data_rest) = padded 2 (hex (b % 256)) ++ 32 ∷ convbytes data_rest

-- The bytes that a text of two digits and a blank each says.
unfoldable pub read_dump : Bytes → Bytes
read_dump (c ∷ d ∷ blank ∷ text) = read_hex 0 (c ∷ d ∷ []) ∷ read_dump text
read_dump _ = []

two_digits : (xs : Bytes) → length xs ≡ 2 → (c : ℕ) × (d : ℕ) × (xs ≡ c ∷ d ∷ [])
two_digits [] is = absurd (omega arith)
two_digits (c ∷ []) is = absurd (omega arith)
two_digits (c ∷ d ∷ []) is = (c, d, refl)
two_digits (c ∷ d ∷ e ∷ xs) is = absurd (omega arith)

-- The dump of bytes says the bytes.
pub read_dump-convbytes :
    (bytes : Bytes) → All (λ (b : ℕ). b < 256) bytes → read_dump (convbytes bytes) ≡ bytes
unfolding read_dump convbytes
read_dump-convbytes [] small = refl
read_dump-convbytes (b ∷ bytes) (lt, small) =
    let digits : Bytes = hex (b % 256) in
    let short = length-hex-le 1 (b % 256) (omega arith) in
    let (c, d, is) = two_digits (padded 2 digits) (length-padded 2 digits short) in
    let says = read_hex-padded 2 digits 0 short in
    let byte = read_hex-hex (b % 256) (omega arith) in
    let head : read_hex 0 (c ∷ d ∷ []) ≡ b = ap (read_hex 0) (sym is) ∙ omega (arith, says, byte) in
    rw is (ap₂ ◌∷◌ head (read_dump-convbytes bytes small))
