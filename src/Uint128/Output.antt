-- ===== src/Uint128/Output.antt =====
-- server/uint128.cpp: the output operator on a stream with its formatting state, and
-- `StreamStateSaver`. What the stream does with its state is as the standard of C++ says.
use mathlib.Core.List.{append_assoc}
use p4runtime_grpcpp.Base.{
  ℕ, zero, suc, ◌+◌, ◌-◌, ◌/◌, ◌%◌, ◌≡◌, refl, Bool, true, false, [], ◌∷◌, ◌++◌, Bytes, codes,
  length, replicate, map, leb, ltb, ◌==◌, ◌&&◌, if◌then◌else◌, Bool-cases, inl, inr, arith,
}
use p4runtime_grpcpp.Hex.{hex as hex_digits, padded}
use p4runtime_grpcpp.Uint128.Print.{print}
use p4runtime_grpcpp.Uint128.{Uint128}

pub data Basefield : Type 0 where
  dec oct hex : Basefield

pub data Adjustfield : Type 0 where
  left right internal : Adjustfield

-- What `copyfmt` copies of a stream, as far as the operator meets it.
pub record Fmt : Type 0 where
  pub base : Basefield
  pub adjust : Adjustfield
  pub showbase : Bool
  pub uppercase : Bool
  pub width : ℕ
  pub fill : ℕ

pub record Ostream : Type 0 where
  pub written : Bytes
  pub fmt : Fmt

-- Digits of a number in a base of at most ten, of at most `n` digits.
digits_from : ℕ → ℕ → ℕ → Bytes
digits_from zero radix a = []
digits_from (suc n) radix a = elim (ltb a radix) [
  | true ↦ (48 + a) ∷ []
  | false ↦ digits_from n radix (a / radix) ++ (48 + a % radix) ∷ []
]

-- The digits, in octal behind the 0 that `showbase` puts before a number that is not 0.
abbrev digits : Fmt → ℕ → Bytes
digits f a = elim (f.base) [
  | dec ↦ digits_from 20 10 a
  | oct ↦ let text = digits_from 22 8 a in if f.showbase && ltb 0 a then 48 ∷ text else text
  | hex ↦ hex_digits a
]

abbrev upper : ℕ → ℕ
upper c = if leb 97 c && leb c 122 then c - 32 else c

-- The prefix that `showbase` puts before the hexadecimal digits of a number that is not 0.
abbrev base_prefix : Fmt → ℕ → Bytes
base_prefix f a = elim (f.base) [ hex ↦ if f.showbase && ltb 0 a then codes "0x" else [] | _ ↦ [] ]

abbrev pub fill_up : Fmt → ℕ → Bytes
fill_up f n = replicate (f.width - n) f.fill

-- A text in two parts, with the fill characters where the adjustment puts them: `internal` between the
-- parts. The width is 0 afterwards.
insert_text : Ostream → Bytes → Bytes → Ostream
insert_text out front back =
    let f = out.fmt in
    let padding = fill_up f (length (front ++ back)) in
    record {
      written = out.written ++ elim (f.adjust) [
        | left ↦ front ++ (back ++ padding)
        | right ↦ padding ++ (front ++ back)
        | internal ↦ front ++ (padding ++ back)
      ];
      fmt = record f { width = 0 };
    }

-- `out << s` for a C string, which `internal` fills in front.
insert_string : Ostream → Bytes → Ostream
insert_string out s = insert_text out [] s

-- `out << a` for a `uint64_t`.
insert_uint64 : Ostream → ℕ → Ostream
insert_uint64 out a =
    let cased = λ (s : Bytes). if out.fmt.uppercase then map upper s else s in
    insert_text out (cased (base_prefix out.fmt a)) (cased (digits out.fmt a))

abbrev set_hex : Ostream → Ostream
set_hex out = record out { fmt = record out.fmt { base = Basefield.hex } }

abbrev setw : ℕ → Ostream → Ostream
setw n out = record out { fmt = record out.fmt { width = n } }

abbrev setfill : ℕ → Ostream → Ostream
setfill c out = record out { fmt = record out.fmt { fill = c } }

-- `ref.copyfmt(state)` of the destructor, with the state that the constructor copied.
abbrev restore : Fmt → Ostream → Ostream
restore state out = record out { fmt = state }

-- `operator<<`.
pub put : Ostream → Uint128 → Ostream
put out n =
    let out₁ = insert_string out (codes "0x") in
    let out₂ =
      if n.high == 0
      then insert_uint64 (set_hex out₁) n.low
      else insert_uint64 (setfill 48 (setw 16 (insert_uint64 (set_hex out₁) n.high))) n.low in
    restore out.fmt out₂

-- A state in which no base is shown, letters are small, and fill characters stand in front.
abbrev pub plain : Basefield → ℕ → ℕ → Fmt
plain base width fill = record {
  base = base;
  adjust = Adjustfield.right;
  showbase = false;
  uppercase = false;
  width = width;
  fill = fill;
}

abbrev stream : Bytes → Fmt → Ostream
stream written fmt = record { written = written; fmt = fmt }

insert_uint64-plain :
    (written : Bytes) (width fill a : ℕ)
    → insert_uint64 (stream written (plain Basefield.hex width fill)) a
      ≡ stream
          (written ++ (replicate (width - length (hex_digits a)) fill ++ hex_digits a))
          (plain Basefield.hex 0 fill)
unfolding insert_uint64 insert_text
insert_uint64-plain written width fill a = refl

insert_uint64-no_width :
    (written : Bytes) (fill a : ℕ)
    → insert_uint64 (stream written (plain Basefield.hex 0 fill)) a
      ≡ stream (written ++ hex_digits a) (plain Basefield.hex 0 fill)
insert_uint64-no_width written fill a =
    let nothing : 0 - length (hex_digits a) ≡ 0 = omega arith in
    rw (insert_uint64-plain written 0 fill a, nothing) refl

put-plain :
    (written : Bytes) (base : Basefield) (width fill : ℕ) (n : Uint128)
    → put (stream written (plain base width fill)) n
      ≡ stream (written ++ (replicate (width - 2) fill ++ print n)) (plain base width fill)
unfolding put print insert_string insert_text padded
put-plain written base width fill n =
    let before : Bytes = written ++ (replicate (width - 2) fill ++ codes "0x") in
    elim (Bool-cases (n.high == 0)) [
      | inl small ↦ ground (
        arith,
        small,
        insert_uint64-no_width before fill n.low,
        append_assoc written (replicate (width - 2) fill ++ codes "0x") (hex_digits n.low),
        append_assoc (replicate (width - 2) fill) (codes "0x") (hex_digits n.low),
      )
      | inr large ↦
          let low : Bytes = padded 16 (hex_digits n.low) in
          let all : Bytes = hex_digits n.high ++ low in
          ground (
            arith,
            large,
            insert_uint64-no_width before fill n.high,
            insert_uint64-plain (before ++ hex_digits n.high) 16 48 n.low,
            append_assoc before (hex_digits n.high) low,
            append_assoc written (replicate (width - 2) fill ++ codes "0x") all,
            append_assoc (replicate (width - 2) fill) (codes "0x") all,
          )
    ]

-- On a stream that shows no base, writes small letters and puts fill characters in front, the
-- output operator writes what `print` says behind the fill characters that the stream's own width
-- asks for in front of `0x`, and leaves the formatting state as it was, the width included.
pub put-print :
    (out : Ostream) (n : Uint128)
    → out.fmt.showbase ≡ false
    → out.fmt.uppercase ≡ false
    → out.fmt.adjust ≡ Adjustfield.right
    → put out n ≡ record out { written = out.written ++ (fill_up out.fmt 2 ++ print n) }
put-print out n no_base small in_front =
    let is : out ≡ stream out.written (plain out.fmt.base out.fmt.width out.fmt.fill) =
      ground (arith, no_base, small, in_front) in
    rw (is, put-plain out.written out.fmt.base out.fmt.width out.fmt.fill n) refl
