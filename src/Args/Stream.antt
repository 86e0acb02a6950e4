-- ===== src/Args/Stream.antt =====
-- `str2val`: hex and octal streams, and plain text. A `char` is a number below 256.
pub mod Hex
pub mod Octal
pub mod Bounds
use sendip.Base.{
  ℕ, zero, suc, ◌+◌, ◌-◌, ◌*◌, ◌%◌, List, [], ◌∷◌, ◌++◌, length, take, Option, none, some,
}
use sendip.Base.{Bool, true, false, ◌&&◌, ◌||◌, ltb, leb, ◌==◌, if◌then◌else◌, u8}
use sendip.Libc.{first_char, rest_of}

-- The bytes stored from `output` on, and the number that the function returns.
pub record Val : Type 0 where
  pub written : List ℕ
  pub count : ℕ

unfoldable pub hex_digit : ℕ → Option ℕ
hex_digit c =
    if leb b'0' c && leb c b'9'
    then some (c - b'0')
    else if leb b'A' c && leb c b'F'
    then some (c - b'A' + 10)
    else if leb b'a' c && leb c b'f'
    then some (c - b'a' + 10)
    else none

pub oct_digit : ℕ → Option ℕ
oct_digit c = if leb b'0' c && leb c b'7' then some (c - b'0') else none

-- One more byte is stored; the flag tells that no invalid character was met.
abbrev pub emit : ℕ → List ℕ × Bool → List ℕ × Bool
emit c (bytes, valid) = (c ∷ bytes, valid)

-- The hex loop: `odd` is `i & 1`, `c` the byte at hand, and `max` what room is left.
pub hex_loop : Bool → ℕ → ℕ → List ℕ → List ℕ × Bool
hex_loop odd c zero p = ([], true)
hex_loop odd c (suc max) [] = (if odd then c ∷ [] else [], true)
hex_loop odd c (suc max) (d ∷ p) = elim (hex_digit d) [
  | none ↦ ([], false)
  | some v ↦ elim odd [
    | true ↦ emit (u8 (c + v)) (hex_loop false 0 max p)
    | false ↦ hex_loop true (u8 (u8 (c + v) * 16)) (suc max) p
  ]
]

-- The octal loop, with the position `i` in the stream.
pub oct_loop : ℕ → ℕ → ℕ → List ℕ → List ℕ × Bool
oct_loop i c zero p = ([], true)
oct_loop i c (suc max) [] = (if i % 4 == 0 then [] else c ∷ [], true)
oct_loop i c (suc max) (d ∷ p) = elim (oct_digit d) [
  | none ↦ ([], false)
  | some v ↦ elim (i % 4 == 3) [
    | true ↦ emit (u8 (c + v)) (oct_loop (i + 1) 0 max p)
    | false ↦ oct_loop (i + 1) (u8 (u8 (c + v) * 4)) (suc max) p
  ]
]

-- `return outlen - max`, or `return 0` at an invalid character.
abbrev pub stream_val : List ℕ × Bool → Val
stream_val (bytes, valid) = record { written = bytes; count = if valid then length bytes else 0 }

-- `strlcpy(output, input, outlen)`, which returns the length of its source.
abbrev pub strlcpy : List ℕ → ℕ → Val
strlcpy input zero = record { written = []; count = length input }
strlcpy input (suc n) = record { written = take n input ++ (0 ∷ []); count = length input }

unfoldable pub str2val : List ℕ → ℕ → Val
unfolding hex_loop oct_loop hex_digit oct_digit
str2val input outlen =
    let p = rest_of input in
    if first_char input == b'0' && (first_char p == b'x' || first_char p == b'X')
    then stream_val (hex_loop false 0 outlen (rest_of p))
    else if first_char input == b'0'
    then stream_val (oct_loop 0 0 outlen p)
    else strlcpy input outlen
