-- ===== src/Crc/Table.antt =====
-- crc32.h: the table against the definition by bits.
use sendip.Base.{
  ℕ, zero, suc, ◌+◌, ◌-◌, ◌*◌, ◌/◌, ◌%◌, ◌^◌, ◌<◌, ◌≡◌, refl, sym, ap, ◌∙◌, arith, inl, inr, List,
  [], ◌∷◌, Bool, true, ◌&&◌, ◌==◌, Bool-cases, length, get_or, bit_xor, All, IsByte,
}
use native.Mathlib.Nat.{pow-suc}
use sendip.Base.Xor.{
  bit_xor_assoc, bit_xor-bound, bit_xor-zero, bit_xor-half, bit_xor-low, bit_xor-shift,
  bit_xor-split,
}
use sendip.Crc.{crc_c, crc_step, crc_loop, crc32}
use sendip.Crc.Bitwise.{poly, shift_bit, shift_bits, remainder, crc32c}

-- Entries that stand for themselves, from `i` on.
matches : ℕ → List ℕ → Bool
matches i [] = true
matches i (v ∷ table) = (v == shift_bits 8 i) && matches (i + 1) table

matches-get_or :
    (i j : ℕ) (table : List ℕ)
    → matches i table ≡ true
    → j < length table
    → get_or table j 0 ≡ shift_bits 8 (i + j)
unfolding matches
matches-get_or i j [] h lt = absurd (omega arith)
matches-get_or i zero (v ∷ table) h lt =
    let same : v ≡ shift_bits 8 i = ground (arith, h) in same ∙ ap (shift_bits 8) (omega arith)
matches-get_or i (suc j) (v ∷ table) h lt =
    matches-get_or (i + 1) j table (ground (arith, h)) (omega arith)
    ∙ ap (shift_bits 8) (omega arith)

crc_c-matches : matches 0 crc_c ≡ true
unfolding matches crc_c shift_bits shift_bit
crc_c-matches = refl

crc_c-shift_bits : (i : ℕ) → i < 256 → get_or crc_c i 0 ≡ shift_bits 8 i
unfolding crc_c
crc_c-shift_bits i h = matches-get_or 0 i crc_c crc_c-matches h ∙ ap (shift_bits 8) (omega arith)

shift_bit-xor : (r : ℕ) → shift_bit r ≡ bit_xor (r / 2) (r % 2 * poly)
unfolding shift_bit
shift_bit-xor r = elim (Bool-cases (r % 2 == 1)) [
  | inl odd ↦ let one : r % 2 * poly ≡ poly = ground (arith, odd) in rw (odd, one) refl
  | inr even ↦
      let none_left : r % 2 * poly ≡ 0 = ground (arith, even) in
      rw even (sym (ap (bit_xor (r / 2)) none_left ∙ bit_xor-zero (r / 2)))
]

-- Digits above those that are shifted out stay as they are.
shift_bits-high : (n y w : ℕ) → shift_bits n (bit_xor (y * 2 ^ n) w) ≡ bit_xor y (shift_bits n w)
unfolding shift_bits
shift_bits-high zero y w = ap (λ t. bit_xor t w) (omega arith)
shift_bits-high (suc n) y w =
    let x = bit_xor (y * 2 ^ suc n) w in
    let double : y * 2 ^ suc n ≡ 2 * (y * 2 ^ n) =
      omega (arith, ap (λ (t : ℕ). y * t) (pow-suc 2 n)) in
    let half : x / 2 ≡ bit_xor (y * 2 ^ n) (w / 2) =
      bit_xor-half (y * 2 ^ suc n) w ∙ ap (λ t. bit_xor t (w / 2)) (omega (arith, double)) in
    let low : x % 2 ≡ w % 2 = omega (arith, bit_xor-low (y * 2 ^ suc n) w, double) in
    let step : shift_bit x ≡ bit_xor (y * 2 ^ n) (shift_bit w) =
      shift_bit-xor x
      ∙ ap (λ t. bit_xor t (x % 2 * poly)) half
      ∙ ap (λ t. bit_xor (bit_xor (y * 2 ^ n) (w / 2)) (t * poly)) low
      ∙ bit_xor_assoc (y * 2 ^ n) (w / 2) (w % 2 * poly)
      ∙ ap (bit_xor (y * 2 ^ n)) (sym (shift_bit-xor w)) in
    ap (shift_bits n) step ∙ shift_bits-high n y (shift_bit w)

-- One byte by the table is eight bits.
crc_step-shift_bits : (crc b : ℕ) → b < 256 → crc_step crc b ≡ shift_bits 8 (bit_xor crc b)
unfolding crc_step
crc_step-shift_bits crc b h =
    let x = bit_xor crc b in
    let high : x / 2 ^ 8 ≡ crc / 2 ^ 8 =
      bit_xor-shift 8 crc b
      ∙ ap (bit_xor (crc / 2 ^ 8)) (omega arith)
      ∙ bit_xor-zero (crc / 2 ^ 8) in
    ap (bit_xor (crc / 2 ^ 8)) (crc_c-shift_bits (x % 2 ^ 8) (omega arith))
    ∙ sym (
        ap (shift_bits 8) (sym (bit_xor-split 8 x))
        ∙ shift_bits-high 8 (x / 2 ^ 8) (x % 2 ^ 8)
        ∙ ap (λ t. bit_xor t (shift_bits 8 (x % 2 ^ 8))) high)

crc_loop-remainder :
    (crc : ℕ) (buffer : List ℕ) → All IsByte buffer → crc_loop crc buffer ≡ remainder crc buffer
unfolding crc_loop remainder
crc_loop-remainder crc [] h = refl
crc_loop-remainder crc (b ∷ buffer) h =
    ap (λ r. crc_loop r buffer) (crc_step-shift_bits crc b h.0)
    ∙ crc_loop-remainder (shift_bits 8 (bit_xor crc b)) buffer h.1

shift_bit-bound : (r : ℕ) → r < 2 ^ 32 → shift_bit r < 2 ^ 32
unfolding shift_bit
shift_bit-bound r h = ground (arith, bit_xor-bound 32 (r / 2) poly (omega arith) (omega arith))

shift_bits-bound : (n r : ℕ) → r < 2 ^ 32 → shift_bits n r < 2 ^ 32
unfolding shift_bits
shift_bits-bound zero r h = h
shift_bits-bound (suc n) r h = shift_bits-bound n (shift_bit r) (shift_bit-bound r h)

remainder-bound :
    (r : ℕ) (bytes : List ℕ) → All IsByte bytes → r < 2 ^ 32 → remainder r bytes < 2 ^ 32
unfolding remainder
remainder-bound r [] h lt = lt
remainder-bound r (b ∷ bytes) h lt =
    remainder-bound (shift_bits 8 (bit_xor r b)) bytes h.1
      (shift_bits-bound 8 (bit_xor r b) (bit_xor-bound 32 r b lt (omega (arith, h.0))))

-- The routine by the table gives, on any bytes, the CRC32c that shifts out one bit at a time, with
-- the register set to ones at first and complemented at the end.
pub crc32-crc32c : (buffer : List ℕ) → All IsByte buffer → crc32 buffer ≡ crc32c buffer
unfolding crc32
crc32-crc32c buffer h = omega (
  arith,
  crc_loop-remainder (2 ^ 32 - 1) buffer h,
  remainder-bound (2 ^ 32 - 1) buffer h (omega arith),
)
