-- ===== src/Crc/Bitwise.antt =====
-- crc32.h: the definition of CRC32c by single bits, reflected, as RFC 3309 describes it.
use sendip.Base.{ℕ, zero, suc, ◌-◌, ◌/◌, ◌%◌, ◌^◌, List, [], ◌∷◌, ◌==◌, if◌then◌else◌, bit_xor}

-- The polynomial 0x1EDC6F41 from the low end.
abbrev pub poly : ℕ
poly = 2197175160

unfoldable pub shift_bit : ℕ → ℕ
shift_bit r = if r % 2 == 1 then bit_xor (r / 2) poly else r / 2

unfoldable pub shift_bits : ℕ → ℕ → ℕ
shift_bits zero r = r
shift_bits (suc n) r = shift_bits n (shift_bit r)

-- The remainder after the bytes: eight bits for each.
unfoldable pub remainder : ℕ → List ℕ → ℕ
remainder r [] = r
remainder r (b ∷ bytes) = remainder (shift_bits 8 (bit_xor r b)) bytes

abbrev pub crc32c : List ℕ → ℕ
crc32c bytes = 2 ^ 32 - 1 - remainder (2 ^ 32 - 1) bytes
