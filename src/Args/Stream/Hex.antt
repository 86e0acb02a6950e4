-- ===== src/Args/Stream/Hex.antt =====
-- Hex streams: what `str2val` makes of the usual notation of bytes, and how much it stores.
use sendip.Base.{ℕ, zero, suc, ◌+◌, ◌-◌, ◌*◌, ◌/◌, ◌%◌, ◌≤◌, ◌<◌, min, ◌≡◌, refl, inl, inr, arith}
use sendip.Base.{List, [], ◌∷◌, length, length-take, take, All, IsByte, some, ltb}
use sendip.Base.{Bool, true, false, if◌then◌else◌, Option-cases, u8}
use sendip.Args.Stream.{hex_digit, hex_loop, str2val}

-- A nibble as a hex digit.
abbrev pub nibble : ℕ → ℕ
nibble n = if ltb n 10 then b'0' + n else b'a' + (n - 10)

abbrev pub to_hex : List ℕ → List ℕ
to_hex [] = []
to_hex (b ∷ bytes) = nibble (b / 16) ∷ nibble (b % 16) ∷ to_hex bytes

hex_digit-nibble : (n : ℕ) → n < 16 → hex_digit (nibble n) ≡ some n
unfolding hex_digit
hex_digit-nibble n h = ground arith

hex_loop-to_hex :
    (bytes : List ℕ) (max : ℕ)
    → All IsByte bytes
    → hex_loop false 0 max (to_hex bytes) ≡ (take max bytes, true)
unfolding hex_loop
hex_loop-to_hex bytes zero h = refl
hex_loop-to_hex [] (suc max) h = refl
hex_loop-to_hex (b ∷ bytes) (suc max) h =
    ground
      (arith, hex_digit-nibble (b / 16), hex_digit-nibble (b % 16), hex_loop-to_hex bytes max h.1)

-- Bytes written in hex behind "0x" are read back, as many as the buffer holds.
pub str2val-to_hex :
    (bytes : List ℕ) (outlen : ℕ)
    → All IsByte bytes
    → str2val (b'0' ∷ b'x' ∷ to_hex bytes) outlen
      ≡ record { written = take outlen bytes; count = min outlen (length bytes) }
unfolding str2val
str2val-to_hex bytes outlen h =
    rw (hex_loop-to_hex bytes outlen h) (rw (length-take outlen bytes) refl)

pub hex_loop-bound : (odd : Bool) (c max : ℕ) (p : List ℕ) → length (hex_loop odd c max p).0 ≤ max
unfolding hex_loop
hex_loop-bound odd c zero p = omega arith
hex_loop-bound odd c (suc max) [] = ground arith
hex_loop-bound true c (suc max) (d ∷ p) = elim (Option-cases (hex_digit d)) [
  | inl bad ↦ rw (bad, hex_loop) (omega arith)
  | inr (v, good) ↦ rw (good, hex_loop) (omega (arith, hex_loop-bound false 0 max p))
]
hex_loop-bound false c (suc max) (d ∷ p) = elim (Option-cases (hex_digit d)) [
  | inl bad ↦ rw (bad, hex_loop) (omega arith)
  | inr (v, good) ↦ rw (good, hex_loop) (hex_loop-bound true (u8 (u8 (c + v) * 16)) (suc max) p)
]
