-- ===== src/Base/Flags.antt =====
-- The masks `pack->modified`: a test `m & f` and a mark `m |= f` of one bit.
use Prim.Native.Nat.{ℕ, zero, suc, ◌*◌, ◌^◌, ◌≤◌, ◌<◌, ◌/◌, ◌%◌, bit_and, bit_or, bit_and-bitwise}
use mathlib.Core.Path.{◌≡◌, refl}
use mathlib.Core.Logic.{◌⊎◌, inl, inr}
use mathlib.Core.Bool.{Bool, true, false, not, ◌||◌}
use native.Mathlib.Omega.{arith}
use native.Mathlib.Nat.{one-le-pow}
use sendip.Base.Tests.{◌==◌}
use sendip.Base.Bits.{digit, digit-bit_or, digit-pow, bit_and-pow, digit-le-one, digit_seven}

-- `m & f` read as a condition.
pub has : ℕ → ℕ → Bool
has m f = not (bit_and m f == 0)

-- `m |= f`
abbrev pub mark : ℕ → ℕ → ℕ
mark m f = bit_or m f

-- A one-bit mask tests that bit.
has-digit : (m k : ℕ) → has m (2 ^ k) ≡ (digit m k == 1)
unfolding has
has-digit m k =
    ground
      (arith, bit_and-pow m k, digit-le-one m k, one-le-pow k 2, digit_cases (digit m k) (2 ^ k))
  where
    digit_cases : (d p : ℕ) → d ≤ 1 → ((d ≡ 0) × (d * p ≡ 0)) ⊎ ((d ≡ 1) × (d * p ≡ p))
    digit_cases zero p h = inl (refl, omega arith)
    digit_cases (suc zero) p h = inr (refl, omega arith)
    digit_cases (suc (suc d)) p h = absurd (omega arith)

-- A mask with bit 7 has a low byte that is not 0.
pub has_seven : (m : ℕ) → has m (2 ^ 7) ≡ true → 0 < m % 256
has_seven m h =
    let seven : m / 128 % 2 ≡ 1 = ground (arith, h, has-digit m 7, digit_seven m) in omega arith

-- After `m |= 1 << j` the bit `j` is set, and every other is as it was.
pub has-mark : (m j k : ℕ) → has (mark m (2 ^ j)) (2 ^ k) ≡ ((j == k) || has m (2 ^ k))
has-mark m j k = ground (
  arith,
  has-digit (mark m (2 ^ j)) k,
  has-digit m k,
  digit-bit_or m (2 ^ j) k,
  digit-pow j k,
  digit-le-one m k,
)

pub has-mark_self : (m k : ℕ) → has (mark m (2 ^ k)) (2 ^ k) ≡ true
has-mark_self m k = ground (arith, has-mark m k k)

-- Nothing is marked at first.
pub has-zero : (f : ℕ) → has 0 f ≡ false
unfolding has
has-zero f = ground (arith, bit_and-bitwise 0 f)
