-- ===== src/Base/Bits.antt =====
-- The binary digits of the bit operations, one by one.
use Prim.Native.Nat.{ℕ, zero, suc, ◌+◌, ◌-◌, ◌*◌, ◌/◌, ◌%◌, ◌^◌, ◌≤◌, ◌<◌, min, max}
use Prim.Native.Nat.{digits, bitwise, bit_and, bit_or, bit_and-bitwise, bit_or-bitwise}
use mathlib.Core.Path.{◌≡◌, refl, ap, ◌∙◌}
use native.Mathlib.Nat.{pow-suc, one-le-pow, div-div-eq-div-mul}
use native.Mathlib.Omega.{arith}
use sendip.Base.Tests.{◌==◌, if◌then◌else◌}

-- Any count of digits that is large enough gives the same number.
digits_enough :
    (z : ℕ → ℕ) (f : ℕ → ℕ → ℕ) (k l x y : ℕ) → x ≤ k → x ≤ l → digits z f k x y ≡ digits z f l x y
digits_enough z f zero zero x y hk hl = refl
digits_enough z f zero (suc l) zero y hk hl = refl
digits_enough z f zero (suc l) (suc x) y hk hl = absurd (omega arith)
digits_enough z f (suc k) zero zero y hk hl = refl
digits_enough z f (suc k) zero (suc x) y hk hl = absurd (omega arith)
digits_enough z f (suc k) (suc l) zero y hk hl = refl
digits_enough z f (suc k) (suc l) (suc x) y hk hl =
    omega (arith, digits_enough z f k l (suc x / 2) (y / 2) (omega arith) (omega arith))

-- One digit of a bit operation at a time.
pub bitwise_digit :
    (z : ℕ → ℕ) (f : ℕ → ℕ → ℕ) (x y : ℕ)
    → bitwise z f (suc x) y ≡ bitwise z f (suc x / 2) (y / 2) * 2 + f (suc x % 2) (y % 2)
bitwise_digit z f x y =
    omega (arith, digits_enough z f x (suc x / 2) (suc x / 2) (y / 2) (omega arith) (omega arith))

pub bit_or_digit : (x y : ℕ) → bit_or x y ≡ bit_or (x / 2) (y / 2) * 2 + max (x % 2) (y % 2)
bit_or_digit zero y = simp bit_or-bitwise (omega arith)
bit_or_digit (suc x) y = simp bit_or-bitwise (bitwise_digit (λ b. b) max x y)

pub bit_and_digit : (x y : ℕ) → bit_and x y ≡ bit_and (x / 2) (y / 2) * 2 + min (x % 2) (y % 2)
bit_and_digit zero y = simp bit_and-bitwise (omega arith)
bit_and_digit (suc x) y = simp bit_and-bitwise (bitwise_digit (λ b. 0) min x y)

-- The digit of weight 2 ^ k.
pub digit : ℕ → ℕ → ℕ
digit x zero = x % 2
digit x (suc k) = digit (x / 2) k

pub digit_seven : (x : ℕ) → digit x 7 ≡ x / 128 % 2
unfolding digit
digit_seven x = omega arith

pub digit-bit_or : (x y k : ℕ) → digit (bit_or x y) k ≡ max (digit x k) (digit y k)
unfolding digit
digit-bit_or x y zero = omega (arith, bit_or_digit x y)
digit-bit_or x y (suc k) =
    let half : bit_or x y / 2 ≡ bit_or (x / 2) (y / 2) = omega (arith, bit_or_digit x y) in
    rw half (digit-bit_or (x / 2) (y / 2) k)

digit-zero : (k : ℕ) → digit 0 k ≡ 0
unfolding digit
digit-zero zero = refl
digit-zero (suc k) = digit-zero k

pub digit-pow : (j k : ℕ) → digit (2 ^ j) k ≡ (if j == k then 1 else 0)
unfolding digit
digit-pow zero zero = refl
digit-pow zero (suc k) = ground (arith, digit-zero k)
digit-pow (suc j) zero = ground (arith, pow-suc 2 j)
digit-pow (suc j) (suc k) =
    let half : 2 ^ suc j / 2 ≡ 2 ^ j = omega (arith, pow-suc 2 j) in
    rw half (ground (arith, digit-pow j k))

bit_and-zero : (n x : ℕ) → x ≤ n → bit_and x 0 ≡ 0
bit_and-zero n zero h = refl
bit_and-zero zero (suc x) h = absurd (omega arith)
bit_and-zero (suc n) (suc x) h =
    omega (arith, bit_and_digit (suc x) 0, bit_and-zero n (suc x / 2) (omega arith))

-- A mask of one bit picks that digit.
pub bit_and-pow : (x k : ℕ) → bit_and x (2 ^ k) ≡ digit x k * 2 ^ k
unfolding digit
bit_and-pow x zero = omega (arith, bit_and_digit x 1, bit_and-zero (x / 2) (x / 2) (omega arith))
bit_and-pow x (suc k) =
    let half : 2 ^ suc k / 2 ≡ 2 ^ k = omega (arith, pow-suc 2 k) in
    let here : bit_and x (2 ^ suc k)
        ≡ bit_and (x / 2) (2 ^ suc k / 2) * 2 + min (x % 2) (2 ^ suc k % 2) =
      bit_and_digit x (2 ^ suc k) in
    omega (
      arith,
      rw half at here,
      pow-suc 2 k,
      bit_and-pow (x / 2) k,
      ap (λ (t : ℕ). digit (x / 2) k * t) (pow-suc 2 k),
    )

pub digit-le-one : (x k : ℕ) → digit x k ≤ 1
unfolding digit
digit-le-one x zero = omega arith
digit-le-one x (suc k) = digit-le-one (x / 2) k

pub mod-double : (x m : ℕ) → 0 < m → x % (2 * m) ≡ x / 2 % m * 2 + x % 2
mod-double x m h = omega (arith, ap (λ (t : ℕ). m * t) (div-div-eq-div-mul x 2 m))

-- A mask of the low bits is a remainder.
pub bit_and-mask : (x k : ℕ) → bit_and x (2 ^ k - 1) ≡ x % 2 ^ k
bit_and-mask x zero = omega (arith, bit_and-zero x x (omega arith))
bit_and-mask x (suc k) =
    let double : 2 ^ suc k ≡ 2 * 2 ^ k = omega (arith, pow-suc 2 k) in
    let half : (2 ^ suc k - 1) / 2 ≡ 2 ^ k - 1 = omega (arith, pow-suc 2 k, one-le-pow k 2) in
    let here : bit_and x (2 ^ suc k - 1)
        ≡ bit_and (x / 2) ((2 ^ suc k - 1) / 2) * 2 + min (x % 2) ((2 ^ suc k - 1) % 2) =
      bit_and_digit x (2 ^ suc k - 1) in
    omega (
      arith,
      rw half at here,
      pow-suc 2 k,
      one-le-pow k 2,
      bit_and-mask (x / 2) k,
      ap (λ (t : ℕ). x % t) double ∙ mod-double x (2 ^ k) (one-le-pow k 2 (omega arith)),
    )

zero-bit_or : (y : ℕ) → bit_or 0 y ≡ y
zero-bit_or y = bit_or-bitwise 0 y

bit_or-zero : (n x : ℕ) → x ≤ n → bit_or x 0 ≡ x
bit_or-zero n zero h = zero-bit_or 0
bit_or-zero zero (suc x) h = absurd (omega arith)
bit_or-zero (suc n) (suc x) h =
    omega (arith, bit_or_digit (suc x) 0, bit_or-zero n (suc x / 2) (omega arith))

-- Fields that do not overlap are put together as a sum.
pub bit_or-low_high : (k r q : ℕ) → r < 2 ^ k → bit_or r (q * 2 ^ k) ≡ r + q * 2 ^ k
bit_or-low_high zero r q h = ground (arith, zero-bit_or (q * 1))
bit_or-low_high (suc k) r q h =
    let double : q * 2 ^ suc k ≡ 2 * (q * 2 ^ k) =
      omega (arith, ap (λ (t : ℕ). q * t) (pow-suc 2 k)) in
    let half : q * 2 ^ suc k / 2 ≡ q * 2 ^ k = omega (arith, double) in
    let here : bit_or r (q * 2 ^ suc k)
        ≡ bit_or (r / 2) (q * 2 ^ suc k / 2) * 2 + max (r % 2) (q * 2 ^ suc k % 2) =
      bit_or_digit r (q * 2 ^ suc k) in
    omega (arith, rw half at here, double, bit_or-low_high k (r / 2) q (omega (arith, pow-suc 2 k)))

pub bit_or-high_low : (k q r : ℕ) → r < 2 ^ k → bit_or (q * 2 ^ k) r ≡ q * 2 ^ k + r
bit_or-high_low zero q r h = ground (arith, bit_or-zero (q * 1) (q * 1))
bit_or-high_low (suc k) q r h =
    let double : q * 2 ^ suc k ≡ 2 * (q * 2 ^ k) =
      omega (arith, ap (λ (t : ℕ). q * t) (pow-suc 2 k)) in
    let half : q * 2 ^ suc k / 2 ≡ q * 2 ^ k = omega (arith, double) in
    let here : bit_or (q * 2 ^ suc k) r
        ≡ bit_or (q * 2 ^ suc k / 2) (r / 2) * 2 + max (q * 2 ^ suc k % 2) (r % 2) =
      bit_or_digit (q * 2 ^ suc k) r in
    omega (arith, rw half at here, double, bit_or-high_low k q (r / 2) (omega (arith, pow-suc 2 k)))
