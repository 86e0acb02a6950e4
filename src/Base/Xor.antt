-- ===== src/Base/Xor.antt =====
-- Exclusive or, one binary digit at a time.
use Prim.Native.Nat.{
  ℕ, zero, suc, ◌+◌, ◌*◌, ◌/◌, ◌%◌, ◌^◌, ◌≤◌, ◌<◌, bit_xor, bit_xor-bitwise, differ,
}
use mathlib.Core.Path.{◌≡◌, ap, sym, ◌∙◌}
use native.Mathlib.Nat.{
  pow-suc, one-le-pow, div-div-eq-div-mul, div-one, div-eq_of_lt, div-add-mod', mod-lt,
}
use native.Mathlib.Omega.{arith}
use sendip.Base.Bits.{bitwise_digit, mod-double}

differ_digit : (a b : ℕ) → a < 2 → b < 2 → differ a b ≡ (a + b) % 2
differ_digit zero b h k = omega arith
differ_digit (suc zero) zero h k = omega arith
differ_digit (suc zero) (suc zero) h k = omega arith
differ_digit (suc zero) (suc (suc b)) h k = absurd (omega arith)
differ_digit (suc (suc a)) b h k = absurd (omega arith)

pub bit_xor_digit : (x y : ℕ) → bit_xor x y ≡ bit_xor (x / 2) (y / 2) * 2 + (x + y) % 2
bit_xor_digit zero y = simp bit_xor-bitwise (omega arith)
bit_xor_digit (suc x) y = simp bit_xor-bitwise (
    omega (
      arith,
      bitwise_digit (λ b. b) differ x y,
      differ_digit (suc x % 2) (y % 2) (omega arith) (omega arith),
    ))

pub zero-bit_xor : (y : ℕ) → bit_xor 0 y ≡ y
zero-bit_xor y = bit_xor-bitwise 0 y

pub bit_xor-half : (x y : ℕ) → bit_xor x y / 2 ≡ bit_xor (x / 2) (y / 2)
bit_xor-half x y = omega (arith, bit_xor_digit x y)

pub bit_xor-low : (x y : ℕ) → bit_xor x y % 2 ≡ (x + y) % 2
bit_xor-low x y = omega (arith, bit_xor_digit x y)

assoc_below : (n x y z : ℕ) → x ≤ n → bit_xor (bit_xor x y) z ≡ bit_xor x (bit_xor y z)
assoc_below n zero y z h = ap (λ t. bit_xor t z) (zero-bit_xor y) ∙ sym (zero-bit_xor (bit_xor y z))
assoc_below zero (suc x) y z h = absurd (omega arith)
assoc_below (suc n) (suc x) y z h =
    let x' = suc x in
    let halves : bit_xor (bit_xor x' y / 2) (z / 2) ≡ bit_xor (x' / 2) (bit_xor y z / 2) =
      ap (λ t. bit_xor t (z / 2)) (bit_xor-half x' y)
      ∙ assoc_below n (x' / 2) (y / 2) (z / 2) (omega arith)
      ∙ ap (bit_xor (x' / 2)) (sym (bit_xor-half y z)) in
    omega (
      arith,
      bit_xor_digit (bit_xor x' y) z,
      bit_xor_digit x' (bit_xor y z),
      bit_xor-low x' y,
      bit_xor-low y z,
      halves,
    )

pub bit_xor_assoc : (x y z : ℕ) → bit_xor (bit_xor x y) z ≡ bit_xor x (bit_xor y z)
bit_xor_assoc x y z = assoc_below x x y z (omega arith)

self_below : (n x : ℕ) → x ≤ n → bit_xor x x ≡ 0
self_below n zero h = zero-bit_xor 0
self_below zero (suc x) h = absurd (omega arith)
self_below (suc n) (suc x) h =
    omega (arith, bit_xor_digit (suc x) (suc x), self_below n (suc x / 2) (omega arith))

pub bit_xor_self : (x : ℕ) → bit_xor x x ≡ 0
bit_xor_self x = self_below x x (omega arith)

right_zero_below : (n x : ℕ) → x ≤ n → bit_xor x 0 ≡ x
right_zero_below n zero h = zero-bit_xor 0
right_zero_below zero (suc x) h = absurd (omega arith)
right_zero_below (suc n) (suc x) h =
    omega (arith, bit_xor_digit (suc x) 0, right_zero_below n (suc x / 2) (omega arith))

pub bit_xor-zero : (x : ℕ) → bit_xor x 0 ≡ x
bit_xor-zero x = right_zero_below x x (omega arith)

-- One digit more of a shift.
div-pow_suc : (x k : ℕ) → x / 2 ^ suc k ≡ x / 2 / 2 ^ k
div-pow_suc x k =
    ap (λ t. x / t) (omega (arith, pow-suc 2 k)) ∙ sym (div-div-eq-div-mul x 2 (2 ^ k))

-- Both shifted by `k` digits at once.
pub bit_xor-shift : (k x y : ℕ) → bit_xor x y / 2 ^ k ≡ bit_xor (x / 2 ^ k) (y / 2 ^ k)
bit_xor-shift zero x y =
    div-one (bit_xor x y)
    ∙ sym (ap (λ t. bit_xor t (y / 1)) (div-one x) ∙ ap (bit_xor x) (div-one y))
bit_xor-shift (suc k) x y =
    rw (div-pow_suc (bit_xor x y) k, div-pow_suc x k, div-pow_suc y k, bit_xor-half x y)
      (bit_xor-shift k (x / 2) (y / 2))

-- A number is its high digits with the low ones put in.
pub bit_xor-split : (k x : ℕ) → bit_xor (x / 2 ^ k * 2 ^ k) (x % 2 ^ k) ≡ x
bit_xor-split zero x =
    let none_low : x % 1 ≡ 0 = omega arith in
    let all_high : x / 1 * 1 ≡ x = omega arith in
    ap (λ t. bit_xor t (x % 1)) all_high ∙ ap (bit_xor x) none_low ∙ bit_xor-zero x
bit_xor-split (suc k) x =
    let high = x / 2 ^ suc k * 2 ^ suc k in
    let low = x % 2 ^ suc k in
    let double : 2 ^ suc k ≡ 2 * 2 ^ k = omega (arith, pow-suc 2 k) in
    let low_half : low ≡ x / 2 % 2 ^ k * 2 + x % 2 =
      ap (λ t. x % t) double ∙ mod-double x (2 ^ k) (one-le-pow k 2 (omega arith)) in
    let high_half : high ≡ x / 2 / 2 ^ k * 2 ^ k * 2 =
      ap (λ t. t * 2 ^ suc k) (div-pow_suc x k)
      ∙ omega (arith, ap (λ (t : ℕ). x / 2 / 2 ^ k * t) (pow-suc 2 k)) in
    let high_rest : high / 2 ≡ x / 2 / 2 ^ k * 2 ^ k = omega (arith, high_half) in
    let low_rest : low / 2 ≡ x / 2 % 2 ^ k = omega (arith, low_half) in
    let rest : bit_xor (high / 2) (low / 2) ≡ x / 2 =
      ap (λ t. bit_xor t (low / 2)) high_rest
      ∙ ap (bit_xor (x / 2 / 2 ^ k * 2 ^ k)) low_rest
      ∙ bit_xor-split k (x / 2) in
    omega (arith, bit_xor_digit high low, low_half, high_half, rest)

pub bit_xor-bound : (k x y : ℕ) → x < 2 ^ k → y < 2 ^ k → bit_xor x y < 2 ^ k
bit_xor-bound k x y h h' =
    let gone : bit_xor x y / 2 ^ k ≡ 0 =
      bit_xor-shift k x y
      ∙ ap (λ t. bit_xor t (y / 2 ^ k)) (div-eq_of_lt h)
      ∙ ap (bit_xor 0) (div-eq_of_lt h') in
    let whole : bit_xor x y / 2 ^ k * 2 ^ k ≡ 0 * 2 ^ k = ap (λ t. t * 2 ^ k) gone in
    omega (
      arith,
      whole,
      div-add-mod' (bit_xor x y) (2 ^ k),
      mod-lt (bit_xor x y) (one-le-pow k 2 (omega arith)),
    )
